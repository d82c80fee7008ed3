-- ===== src/Connections.antt =====
-- resource/connections.py: which sessions hold a stream open. `now` is the reading of the monotonic
-- clock, in ticks; a session's record is made on first sight.
pub mod Streams
pub mod Presence
use loommux.Prelude.Dict.{retain, get, put, Dict}
use loommux.Prelude.{
  ◌==◌, ◌∷◌, true, ◌++◌, ◌&&◌, [], ◌-◌, text_is_eq, ltb, text_eq, ◌||◌, some, none, if◌then◌else◌,
  false, ◌+◌, Bool, ℕ, Text, List, Option,
}

-- ASGI's client: host and port.
abbrev pub Address : Type 0
Address = Text × ℕ

unfoldable pub address_eq : Address → Address → Bool
address_eq (h, p) (k, q) = text_eq h k && p == q

pub record SessionPresence : Type 0 where
  pub first_seen_at : ℕ
  pub open_streams : ℕ
  pub closed_at : Option ℕ
  pub process_bound : Bool
  pub open_addresses : List Address

unfoldable pub connected : SessionPresence → Bool
connected r = r.process_bound || ltb 0 r.open_streams

unfoldable pub last : List Address → Option Address
last [] = none
last (a ∷ []) = some a
last (a ∷ b ∷ l) = last (b ∷ l)

abbrev pub client_address : SessionPresence → Option Address
unfolding last
client_address r = last r.open_addresses

abbrev pub ConnectionRegistry : Type 0
ConnectionRegistry = Dict Text SessionPresence

unfoldable pub first_sight : ℕ → SessionPresence
first_sight now = record {
  first_seen_at = now;
  open_streams = 0;
  closed_at = none;
  process_bound = false;
  open_addresses = [];
}

-- presence(session_id): the record, and the registry that holds it.
unfoldable pub presence : ConnectionRegistry → Text → ℕ → SessionPresence × ConnectionRegistry
presence reg id now = elim (get reg id) [
  | some r ↦ (r, reg)
  | none ↦ (first_sight now, put reg id (first_sight now))
]

-- list.remove: the first that is equal; and `in`.
pub remove_address : Address → List Address → List Address
remove_address a [] = []
remove_address a (b ∷ l) = let rest = remove_address a l in if address_eq b a then l else b ∷ rest

append_address : Option Address → List Address → List Address
append_address none l = l
append_address (some a) l = l ++ a ∷ []

drop_address : Option Address → List Address → List Address
drop_address none l = l
drop_address (some a) l = remove_address a l

pub open_stream : SessionPresence → Option Address → SessionPresence
unfolding append_address
open_stream r address = record r {
  open_streams = r.open_streams + 1;
  open_addresses = append_address address r.open_addresses;
}

-- `max(0, n - 1)` is the truncated subtraction.
pub close_stream : SessionPresence → Option Address → ℕ → SessionPresence
unfolding drop_address
close_stream r address now =
    if r.open_streams - 1 == 0
    then record r { open_streams = r.open_streams - 1; closed_at = some now; open_addresses = [] }
    else record r {
      open_streams = r.open_streams - 1;
      open_addresses = drop_address address r.open_addresses;
    }

abbrev pub stream_opened : ConnectionRegistry → Text → Option Address → ℕ → ConnectionRegistry
unfolding open_stream
stream_opened reg id address now =
    let (r, reg') = presence reg id now in put reg' id (open_stream r address)

abbrev pub stream_closed : ConnectionRegistry → Text → Option Address → ℕ → ConnectionRegistry
unfolding close_stream
stream_closed reg id address now =
    let (r, reg') = presence reg id now in put reg' id (close_stream r address now)

abbrev pub bind_to_process : ConnectionRegistry → Text → ℕ → ConnectionRegistry
bind_to_process reg id now =
    let (r, reg') = presence reg id now in put reg' id (record r { process_bound = true })

-- `x in keep`.
unfoldable pub elem : Text → List Text → Bool
elem x [] = false
elem x (y ∷ l) = text_eq y x || elem x l

-- prune(keep=...): a disconnected session that `keep` does not name is deleted.
unfoldable pub prune : ConnectionRegistry → List Text → ConnectionRegistry
unfolding connected
prune reg ids = retain (λ id r. connected r || elem id ids) reg
