-- ===== src/Connections/Streams.antt =====
-- resource/connections.py: the record of a session counts and names its open streams.
use loommux.Prelude.Lists.{length-append, any, length}
use loommux.Prelude.{
  ap, false, refl, none, if◌then◌else◌, arith, suc, ◌∷◌, some, ℕ, true, Bool, ◌++◌, [], ◌≡◌, List,
  Option,
}
use loommux.Connections.{
  remove_address, drop_address, append_address, address_eq, Address, SessionPresence, close_stream,
  open_stream,
}

-- The streams that are really open, oldest first, each with the address that it came from, if known.
abbrev pub Streams : Type 0
Streams = List (Option Address)

abbrev pub somes : Streams → List Address
somes [] = []
somes (none ∷ l) = somes l
somes (some a ∷ l) = a ∷ somes l

abbrev stream_eq : Option Address → Option Address → Bool
stream_eq none none = true
stream_eq (some a) (some b) = address_eq a b
stream_eq _ _ = false

-- One stream with this address has closed.
pub close : Option Address → Streams → Streams
close a [] = []
close a (b ∷ l) = let rest = close a l in if stream_eq b a then l else b ∷ rest

abbrev pub is_open : Option Address → Streams → Bool
is_open a l = any (λ b. stream_eq b a) l

-- The record describes these streams.
pub record Describes (r : SessionPresence) (l : Streams) : Type 0 where
  pub count : r.open_streams ≡ length l
  pub addresses : r.open_addresses ≡ somes l

somes-append : (l : Streams) (a : Option Address) → somes (l ++ a ∷ []) ≡ append_address a (somes l)
unfolding append_address
somes-append [] none = refl
somes-append [] (some a) = refl
somes-append (none ∷ l) none = somes-append l none
somes-append (some b ∷ l) none = ap (λ t. b ∷ t) (somes-append l none)
somes-append (none ∷ l) (some a) = somes-append l (some a)
somes-append (some b ∷ l) (some a) = ap (λ t. b ∷ t) (somes-append l (some a))

-- Opening a stream adds it, newest last.
pub open_stream-Describes :
    (r : SessionPresence) (l : Streams) (a : Option Address)
    → Describes r l
    → Describes (open_stream r a) (l ++ a ∷ [])
unfolding open_stream
open_stream-Describes r l a v = ground (arith, somes-append l a, length-append l (a ∷ []))

length-close :
    (a : Option Address) (l : Streams) → is_open a l ≡ true → suc (length (close a l)) ≡ length l
unfolding close
length-close a [] h = cc
length-close a (b ∷ l) h = ground (arith, length-close a l)

somes-close : (a : Option Address) (l : Streams) → somes (close a l) ≡ drop_address a (somes l)
unfolding close drop_address remove_address
somes-close none [] = refl
somes-close (some a) [] = refl
somes-close none (none ∷ l) = refl
somes-close none (some b ∷ l) = ap (λ t. b ∷ t) (somes-close none l)
somes-close (some a) (none ∷ l) = somes-close (some a) l
somes-close (some a) (some b ∷ l) = ground (arith, somes-close (some a) l)

length_zero : (l : Streams) → length l ≡ 0 → l ≡ []
length_zero [] h = refl
length_zero (a ∷ l) h = absurd (omega arith)

-- Closing a stream that is open removes one with its address; the last to close leaves no address,
-- and its time is recorded.
pub close_stream-Describes :
    (r : SessionPresence) (l : Streams) (a : Option Address) (now : ℕ)
    → Describes r l
    → is_open a l ≡ true
    → Describes (close_stream r a now) (close a l)
      × ((close_stream r a now).closed_at ≡ elim (close a l) [ [] ↦ some now | _ ↦ r.closed_at ])
unfolding close_stream
close_stream-Describes r l a now v h =
    ground (arith, somes-close a l, length-close a l, length_zero (close a l))
