-- ===== src/Manager/Names.antt =====
-- resource/manager.py: `_free_name_locked` and `_home_names_locked`.

pub mod Free
use loommux.Prelude.{
  ◌&&◌, ◌==◌, not, ◌∷◌, ◌++◌, text_is_eq, leb, ◌||◌, text_eq, ◌+◌, if◌then◌else◌, or_else, List, ℕ,
  Bool, Option, Text, [], suc, zero, false, some, none,
}
use loommux.Manager.State.{Ref, Manager}
use loommux.Model.{resource_key, KernelResource}
use loommux.Prelude.Lists.{length}
use loommux.Prelude.Dict.{has, values}
use loommux.Connections.{elem}
use loommux.Prelude.Decimal.{decimal}

-- `name` for the first, and `f"{name}-{number}"` from the second on.
pub numbered : Text → ℕ → Text
numbered name number = if leb number 1 then name else name ++ b'-' ∷ decimal number

abbrev pub is_taken : Manager → Option Text → List Text → Text → Bool
is_taken m home reserved candidate =
    has m.by_key (resource_key candidate home)
    || has m.provisioning (resource_key candidate home)
    || elem candidate reserved

-- The loop, with fuel: the first candidate from this number on that is not taken.
pub search_name : (Text → Bool) → Text → ℕ → ℕ → Option Text
search_name taken name zero number = none
search_name taken name (suc fuel) number =
    let rest = search_name taken name fuel (number + 1) in
    if taken (numbered name number) then rest else some (numbered name number)

-- Each name that is taken is a key of a table or reserved: one round more than there are such.
abbrev pub rounds : Manager → List Text → ℕ
rounds m reserved = suc (length m.by_key + (length m.provisioning + length reserved))

unfoldable pub free_name : Manager → Text → Option Text → List Text → Text
unfolding search_name numbered
free_name m name home reserved =
    or_else (search_name (is_taken m home reserved) name (rounds m reserved) 1) name

-- The ids of the home that a kernel is in.
abbrev pub home_id : KernelResource → Text
home_id x = or_else x.home x.resource_id

abbrev in_home : Text → KernelResource → Bool
in_home id x = text_eq id x.resource_id || elim x.home [ none ↦ false | some h ↦ text_eq id h ]

other_names : Manager → Ref → List Ref → List Text
other_names m r [] = []
other_names m r (q ∷ l) =
    let rest = other_names m r l in
    if not (q == r) && in_home (home_id (m.heap r)) (m.heap q) then (m.heap q).name ∷ rest else rest

-- _home_names_locked
unfoldable pub home_names : Manager → Ref → List Text
unfolding other_names
home_names m r = other_names m r (values m.by_id)
