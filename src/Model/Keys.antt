-- ===== src/Model/Keys.antt =====
-- resource/model.py: the keys of kernels.
use loommux.Prelude.{[], ◌∷◌, arith, ◌≢◌, ◌≡◌, ◌++◌, Option, Text, some, none}
use loommux.Model.{resource_key}
use loommux.Prelude.Lists.{All}

-- A resource id is the hexadecimal form of a UUID: it has no colon.
abbrev pub NoColon : Text → Type 0
NoColon = All λ c. c ≢ b':'

abbrev pub HomeOk : Option Text → Type 0
HomeOk none = Unit {0}
HomeOk (some home) = NoColon home

split_at_colon :
    (h k : Text) {n m : Text}
    → NoColon h
    → NoColon k
    → h ++ b':' ∷ n ≡ k ++ b':' ∷ m
    → (h ≡ k) × (n ≡ m)
split_at_colon [] [] a b e = ground arith
split_at_colon [] (d ∷ k) a b e = ground arith
split_at_colon (c ∷ h) [] a b e = ground arith
split_at_colon (c ∷ h) (d ∷ k) {n} {m} a b e =
    ground (arith, split_at_colon h k {n = n} {m = m} a.1 b.1)

-- Two kernels have one key exactly when they have one name and one home: a main kernel's key is
-- never a child kernel's, and a name is free to hold colons.
pub resource_key-injective :
    (n m : Text) (h k : Option Text)
    → HomeOk h
    → HomeOk k
    → resource_key n h ≡ resource_key m k
    → (n ≡ m) × (h ≡ k)
unfolding resource_key
resource_key-injective n m none none a b e = ground arith
resource_key-injective n m none (some k) a b e = ground arith
resource_key-injective n m (some h) none a b e = ground arith
resource_key-injective n m (some h) (some k) a b e =
    ground (arith, split_at_colon h k {n = n} {m = m} a b)
