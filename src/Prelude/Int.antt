-- ===== src/Prelude/Int.antt =====
-- Signed integers over the native numbers, and floats as the program's checks see them.
use Prim.Native.Nat.{ℕ, suc, ◌+◌, ◌-◌}
use mathlib.Core.Bool.{Bool, true, false}
use loommux.Prelude.Tests.{leb, if◌then◌else◌}

-- `negsuc n` is -(n + 1).
pub data ℤ : Type 0 where
  pos : ℕ → ℤ
  negsuc : ℕ → ℤ

abbrev pub pos_part : ℤ → ℕ
pos_part (pos n) = n
pos_part (negsuc n) = 0

abbrev pub neg_part : ℤ → ℕ
neg_part (pos n) = 0
neg_part (negsuc n) = suc n

abbrev pub sub_ℕ : ℕ → ℕ → ℤ
sub_ℕ a b = if leb b a then pos (a - b) else negsuc (b - a - 1)

infixl 65 ◌+ℤ◌
abbrev pub ◌+ℤ◌ : ℤ → ℤ → ℤ
a +ℤ b = sub_ℕ (pos_part a + pos_part b) (neg_part a + neg_part b)

abbrev pub leb_ℤ : ℤ → ℤ → Bool
leb_ℤ a b = leb (pos_part a + neg_part b) (pos_part b + neg_part a)

-- A float: a finite value on a grid of whole ticks, an infinity, or not a number.
pub data Float : Type 0 where
  finite : ℤ → Float
  infinity minus_infinity nan : Float

-- math.isfinite
unfoldable pub isfinite : Float → Bool
isfinite (finite z) = true
isfinite infinity = false
isfinite minus_infinity = false
isfinite nan = false

-- `x <= y`, false where either is not a number.
unfoldable pub float_le : Float → Float → Bool
float_le nan y = false
float_le (finite a) nan = false
float_le (finite a) (finite b) = leb_ℤ a b
float_le (finite a) infinity = true
float_le (finite a) minus_infinity = false
float_le infinity infinity = true
float_le infinity _ = false
float_le minus_infinity nan = false
float_le minus_infinity _ = true

-- The whole ticks of a float that is positive and finite.
unfoldable pub ticks : Float → ℕ
ticks (finite z) = pos_part z
ticks infinity = 0
ticks minus_infinity = 0
ticks nan = 0
