-- ===== src/Prelude/Decimal.antt =====
-- `str(n)`: the decimal digits of a number.
use loommux.Prelude.{
  ◌&&◌, leb, Bool, true, ◌-◌, ap, ◌%◌, ltb, ◌*◌, if◌then◌else◌, ◌∷◌, ◌+◌, ◌∙◌, ◌/◌, sym, ◌++◌,
  arith, ◌<◌, Text, ◌≡◌, ℕ, [], suc, zero, refl,
}

unfoldable pub digits : ℕ → ℕ → Text
digits zero n = []
digits (suc fuel) n =
    let rest = digits fuel (n / 10) in
    if ltb n 10 then (48 + n) ∷ [] else rest ++ (48 + n % 10) ∷ []

-- A number has no more digits than its value and one.
unfoldable pub decimal : ℕ → Text
unfolding digits
decimal n = digits (suc n) n

-- The number that digits stand for.
unfoldable pub value : ℕ → Text → ℕ
value acc [] = acc
value acc (c ∷ t) = value (acc * 10 + (c - 48)) t

value-append : (acc : ℕ) (s : Text) (c : ℕ) → value acc (s ++ c ∷ []) ≡ value acc s * 10 + (c - 48)
unfolding value
value-append acc [] c = refl
value-append acc (d ∷ s) c = value-append (acc * 10 + (d - 48)) s c

value-digits : (fuel n : ℕ) → n < fuel → value 0 (digits fuel n) ≡ n
unfolding value digits
value-digits zero n h = absurd (omega arith)
value-digits (suc fuel) n h =
    ground (arith, value-append 0 (digits fuel (n / 10)) (48 + n % 10), value-digits fuel (n / 10))

pub value-decimal : (n : ℕ) → value 0 (decimal n) ≡ n
unfolding decimal
value-decimal n = value-digits (suc n) n (omega arith)

-- Two numbers with one decimal form are one.
pub decimal-injective : (n m : ℕ) → decimal n ≡ decimal m → n ≡ m
decimal-injective n m e = sym (value-decimal n) ∙ ap (value 0) e ∙ value-decimal m

abbrev pub is_decimal_digit : ℕ → Bool
is_decimal_digit c = leb b'0' c && leb c b'9'

unfoldable pub all_decimal : Text → Bool
all_decimal [] = true
all_decimal (c ∷ t) = is_decimal_digit c && all_decimal t

all_decimal-append :
    (s t : Text) → all_decimal s ≡ true → all_decimal t ≡ true → all_decimal (s ++ t) ≡ true
unfolding all_decimal
all_decimal-append [] t h k = k
all_decimal-append (c ∷ s) t h k = ground (arith, all_decimal-append s t)

all_decimal-digits : (fuel n : ℕ) → all_decimal (digits fuel n) ≡ true
unfolding digits all_decimal
all_decimal-digits zero n = refl
all_decimal-digits (suc fuel) n = ground (
  arith,
  all_decimal-digits fuel (n / 10),
  all_decimal-append (digits fuel (n / 10)) ((48 + n % 10) ∷ []),
)

pub all_decimal-decimal : (n : ℕ) → all_decimal (decimal n) ≡ true
unfolding decimal
all_decimal-decimal n = all_decimal-digits (suc n) n
