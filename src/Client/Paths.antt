-- ===== src/Client/Paths.antt =====
-- daemon.py and mcp/control.py: the execution that a path names.
use loommux.Client.{is_filled_text, selected_path, execution_of_path}
use loommux.Prelude.Decimal.{all_decimal, all_decimal-decimal, decimal, digits, value-decimal}
use loommux.Prelude.{
  ap, text_eq_iff, Bool-cases, codes, text_eq, inr, inl, false, ◌%◌, ◌+◌, ◌∷◌, ◌/◌, arith, ◌++◌,
  ◌≡◌, Text, ℕ, Option, [], suc, true, refl, some, none,
}

append-filled : (s : Text) (c : ℕ) → is_filled_text (s ++ c ∷ []) ≡ true
unfolding is_filled_text
append-filled [] c = refl
append-filled (d ∷ s) c = refl

digits-filled : (fuel n : ℕ) → is_filled_text (digits (suc fuel) n) ≡ true
unfolding digits is_filled_text
digits-filled fuel n = ground (arith, append-filled (digits fuel (n / 10)) (48 + n % 10))

decimal-filled : (n : ℕ) → is_filled_text (decimal n) ≡ true
unfolding decimal
decimal-filled n = digits-filled n n

not_latest : (t : Text) → all_decimal t ≡ true → text_eq t (codes "latest") ≡ false
unfolding all_decimal text_eq
not_latest t h = elim (Bool-cases (text_eq t (codes "latest"))) [
  | inr e ↦ e
  | inl e ↦
      let same = (text_eq_iff t (codes "latest")).0 e in
      absurd (ground (arith, ap all_decimal same))
]

-- What the client writes into a path, the server reads as the same execution, or as the latest.
pub execution_of_path-selected_path :
    (execution : Option ℕ) → execution_of_path (selected_path execution) ≡ some execution
unfolding execution_of_path selected_path text_eq
execution_of_path-selected_path none = refl
execution_of_path-selected_path (some n) = ground (
  arith,
  not_latest (decimal n) (all_decimal-decimal n),
  all_decimal-decimal n,
  decimal-filled n,
  value-decimal n,
)
