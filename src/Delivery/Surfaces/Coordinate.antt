-- ===== src/Delivery/Surfaces/Coordinate.antt =====
-- mcp/presentation.py: the text of a result tells which cell it is of.
use loommux.Delivery.Surfaces.{
  format_duration, Duration, execution_surface, Tool, is_tool_failure, run_cell, wait, read_output,
  search_output, status, execution_status, interrupt, restart, other_tool, Answer, execution_number,
  format_execution_input, with_execution_input,
}
use loommux.Prelude.{
  Bool, sym, append_assoc, Option, ◌∙◌, false, none, ap, ◌==◌, arith, if◌then◌else◌, ◌++◌, ◌≡◌,
  codes, ◌∷◌, Text, ℕ, [], true, refl, some,
}
use loommux.Prelude.Decimal.{all_decimal, value-decimal, all_decimal-decimal, decimal, value}
use loommux.Prelude.Lists.{drop}
use loommux.Delivery.Surfaces.Status.{format_tool_result_text}

-- What stands before the first closing bracket.
before_bracket : Text → Text
before_bracket [] = []
before_bracket (c ∷ t) = let rest = before_bracket t in if c == 93 then [] else c ∷ rest

before_bracket-append : (d t : Text) → all_decimal d ≡ true → before_bracket (d ++ 93 ∷ t) ≡ d
unfolding before_bracket all_decimal
before_bracket-append [] t h = refl
before_bracket-append (c ∷ d) t h = ground (arith, before_bracket-append d t)

-- The number of the cell that a text names.
pub named : Text → ℕ
named t = value 0 (before_bracket (drop 4 t))

pub named-append : (n : ℕ) (t : Text) → named (codes "In [" ++ decimal n ++ 93 ∷ t) ≡ n
unfolding named
named-append n t =
    ap (value 0) (before_bracket-append (decimal n) t (all_decimal-decimal n)) ∙ value-decimal n

IsNamed : ℕ → Text → Type 0
IsNamed n t = (rest : Text) × (t ≡ codes "In [" ++ decimal n ++ 93 ∷ rest)

IsNamed-append : (n : ℕ) (s t : Text) → IsNamed n s → IsNamed n (s ++ t)
unfolding IsNamed
IsNamed-append n s t (rest, e) = (
  rest ++ t,
  ap (λ x. x ++ t) e ∙ ap (λ x. codes "In [" ++ x) (append_assoc (decimal n) (93 ∷ rest) t),
)

format_execution_input-IsNamed :
    (n : ℕ) (d : Option Duration) → IsNamed n (format_execution_input (decimal n) d)
unfolding IsNamed format_execution_input
format_execution_input-IsNamed n none = (58 ∷ [], refl)
format_execution_input-IsNamed n (some d) =
    let opening : IsNamed n (codes "In [" ++ decimal n ++ codes "] · ") = (codes " · ", refl) in
    IsNamed-append n _ (codes ":") (IsNamed-append n _ (format_duration d) opening)

number_text : (a : Answer) (n : ℕ) → a.execution ≡ some n → execution_number a ≡ decimal n
unfolding execution_number
number_text a n h = rw h refl

with_execution_input-IsNamed :
    (a : Answer) (n : ℕ) (body : Text)
    → a.execution ≡ some n
    → IsNamed n (with_execution_input a body)
unfolding with_execution_input
with_execution_input-IsNamed a n [] h =
    rw (number_text a n h) (format_execution_input-IsNamed n a.elapsed_seconds)
with_execution_input-IsNamed a n (c ∷ body) h =
    let header = format_execution_input-IsNamed n a.elapsed_seconds in
    rw (number_text a n h) (IsNamed-append n _ (c ∷ body) (IsNamed-append n _ (codes "\n") header))

execution_surface-IsNamed :
    (a : Answer) (n : ℕ) → a.execution ≡ some n → IsNamed n (execution_surface a)
unfolding execution_surface
execution_surface-IsNamed a n h = with_execution_input-IsNamed a n _ h

-- The tools whose results are of a cell.
unfoldable pub is_cell_tool : Tool → Bool
is_cell_tool run_cell = true
is_cell_tool wait = true
is_cell_tool _ = false

no_failure :
    (tool : Tool) (a : Answer) (n : ℕ)
    → is_cell_tool tool ≡ true
    → a.execution ≡ some n
    → is_tool_failure tool a ≡ false
unfolding is_cell_tool is_tool_failure
no_failure run_cell a n t h = ground arith
no_failure wait a n t h = ground arith
no_failure read_output a n t h = cc
no_failure search_output a n t h = cc
no_failure status a n t h = cc
no_failure execution_status a n t h = cc
no_failure interrupt a n t h = cc
no_failure restart a n t h = cc
no_failure other_tool a n t h = cc

text_of_cell :
    (tool : Tool) (a : Answer) (n : ℕ)
    → is_cell_tool tool ≡ true
    → a.execution ≡ some n
    → format_tool_result_text tool a ≡ execution_surface a
unfolding is_cell_tool format_tool_result_text
text_of_cell run_cell a n t h = rw (no_failure run_cell a n t h) refl
text_of_cell wait a n t h = rw (no_failure wait a n t h) refl
text_of_cell read_output a n t h = cc
text_of_cell search_output a n t h = cc
text_of_cell status a n t h = cc
text_of_cell execution_status a n t h = cc
text_of_cell interrupt a n t h = cc
text_of_cell restart a n t h = cc
text_of_cell other_tool a n t h = cc

format_tool_result_text-IsNamed :
    (tool : Tool) (a : Answer) (n : ℕ)
    → is_cell_tool tool ≡ true
    → a.execution ≡ some n
    → IsNamed n (format_tool_result_text tool a)
format_tool_result_text-IsNamed tool a n t h =
    rw (text_of_cell tool a n t h) (execution_surface-IsNamed a n h)

-- Two results of run_cell or wait that name a cell and have one text are of one cell, whatever
-- became of it.
pub format_tool_result_text-names :
    (tool tool' : Tool) (a a' : Answer) (n n' : ℕ)
    → is_cell_tool tool ≡ true
    → is_cell_tool tool' ≡ true
    → a.execution ≡ some n
    → a'.execution ≡ some n'
    → format_tool_result_text tool a ≡ format_tool_result_text tool' a'
    → n ≡ n'
unfolding IsNamed
format_tool_result_text-names tool tool' a a' n n' t t' h h' e =
    let (rest, x) = format_tool_result_text-IsNamed tool a n t h in
    let (rest', x') = format_tool_result_text-IsNamed tool' a' n' t' h' in
    sym (named-append n rest) ∙ ap named (sym x ∙ e ∙ x') ∙ named-append n' rest'
