-- ===== src/Logs/Search.antt =====
-- execution/logs.py: `search`. The matcher, which counts the matches in a line, is what the query
-- has been compiled to by Python's `re` and `str.count`, and is an argument.
use loommux.Prelude.{
  map, ◌∙◌, or_else, min, ltb, ◌&&◌, ◌==◌, ◌-◌, codes, arith, ◌||◌, max, ◌+◌, leb, ◌++◌,
  if◌then◌else◌, Bool, Option, ◌∷◌, ◌≤◌, ◌≡◌, ℕ, Text, List, [], suc, zero, refl,
}
use loommux.Logs.{LineLog}
use loommux.Prelude.Lists.{get_elem?, any, length}
use loommux.Prelude.Int.{pos_part, pos, leb_ℤ, ℤ}
use loommux.Prelude.Result.{ok, guard, raise_if, ◌>>◌, Result}
use loommux.Prelude.Decimal.{decimal}
use loommux.Logs.Lines.{
  join_lines, split_lines, invalid_context, validate_max_chars, clip_line, LogError,
}

-- `{number: count for number, line in enumerate(lines, start) if (count := matcher(line))}`.
abbrev pub matched_of : (Text → ℕ) → ℕ → List Text → List (ℕ × ℕ)
matched_of matcher number [] = []
matched_of matcher number (line ∷ lines) =
    let rest = matched_of matcher (number + 1) lines in
    if matcher line == 0 then rest else (number, matcher line) ∷ rest

-- range(lo, lo + n).
pub span : ℕ → ℕ → List ℕ
span lo zero = []
span lo (suc n) = lo ∷ span (lo + 1) n

-- `range(max(1, match - before), min(total, match + after) + 1)`, for each match.
pub context_numbers : ℕ → ℕ → ℕ → List (ℕ × ℕ) → List ℕ
unfolding span
context_numbers before after total [] = []
context_numbers before after total ((match, count) ∷ matched) =
    span (max 1 (match - before)) (min total (match + after) + 1 - max 1 (match - before))
    ++ context_numbers before after total matched

pub is_in : ℕ → List ℕ → Bool
is_in n l = any (λ k. k == n) l

-- `sorted` of a set: a number goes where it belongs, once.
pub put_in : ℕ → List ℕ → List ℕ
put_in n [] = n ∷ []
put_in n (k ∷ l) =
    let rest = put_in n l in if n == k then k ∷ l else if ltb n k then n ∷ k ∷ l else k ∷ rest

pub sorted_set : List ℕ → List ℕ
unfolding put_in
sorted_set [] = []
sorted_set (n ∷ l) = put_in n (sorted_set l)

-- The numbers of the lines to show, in order.
pub selected_numbers : ℕ → ℕ → List Text → List (ℕ × ℕ) → List ℕ
unfolding sorted_set context_numbers
selected_numbers before after lines matched =
    sorted_set (context_numbers before after (length lines) matched)

pub total_matches : List (ℕ × ℕ) → ℕ
total_matches [] = 0
total_matches ((number, count) ∷ l) = count + total_matches l

pub mark : List (ℕ × ℕ) → ℕ → Text
mark matched n = if any (λ m. m.0 == n) matched then codes "M " else codes "C "

pub record Found : Type 0 where
  pub matched_lines : ℕ
  pub matches : ℕ
  pub total_lines : ℕ
  pub text : Text

pub render : List (ℕ × ℕ) → List Text → Option ℤ → ℕ → Text
render matched lines max_chars n =
    mark matched n
    ++ decimal n
    ++ codes " | "
    ++ clip_line (or_else (get_elem? lines (n - 1)) []) max_chars

pub search_lines : (Text → ℕ) → ℕ → ℕ → Option ℤ → List Text → Found
unfolding selected_numbers render mark total_matches
search_lines matcher before after max_chars lines =
    let matched = matched_of matcher 1 lines in
    record {
      matched_lines = length matched;
      matches = total_matches matched;
      total_lines = length lines;
      text =
          join_lines
            (map (render matched lines max_chars) (selected_numbers before after lines matched));
    }

-- search: the answer, and the log.
abbrev pub search : LineLog → (Text → ℕ) → ℤ → ℤ → Option ℤ → Result LogError (Found × LineLog)
unfolding search_lines
search l matcher context_before context_after max_chars = do
  raise_if (validate_max_chars max_chars)
  guard (leb_ℤ (pos 0) context_before && leb_ℤ (pos 0) context_after) invalid_context
  let (lines, l') = split_lines l
  ok (search_lines matcher (pos_part context_before) (pos_part context_after) max_chars lines, l')

is_in-append : (n : ℕ) (l k : List ℕ) → is_in n (l ++ k) ≡ (is_in n l || is_in n k)
unfolding is_in
is_in-append n [] k = refl
is_in-append n (x ∷ l) k = ground (arith, is_in-append n l k)

is_in-span : (n lo k : ℕ) → is_in n (span lo k) ≡ (leb lo n && ltb n (lo + k))
unfolding is_in span
is_in-span n lo zero = ground arith
is_in-span n lo (suc k) = ground (arith, is_in-span n (lo + 1) k)

is_in-put_in : (n k : ℕ) (l : List ℕ) → is_in n (put_in k l) ≡ (k == n || is_in n l)
unfolding is_in put_in
is_in-put_in n k [] = refl
is_in-put_in n k (x ∷ l) = ground (arith, is_in-put_in n k l)

is_in-sorted_set : (n : ℕ) (l : List ℕ) → is_in n (sorted_set l) ≡ is_in n l
unfolding is_in sorted_set
is_in-sorted_set n [] = refl
is_in-sorted_set n (x ∷ l) = is_in-put_in n x (sorted_set l) ∙ rw (is_in-sorted_set n l) refl

-- The numbers ascend, each above a bound, and none comes twice.
abbrev pub Ascends : ℕ → List ℕ → Type 0
Ascends low [] = Unit
Ascends low (n ∷ l) = (low ≤ n) × Ascends (n + 1) l

Ascends-put_in : (low n : ℕ) (l : List ℕ) → low ≤ n → Ascends low l → Ascends low (put_in n l)
unfolding put_in
Ascends-put_in low n [] h a = (h, tt)
Ascends-put_in low n (k ∷ l) h a = ground (arith, Ascends-put_in (k + 1) n l)

Ascends-sorted_set : (l : List ℕ) → Ascends 0 (sorted_set l)
unfolding sorted_set
Ascends-sorted_set [] = tt
Ascends-sorted_set (n ∷ l) = Ascends-put_in 0 n (sorted_set l) (omega arith) (Ascends-sorted_set l)

-- Some match is so near that its context takes in the line with this number.
abbrev pub in_context : ℕ → ℕ → ℕ → List (ℕ × ℕ) → Bool
in_context before after n matched = any (λ m. leb m.0 (n + before) && leb n (m.0 + after)) matched

near :
    (before after total n m : ℕ)
    → (leb (max 1 (m - before)) n
        && ltb n (max 1 (m - before) + (min total (m + after) + 1 - max 1 (m - before))))
      ≡ ((leb 1 n && leb n total) && (leb m (n + before) && leb n (m + after)))
near before after total n m = ground arith

is_in-context_numbers :
    (before after total n : ℕ) (matched : List (ℕ × ℕ))
    → is_in n (context_numbers before after total matched)
      ≡ ((leb 1 n && leb n total) && in_context before after n matched)
unfolding context_numbers is_in
is_in-context_numbers before after total n [] = ground arith
is_in-context_numbers before after total n ((m, c) ∷ matched) =
    is_in-append n _ (context_numbers before after total matched)
    ∙ rw
        (
          is_in-span,
          near before after total n m,
          is_in-context_numbers before after total n matched,
        )
        (ground arith)

-- The numbers of the lines that a search shows ascend, without a number twice; a number is among them
-- exactly if it is the number of a line and some match lies within the context of it.
pub selected_numbers_lem :
    (before after : ℕ) (lines : List Text) (matched : List (ℕ × ℕ))
    → Ascends 0 (selected_numbers before after lines matched)
      × ((n : ℕ)
          → is_in n (selected_numbers before after lines matched)
            ≡ ((leb 1 n && leb n (length lines)) && in_context before after n matched))
unfolding selected_numbers
selected_numbers_lem before after lines matched = (
  Ascends-sorted_set (context_numbers before after (length lines) matched),
  λ n.
      is_in-sorted_set n (context_numbers before after (length lines) matched)
      ∙ is_in-context_numbers before after (length lines) n matched,
)
