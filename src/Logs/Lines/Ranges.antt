-- ===== src/Logs/Lines/Ranges.antt =====
-- execution/logs.py: what a reading leaves out.
use loommux.Prelude.{
  append-nil, ap, ◌-◌, ◌∷◌, sym, ltb, Bool-cases, [], false, true, refl, subst, ◌++◌, Option-cases,
  arith, List, suc, zero, inr, inl, some, none, ◌+◌, ◌≤◌, ◌≡◌, ℕ, Text, Option,
}
use loommux.Logs.Lines.{
  Reading, is_empty, selected_lines, reading, split_colon, resolve_endpoint, clamp_range,
  resolve_ends, resolve_line_range, ResolvedLineRange,
}
use loommux.Prelude.Result.{ok}
use loommux.Prelude.Int.{ℤ}
use loommux.Prelude.Lists.{
  take-all, length-take, length-drop, take-append-drop, drop-all, drop, length, take,
}

ends_bounds :
    (a b : Text) (n : ℕ) (r : ResolvedLineRange)
    → resolve_ends a b n ≡ ok r
    → (1 ≤ r.start) × (r.start ≤ n + 1) × (r.stop ≤ n)
unfolding resolve_ends clamp_range
ends_bounds a b n r e = elim (Option-cases (resolve_endpoint a n 1)) [
  | inl bad ↦ ground arith
  | inr (x, good) ↦ elim (Option-cases (resolve_endpoint b n n)) [
    | inl bad ↦ ground arith
    | inr (y, good') ↦
        let same : clamp_range x y n ≡ r = ground arith in
        subst (λ r. (1 ≤ r.start) × (r.start ≤ n + 1) × (r.stop ≤ n)) same
          (omega arith, omega arith, omega arith)
  ]
]

-- A range lies in the lines, or is empty.
resolved_bounds :
    (line_range : Option Text) (n : ℕ) (r : ResolvedLineRange)
    → resolve_line_range line_range n ≡ ok r
    → (1 ≤ r.start) × (r.start ≤ n + 1) × (r.stop ≤ n)
unfolding resolve_line_range
resolved_bounds line_range zero r e = ground arith
resolved_bounds none (suc n) r e = ground arith
resolved_bounds (some raw) (suc n) r e = elim (Option-cases (split_colon raw)) [
  | inl none_there ↦ ground arith
  | inr ((a, b), there) ↦ ends_bounds a b (suc n) r (ground arith)
]

drop-take :
    {A : Type 0} (i j : ℕ) (l : List A) → i ≤ j → l ≡ take i l ++ (drop i (take j l) ++ drop j l)
drop-take zero j l h = sym (take-append-drop j l)
drop-take (suc i) zero l h = absurd (omega arith)
drop-take (suc i) (suc j) [] h = refl
drop-take (suc i) (suc j) (x ∷ l) h = ap (λ t. x ∷ t) (drop-take i j l (omega arith))

drop-length : {A : Type 0} (l : List A) → drop (length l + 0) l ≡ []
drop-length l = drop-all (length l + 0) l (omega arith)

is_empty_lem : (l : List Text) → 1 ≤ length l → is_empty l ≡ false
is_empty_lem [] h = absurd (omega arith)
is_empty_lem (x ∷ l) h = refl

abbrev Parts : List Text → Reading → List Text → Type 0
Parts lines x selected =
    (lines
      ≡ take x.omitted_before lines
        ++ (selected ++ drop (x.omitted_before + x.returned_lines) lines))
    × (x.omitted_before + x.returned_lines + x.omitted_after ≡ length lines)

empty-Parts :
    (lines : List Text) (r : ResolvedLineRange) (max_chars : Option ℤ)
    → ltb r.stop r.start ≡ true
    → Parts lines (reading lines r max_chars) (selected_lines lines r)
unfolding reading selected_lines
empty-Parts lines r max_chars h =
    rw h (rw (drop-length lines) (rw append-nil (sym (take-all lines))), omega arith)

full-Parts :
    (lines : List Text) (r : ResolvedLineRange) (max_chars : Option ℤ)
    → ltb r.stop r.start ≡ false
    → 1 ≤ r.start
    → r.stop ≤ length lines
    → Parts lines (reading lines r max_chars) (selected_lines lines r)
unfolding reading selected_lines
full-Parts lines r max_chars h low high =
    let le : r.start ≤ r.stop = ground arith in
    let count : length (drop (r.start - 1) (take r.stop lines)) ≡ r.stop - (r.start - 1) =
      omega (arith, length-drop (r.start - 1) (take r.stop lines), length-take r.stop lines) in
    let some_lines : is_empty (drop (r.start - 1) (take r.stop lines)) ≡ false =
      is_empty_lem _ (omega (arith, count)) in
    let all : r.start - 1 + (r.stop - (r.start - 1)) ≡ r.stop = omega arith in
    rw (h, some_lines, count, all) (drop-take (r.start - 1) r.stop lines (omega arith), omega arith)

-- What a reading selects and what it says to have left out make up the lines: those before, those
-- selected, and those after, and nothing else. Each endpoint that it was asked for has been brought
-- into the lines.
pub reading_lem :
    (lines : List Text) (line_range : Option Text) (r : ResolvedLineRange) (max_chars : Option ℤ)
    → resolve_line_range line_range (length lines) ≡ ok r
    → (lines
        ≡ take (reading lines r max_chars).omitted_before lines
          ++ (selected_lines lines r
              ++ drop
                  ((reading lines r max_chars).omitted_before
                    + (reading lines r max_chars).returned_lines)
                  lines))
      × ((reading lines r max_chars).omitted_before
            + (reading lines r max_chars).returned_lines
            + (reading lines r max_chars).omitted_after
          ≡ length lines)
reading_lem lines line_range r max_chars e =
    let (low, _, high) = resolved_bounds line_range (length lines) r e in
    elim (Bool-cases (ltb r.stop r.start)) [
      | inl none_left ↦ empty-Parts lines r max_chars none_left
      | inr some_left ↦ full-Parts lines r max_chars some_left low high
    ]
