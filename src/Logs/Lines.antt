-- ===== src/Logs/Lines.antt =====
-- execution/logs.py: reading by line. `str.splitlines`, `int` and `str.join` are written out, `int` on
-- ASCII input.
pub mod Ranges
use loommux.Prelude.{
  codes, not, ◌+◌, map, ◌++◌, ◌*◌, ltb, min, ◌&&◌, ◌-◌, ◌||◌, if◌then◌else◌, max, ◌==◌, leb, ◌∷◌,
  Option, List, Bool, ℕ, Text, [], suc, zero, false, true, some, none,
}
use loommux.Logs.{joined, LineLog}
use loommux.Prelude.Int.{◌+ℤ◌, leb_ℤ, pos_part, negsuc, pos, ℤ}
use loommux.Prelude.Result.{err, raise_if, or_raise, ◌>>◌, ◌>>=◌, ok, Result}
use loommux.Prelude.Lists.{any, take, drop, length}
use loommux.Prelude.Decimal.{decimal}
use loommux.Prelude.Strings.{between_codes}

-- The characters at which `str.splitlines` ends a line.
abbrev pub is_break : ℕ → Bool
is_break c =
    between_codes 0x0a 0x0d c
    || between_codes 0x1c 0x1e c
    || c == 0x85
    || between_codes 0x2028 0x2029 c

abbrev extend : ℕ → List Text → List Text
extend c [] = (c ∷ []) ∷ []
extend c (l ∷ ls) = (c ∷ l) ∷ ls

-- text.splitlines(): CR LF is one break, and a break at the end opens no line.
unfoldable pub splitlines : Text → List Text
splitlines [] = []
splitlines (c ∷ []) = if is_break c then [] ∷ [] else (c ∷ []) ∷ []
splitlines (c ∷ d ∷ t) =
    let rest = splitlines (d ∷ t) in
    let after = splitlines t in
    if c == 0x0d && d == 0x0a then [] ∷ after else if is_break c then [] ∷ rest else extend c rest

-- `"\n".join(lines)`.
unfoldable pub join_lines : List Text → Text
join_lines [] = []
join_lines (l ∷ []) = l
join_lines (l ∷ k ∷ ls) = l ++ 0x0a ∷ join_lines (k ∷ ls)

-- _split_lines: the lines, kept until the next join.
unfoldable pub split_lines : LineLog → List Text × LineLog
split_lines l =
    let (t, l') = joined l in
    elim l'.lines [
      | some lines ↦ (lines, l')
      | none ↦ (splitlines t, record l' { lines = some (splitlines t) })
    ]

pub data LogError : Type 0 where
  invalid_max_chars invalid_line_range invalid_context : LogError

-- _validate_max_chars
abbrev pub validate_max_chars : Option ℤ → Option LogError
validate_max_chars none = none
validate_max_chars (some n) = if leb_ℤ n (pos 0) then some invalid_max_chars else none

-- _clip_line, where the limit has been validated.
unfoldable pub clip_line : Text → Option ℤ → Text
clip_line line none = line
clip_line line (some n) =
    if leb (length line) (pos_part n)
    then line
    else take (pos_part n) line
      ++ codes "...["
      ++ decimal (length line - pos_part n)
      ++ codes " chars omitted]"

abbrev is_digit : ℕ → Bool
is_digit c = between_codes b'0' b'9' c

abbrev is_space : ℕ → Bool
is_space c = c == 0x20 || between_codes 0x09 0x0d c || between_codes 0x1c 0x1f c

-- The digits of a number, single underscores between them, and blanks at its end.
parse_digits : Bool → ℕ → Text → Option ℕ
parse_digits after_digit n [] = if after_digit then some n else none
parse_digits after_digit n (c ∷ t) =
    let digit = parse_digits true (n * 10 + (c - b'0')) t in
    let underscore = parse_digits false n t in
    if is_digit c
    then digit
    else if after_digit && c == b'_'
    then underscore
    else if after_digit && not (any (λ d. not (is_space d)) (c ∷ t))
    then some n
    else none

abbrev negate : ℕ → ℤ
negate zero = pos 0
negate (suc n) = negsuc n

abbrev signed : (ℕ → ℤ) → Option ℕ → Option ℤ
signed f none = none
signed f (some n) = some (f n)

abbrev starts_digit : Text → Bool
starts_digit [] = false
starts_digit (c ∷ t) = is_digit c

-- int(raw); `none` is ValueError.
parse_int : Text → Option ℤ
unfolding parse_digits
parse_int [] = none
parse_int (c ∷ t) =
    let rest = parse_int t in
    if is_space c
    then rest
    else if c == b'-'
    then (if starts_digit t then signed negate (parse_digits false 0 t) else none)
    else if c == b'+'
    then (if starts_digit t then signed pos (parse_digits false 0 t) else none)
    else if is_digit c
    then signed pos (parse_digits false 0 (c ∷ t))
    else none

-- _resolve_endpoint
abbrev pub resolve_endpoint : Text → ℕ → ℕ → Option ℤ
unfolding parse_int
resolve_endpoint [] total default = some (pos default)
resolve_endpoint (c ∷ t) total default = elim (parse_int (c ∷ t)) [
  | none ↦ none
  | some (pos n) ↦ some (pos n)
  | some (negsuc n) ↦ some (pos (total + 1) +ℤ negsuc n)
]

pub record ResolvedLineRange : Type 0 where
  pub start : ℕ
  pub stop : ℕ

-- `raw.split(":", 1)`, where there is a colon.
split_colon : Text → Option (Text × Text)
split_colon [] = none
split_colon (c ∷ t) =
    let rest = split_colon t in
    if c == b':' then some ([], t) else elim rest [ none ↦ none | some (a, b) ↦ some (c ∷ a, b) ]

-- `max(1, min(start, total + 1))` and `max(0, min(stop, total))`.
unfoldable pub clamp_range : ℤ → ℤ → ℕ → ResolvedLineRange
clamp_range start stop total = record {
  start = max 1 (min (pos_part start) (total + 1));
  stop = min (pos_part stop) total;
}

resolve_ends : Text → Text → ℕ → Result LogError ResolvedLineRange
resolve_ends start_raw stop_raw total = do
  start ← or_raise (resolve_endpoint start_raw total 1) invalid_line_range
  stop ← or_raise (resolve_endpoint stop_raw total total) invalid_line_range
  ok (clamp_range start stop total)

-- _resolve_line_range
unfoldable pub resolve_line_range : Option Text → ℕ → Result LogError ResolvedLineRange
unfolding resolve_ends split_colon
resolve_line_range line_range zero = ok (record { start = 1; stop = 0 })
resolve_line_range none (suc n) = ok (record { start = 1; stop = suc n })
resolve_line_range (some raw) (suc n) = elim (split_colon raw) [
  | none ↦ err invalid_line_range
  | some (start_raw, stop_raw) ↦ resolve_ends start_raw stop_raw (suc n)
]

-- _selected_lines: lines[start - 1 : stop].
unfoldable pub selected_lines : List Text → ResolvedLineRange → List Text
selected_lines lines r = if ltb r.stop r.start then [] else drop (r.start - 1) (take r.stop lines)

pub record Reading : Type 0 where
  pub total_lines : ℕ
  pub returned_lines : ℕ
  pub omitted_before : ℕ
  pub omitted_after : ℕ
  pub text : Text

abbrev pub is_empty : List Text → Bool
is_empty [] = true
is_empty (l ∷ ls) = false

unfoldable pub reading : List Text → ResolvedLineRange → Option ℤ → Reading
reading lines r max_chars =
    let selected = selected_lines lines r in
    record {
      total_lines = length lines;
      returned_lines = length selected;
      omitted_before = if is_empty selected then length lines else r.start - 1;
      omitted_after = if is_empty selected then 0 else length lines - r.stop;
      text = join_lines (map (λ l. clip_line l max_chars) selected);
    }

-- read: the answer, and the log.
unfoldable pub read : LineLog → Option Text → Option ℤ → Result LogError (Reading × LineLog)
read l line_range max_chars = do
  raise_if (validate_max_chars max_chars)
  let (lines, l') = split_lines l
  r ← resolve_line_range line_range (length lines)
  ok (reading lines r max_chars, l')
