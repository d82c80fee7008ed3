-- ===== src/Terminal.antt =====
-- execution/terminal.py: the parser that removes terminal controls from text, across chunks. A
-- character is its code point; the normalizer's state is the parser's state.
pub mod Chunks
pub mod Plain
pub mod Controls
pub mod Documents
use loommux.Prelude.{
  ℕ, Text, List, [], ◌∷◌, ◌++◌, Bool, true, false, ◌&&◌, ◌||◌, not, ltb, leb, ◌==◌, if◌then◌else◌,
}

pub data ParserState : Type 0 where
  text esc esc_intermediate csi osc osc_esc string string_esc : ParserState

abbrev pub between : ℕ → ℕ → ℕ → Bool
between lo hi c = leb lo c && leb c hi

unfoldable pub is_plain_text : ℕ → Bool
is_plain_text c = (c == 0x0a || c == 0x09) || (leb 0x20 c && not (between 0x7f 0x9f c))

abbrev after_esc : ℕ → ParserState
after_esc c =
    if c == b'['
    then csi
    else if c == b']'
    then osc
    else if c == b'P' || c == b'^' || c == b'_'
    then string
    else if between b' ' b'/' c
    then esc_intermediate
    else text

abbrev after_csi : ℕ → ParserState
after_csi c =
    if between b'@' b'~' c then text else if c == 0x1b then esc else if c == 0x9c then text else csi

-- The state after one character, and what `_consume` appends to the output for it.
unfoldable pub consume : ParserState → ℕ → ParserState × Text
unfolding is_plain_text
consume text c =
    if c == 0x1b
    then (esc, [])
    else if c == 0x9b
    then (csi, [])
    else if c == 0x9d
    then (osc, [])
    else if c == 0x90 || c == 0x98 || c == 0x9e || c == 0x9f
    then (string, [])
    else if is_plain_text c
    then (text, c ∷ [])
    else (text, [])
consume esc c = (after_esc c, [])
consume esc_intermediate c =
    (if c == 0x1b then esc else if not (between b' ' b'/' c) then text else esc_intermediate, [])
consume csi c = (after_csi c, [])
consume osc c = (if c == 0x07 || c == 0x9c then text else if c == 0x1b then osc_esc else osc, [])
consume osc_esc c = (if c == 0x5c then text else osc, [])
consume string c = (if c == 0x9c then text else if c == 0x1b then string_esc else string, [])
consume string_esc c = (if c == 0x5c then text else string, [])

-- `normalize`: the state kept for the next chunk, and this chunk's text.
unfoldable pub normalize : ParserState → Text → ParserState × Text
normalize s [] = (s, [])
normalize s (c ∷ cs) =
    let (s', out) = consume s c in let (s'', rest) = normalize s' cs in (s'', out ++ rest)
