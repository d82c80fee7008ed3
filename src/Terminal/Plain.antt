-- ===== src/Terminal/Plain.antt =====
-- execution/terminal.py: what text comes through.
use loommux.Terminal.{is_plain_text, text, esc}
use loommux.Prelude.{true, ◌≤◌, ◌⊎◌, arith, ◌≡◌, ◌∷◌, ℕ, Text, [], refl}
use loommux.Terminal.{normalize, ParserState, consume}
use loommux.Prelude.Lists.{All-append, All}

-- A newline, a tab, or a code point that is no control character.
abbrev pub Printable : ℕ → Type 0
Printable c = ((c ≡ 0x0a) ⊎ (c ≡ 0x09)) ⊎ (((0x20 ≤ c) × (c ≤ 0x7e)) ⊎ (0xa0 ≤ c))

abbrev pub IsPrintable : Text → Type 0
IsPrintable t = All Printable t

plain-Printable : (c : ℕ) → is_plain_text c ≡ true → Printable c
unfolding is_plain_text
plain-Printable c h = ground arith

consume-IsPrintable : (s : ParserState) (c : ℕ) → IsPrintable (consume s c).1
unfolding consume
consume-IsPrintable text c = ground (arith, plain-Printable c)
consume-IsPrintable esc c = tt
consume-IsPrintable _ c = tt

-- Whatever the input and the open control, no control character comes through but newlines and tabs.
pub normalize-IsPrintable : (s : ParserState) (t : Text) → IsPrintable (normalize s t).1
unfolding normalize
normalize-IsPrintable s [] = tt
normalize-IsPrintable s (c ∷ t) =
    All-append _ _ _ (consume-IsPrintable s c) (normalize-IsPrintable (consume s c).0 t)

consume-Printable : (c : ℕ) → Printable c → consume text c ≡ (text, c ∷ [])
unfolding consume
consume-Printable c h = ground arith

-- Printable text comes through unchanged, and opens no control.
pub normalize-Printable : (t : Text) → IsPrintable t → normalize text t ≡ (text, t)
unfolding normalize
normalize-Printable [] h = refl
normalize-Printable (c ∷ t) h = rw (consume-Printable c h.0) (rw (normalize-Printable t h.1))

-- Whatever the input and the open control, nothing comes through but newlines, tabs and code points
-- that are no control characters, and normalizing what came through changes it no more.
pub normalize-normalize :
    (s : ParserState) (t : Text)
    → IsPrintable (normalize s t).1 × (normalize text (normalize s t).1 ≡ (text, (normalize s t).1))
normalize-normalize s t =
    (normalize-IsPrintable s t, normalize-Printable _ (normalize-IsPrintable s t))
