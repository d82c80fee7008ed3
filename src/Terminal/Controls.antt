-- ===== src/Terminal/Controls.antt =====
-- execution/terminal.py: complete controls, as a terminal's documentation lays them out.
use loommux.Terminal.{text, esc, csi, osc, string, esc_intermediate}
use loommux.Prelude.{◌∙◌, arith, ◌∷◌, ◌≡◌, ◌⊎◌, ◌++◌, ◌<◌, ◌≤◌, ◌≢◌, ℕ, Text, [], refl}
use loommux.Terminal.{csi, esc, ParserState, osc, string, esc_intermediate, normalize, consume}
use loommux.Prelude.Lists.{All}

-- A character of a control sequence before its final byte.
abbrev pub CsiBody : ℕ → Type 0
CsiBody c = ((c < 0x40) ⊎ (0x7e < c)) × (c ≢ 0x1b) × (c ≢ 0x9c)

-- A final byte of a control sequence.
abbrev pub IsFinal : ℕ → Type 0
IsFinal c = (0x40 ≤ c) × (c ≤ 0x7e)

-- A character of an operating system command: not BEL, ESC or the one-byte terminator.
abbrev pub OscBody : ℕ → Type 0
OscBody c = (c ≢ 0x07) × (c ≢ 0x1b) × (c ≢ 0x9c)

-- A character of a control string.
abbrev pub StringBody : ℕ → Type 0
StringBody c = (c ≢ 0x1b) × (c ≢ 0x9c)

-- A byte between ESC and the final byte of an escape sequence.
abbrev pub IsIntermediate : ℕ → Type 0
IsIntermediate c = (0x20 ≤ c) × (c ≤ 0x2f)

consume_csi : (c : ℕ) → CsiBody c → consume csi c ≡ (csi, [])
unfolding consume
consume_csi c h = ground arith

consume_osc : (c : ℕ) → OscBody c → consume osc c ≡ (osc, [])
unfolding consume
consume_osc c h = ground arith

consume_string : (c : ℕ) → StringBody c → consume string c ≡ (string, [])
unfolding consume
consume_string c h = ground arith

consume_intermediate :
    (c : ℕ) → IsIntermediate c → consume esc_intermediate c ≡ (esc_intermediate, [])
unfolding consume
consume_intermediate c h = ground arith

-- The characters of a control's body leave its state as it is, and no trace.
body_passes :
    (P : ℕ → Type 0) (s : ParserState)
    → ((c : ℕ) → P c → consume s c ≡ (s, []))
    → (body rest : Text) → All P body
    → normalize s (body ++ rest) ≡ normalize s rest
unfolding normalize
body_passes P s keeps [] rest h = refl
body_passes P s keeps (c ∷ body) rest h = rw (keeps c h.0) (body_passes P s keeps body rest h.1)

consume-csi_final : (c : ℕ) → IsFinal c → consume csi c ≡ (text, [])
unfolding consume
consume-csi_final c h = ground arith

pub csi_passes :
    (body : Text) (final : ℕ)
    → All CsiBody body
    → IsFinal final
    → normalize csi (body ++ final ∷ []) ≡ (text, [])
unfolding normalize
csi_passes body final h f =
    body_passes CsiBody csi consume_csi body (final ∷ []) h ∙ rw (consume-csi_final final f) refl

pub osc_passes :
    (body ending : Text)
    → All OscBody body
    → normalize osc ending ≡ (text, [])
    → normalize osc (body ++ ending) ≡ (text, [])
osc_passes body ending h e = body_passes OscBody osc consume_osc body ending h ∙ e

pub string_passes :
    (body ending : Text)
    → All StringBody body
    → normalize string ending ≡ (text, [])
    → normalize string (body ++ ending) ≡ (text, [])
string_passes body ending h e = body_passes StringBody string consume_string body ending h ∙ e

consume-intermediate_final : (c : ℕ) → 0x30 ≤ c → consume esc_intermediate c ≡ (text, [])
unfolding consume
consume-intermediate_final c h = ground arith

pub intermediates_pass :
    (body : Text) (final : ℕ)
    → All IsIntermediate body
    → 0x30 ≤ final
    → normalize esc_intermediate (body ++ final ∷ []) ≡ (text, [])
unfolding normalize
intermediates_pass body final h f =
    body_passes IsIntermediate esc_intermediate consume_intermediate body (final ∷ []) h
    ∙ rw (consume-intermediate_final final f) refl

-- An escape sequence with nothing between ESC and its final byte.
pub consume-esc_final :
    (c : ℕ)
    → 0x30 ≤ c
    → c ≢ b'['
    → c ≢ b']'
    → c ≢ b'P'
    → c ≢ b'^'
    → c ≢ b'_'
    → consume esc c ≡ (text, [])
unfolding consume
consume-esc_final c h a b d e f = ground arith

pub consume-esc_intermediate : (c : ℕ) → IsIntermediate c → consume esc c ≡ (esc_intermediate, [])
unfolding consume
consume-esc_intermediate c h = ground arith
