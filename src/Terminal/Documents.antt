-- ===== src/Terminal/Documents.antt =====
-- execution/terminal.py: terminal output as programs write it, and what is left of it.
use loommux.Terminal.{normalize, ParserState}
use loommux.Prelude.{◌⊎◌, ◌≢◌, ◌∷◌, ◌<◌, ◌++◌, ◌≤◌, Text, Bool, List, ℕ, [], false, true}
use loommux.Terminal.Plain.{IsPrintable}
use loommux.Prelude.Lists.{All}
use loommux.Terminal.Controls.{StringBody, OscBody, IsFinal, CsiBody, IsIntermediate}

pub data Form : Type 0 where
  two_bytes one_byte : Form

pub data StringKind : Type 0 where
  device privacy application : StringKind

pub data Ending : Type 0 where
  bell st one_byte_st : Ending

-- A piece of output: printable text, a control character that stands alone, or a whole control.
pub data Piece : Type 0 where
  printed : Text → Piece
  control : ℕ → Piece
  escape : (intermediates : Text) (final : ℕ) → Piece
  sequence : Form → (body : Text) (final : ℕ) → Piece
  command : Form → (body : Text) → Ending → Piece
  control_string : Form → StringKind → (body : Text) (one_byte_end : Bool) → Piece

-- A control character that opens nothing.
abbrev pub StandsAlone : ℕ → Type 0
StandsAlone c =
    ((c < 0x20) × (c ≢ 0x0a) × (c ≢ 0x09) × (c ≢ 0x1b))
    ⊎ ((0x7f ≤ c)
        × (c ≤ 0x9f)
        × (c ≢ 0x90)
        × (c ≢ 0x98)
        × (c ≢ 0x9b)
        × (c ≢ 0x9d)
        × (c ≢ 0x9e)
        × (c ≢ 0x9f))

-- ESC and one byte that is the introducer of no longer control.
abbrev pub EndsEscape : ℕ → Type 0
EndsEscape c = (0x30 ≤ c) × (c ≢ b'[') × (c ≢ b']') × (c ≢ b'P') × (c ≢ b'^') × (c ≢ b'_')

unfoldable pub IsPiece : Piece → Type 0
IsPiece (printed t) = IsPrintable t
IsPiece (control c) = StandsAlone c
IsPiece (escape [] final) = EndsEscape final
IsPiece (escape (i ∷ is) final) = All IsIntermediate (i ∷ is) × (0x30 ≤ final)
IsPiece (sequence form body final) = All CsiBody body × IsFinal final
IsPiece (command form body ending) = All OscBody body
IsPiece (control_string form kind body one_byte_end) = All StringBody body

-- The characters of a piece.
abbrev csi_opening : Form → Text
csi_opening two_bytes = 0x1b ∷ b'[' ∷ []
csi_opening one_byte = 0x9b ∷ []

abbrev osc_opening : Form → Text
osc_opening two_bytes = 0x1b ∷ b']' ∷ []
osc_opening one_byte = 0x9d ∷ []

abbrev string_opening : Form → StringKind → Text
string_opening two_bytes device = 0x1b ∷ b'P' ∷ []
string_opening two_bytes privacy = 0x1b ∷ b'^' ∷ []
string_opening two_bytes application = 0x1b ∷ b'_' ∷ []
string_opening one_byte device = 0x90 ∷ []
string_opening one_byte privacy = 0x9e ∷ []
string_opening one_byte application = 0x9f ∷ []

abbrev ending_text : Ending → Text
ending_text bell = 0x07 ∷ []
ending_text st = 0x1b ∷ 0x5c ∷ []
ending_text one_byte_st = 0x9c ∷ []

abbrev string_ending : Bool → Text
string_ending true = 0x9c ∷ []
string_ending false = 0x1b ∷ 0x5c ∷ []

unfoldable pub written : Piece → Text
written (printed t) = t
written (control c) = c ∷ []
written (escape intermediates final) = 0x1b ∷ (intermediates ++ final ∷ [])
written (sequence form body final) = csi_opening form ++ (body ++ final ∷ [])
written (command form body ending) = osc_opening form ++ (body ++ ending_text ending)
written (control_string form kind body one_byte_end) =
    string_opening form kind ++ (body ++ string_ending one_byte_end)

-- What a reader is to see of it.
unfoldable pub shown : Piece → Text
shown (printed t) = t
shown _ = []

unfoldable pub all_written : List Piece → Text
all_written [] = []
all_written (p ∷ ps) = written p ++ all_written ps

unfoldable pub all_shown : List Piece → Text
all_shown [] = []
all_shown (p ∷ ps) = shown p ++ all_shown ps

unfoldable pub joined_chunks : List Text → Text
joined_chunks [] = []
joined_chunks (c ∷ cs) = c ++ joined_chunks cs

-- One normalizer is given the chunks as they arrive.
unfoldable pub normalize_chunks : ParserState → List Text → ParserState × Text
normalize_chunks s [] = (s, [])
normalize_chunks s (c ∷ cs) =
    let (s', out) = normalize s c in let (s'', rest) = normalize_chunks s' cs in (s'', out ++ rest)
