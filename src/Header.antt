-- ===== src/Header.antt =====
-- cell_header.py and kernel_extension.py: the header of a cell, and its two readers. What argparse and
-- shlex make of the arguments is an argument, with the rule on its options that it enforces.
pub mod Agreement
use loommux.Prelude.{
  text_eq, ◌&&◌, is_some, ◌||◌, not, Bool, ◌*◌, if◌then◌else◌, ◌∷◌, codes, Option, Text, ℕ, List,
  [], false, true, some, none,
}
use loommux.Prelude.Strings.{starts_with, is_blank, strip, after_prefix}
use loommux.Prelude.Lists.{any}

pub record CellHeader : Type 0 where
  pub wait_seconds : ℕ
  pub full_output : Bool
  pub kernel : Option Text
  pub attach : Option Text
  pub create : Bool
  pub silence_seconds : ℕ

abbrev header_prefix : Text
header_prefix = codes "%%loommux"

abbrev starts_blank : Text → Bool
starts_blank [] = true
starts_blank (c ∷ t) = is_blank c

-- header_arguments
unfoldable pub header_arguments : Text → Option Text
unfolding after_prefix strip
header_arguments line = elim (after_prefix header_prefix line) [
  | none ↦ none
  | some rest ↦ if starts_blank rest then some (strip rest) else none
]

-- What the parser and its check on `--create` make of the arguments; `none` is CellHeaderError.
abbrev pub Options : Type 0
Options = Text → Option CellHeader

-- parse_header_arguments: `--create` applies only to `--attach`.
unfoldable pub parse_header_arguments : Options → Text → Option CellHeader
parse_header_arguments parse_args arguments = elim (parse_args arguments) [
  | none ↦ none
  | some h ↦ if h.create && not (is_some h.attach) then none else some h
]

-- The defaults: ten seconds each.
abbrev default_header : ℕ → CellHeader
default_header second = record {
  wait_seconds = 10 * second;
  full_output = false;
  kernel = none;
  attach = none;
  create = false;
  silence_seconds = 10 * second;
}

-- read_cell_header, from the line that IPython examines, if the cell has one.
unfoldable pub read_cell_header : Options → ℕ → Option Text → Option CellHeader
read_cell_header parse_args second none = some (default_header second)
read_cell_header parse_args second (some line) = elim (header_arguments line) [
  | none ↦ some (default_header second)
  | some arguments ↦ parse_header_arguments parse_args arguments
]

-- `header.attach if header.attach is not None else header.kernel`
abbrev pub target_of : CellHeader → Option Text
target_of h = elim h.attach [ some a ↦ some a | none ↦ h.kernel ]

abbrev pub is_elsewhere : List Text → Option Text → Bool
is_elsewhere own_names none = false
is_elsewhere own_names (some name) = not (any (text_eq name) own_names)

-- The body without the header: a cell magic starts it, else an empty line keeps the numbers.
unfoldable pub dissolved : List Text → List Text
dissolved [] = codes "\n" ∷ []
dissolved (l ∷ body) = if starts_with (codes "%%") l then l ∷ body else codes "\n" ∷ l ∷ body

abbrev pub opens_with_header : List Text → Bool
opens_with_header [] = false
opens_with_header (l ∷ body) = is_some (header_arguments l)

-- remove_own_header
unfoldable pub remove_own_header : Options → List Text → List Text → List Text
unfolding dissolved
remove_own_header parse_args own_names [] = []
remove_own_header parse_args own_names (line ∷ body) = elim (header_arguments line) [
  | none ↦ line ∷ body
  | some arguments ↦ elim (parse_header_arguments parse_args arguments) [
    | none ↦ line ∷ body
    | some h ↦
        if is_elsewhere own_names (target_of h) || opens_with_header body
        then line ∷ body
        else dissolved body
  ]
]
