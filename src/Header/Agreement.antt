-- ===== src/Header/Agreement.antt =====
-- kernel_extension.py: the header that a kernel reads as its own.
use loommux.Header.{
  Options, header_arguments, parse_header_arguments, remove_own_header, dissolved,
  opens_with_header, is_elsewhere, target_of,
}
use loommux.Prelude.{
  ◌||◌, Option-cases, ap, ◌⊎◌, codes, arith, Bool-cases, ◌∷◌, ◌≡◌, Text, List, [], inr, inl, false,
  refl,
}
use loommux.Prelude.Strings.{starts_with, after_prefix}
use loommux.Prelude.Lists.{drop}

-- What is left of a cell has no header on its first line.
dissolved-no_header :
    (body : List Text) → opens_with_header body ≡ false → opens_with_header (dissolved body) ≡ false
unfolding dissolved header_arguments after_prefix
dissolved-no_header [] h = refl
dissolved-no_header (l ∷ body) h = elim (Bool-cases (starts_with (codes "%%") l)) [
  | inl s ↦ rw (dissolved, s) h
  | inr s ↦ rw (dissolved, s) refl
]

remove-no_header :
    (parse_args : Options) (own_names lines : List Text)
    → opens_with_header lines ≡ false
    → remove_own_header parse_args own_names lines ≡ lines
unfolding remove_own_header
remove-no_header parse_args own_names [] h = refl
remove-no_header parse_args own_names (l ∷ lines) h = ground arith

-- What is read of a cell: all of it, or what its body dissolves to.
removed-cases :
    (parse_args : Options) (own_names : List Text) (line : Text) (body : List Text)
    → (remove_own_header parse_args own_names (line ∷ body) ≡ line ∷ body)
      ⊎ ((opens_with_header body ≡ false)
          × (remove_own_header parse_args own_names (line ∷ body) ≡ dissolved body))
unfolding remove_own_header
removed-cases parse_args own_names line body = elim (Option-cases (header_arguments line)) [
  | inl h ↦ inl (ground arith)
  | inr (arguments, h) ↦ elim (Option-cases (parse_header_arguments parse_args arguments)) [
    | inl p ↦ inl (ground arith)
    | inr (x, p) ↦
        elim (Bool-cases (is_elsewhere own_names (target_of x) || opens_with_header body)) [
          | inl e ↦ inl (ground arith)
          | inr e ↦ inr (ground arith, ground arith)
        ]
  ]
]

dissolved-lines : (body : List Text) → (drop 1 (dissolved body) ≡ body) ⊎ (dissolved body ≡ body)
unfolding dissolved
dissolved-lines [] = inl refl
dissolved-lines (l ∷ body) = elim (Bool-cases (starts_with (codes "%%") l)) [
  | inl s ↦ inr (ground arith)
  | inr s ↦ inl (ground arith)
]

-- Reading a cell again changes nothing, since IPython may transform one cell more than once. What is
-- read is the cell, or its body behind a line that keeps the numbers of the others, or its body alone.
pub remove_own_header-again :
    (parse_args : Options) (own_names : List Text) (line : Text) (body : List Text)
    → let once = remove_own_header parse_args own_names (line ∷ body) in
      (remove_own_header parse_args own_names once ≡ once)
      × ((once ≡ line ∷ body) ⊎ ((drop 1 once ≡ body) ⊎ (once ≡ body)))
remove_own_header-again parse_args own_names line body =
    elim (removed-cases parse_args own_names line body) [
      | inl same ↦ (ap (remove_own_header parse_args own_names) same, inl same)
      | inr (bare, same) ↦ rw same (
        remove-no_header parse_args own_names _ (dissolved-no_header body bare),
        inr (dissolved-lines body),
      )
    ]
