-- ===== src/Delivery/Gif/Ends.antt =====
-- mcp/result.py: the loops of `_gif_frame_count` end on all data.
use loommux.Delivery.Gif.{
  Scan, ran_out, invalid, found, table_size, skip_blocks, block_data, images_of, scan_blocks,
  gif_frame_count, image_data,
}
use loommux.Prelude.{
  ◌⊎◌, refl, Option-cases, ◌≤◌, ◌+◌, ◌∷◌, arith, ◌<◌, ◌≢◌, ◌≡◌, ℕ, List, [], suc, zero, inr, inl,
  some,
}
use loommux.Prelude.Lists.{length, get_elem?}

skip_blocks-further : (fuel : ℕ) (l : List ℕ) (p q : ℕ) → skip_blocks fuel l p ≡ found q → p < q
unfolding skip_blocks
skip_blocks-further zero l p q h = cc
skip_blocks-further (suc fuel) l p q h = elim (Option-cases (get_elem? l p)) [
  | inl e ↦ ground arith
  | inr (size, e) ↦ ground (arith, skip_blocks-further fuel l (p + 1 + size) q)
]

skip_blocks-ends :
    (fuel : ℕ) (l : List ℕ) (p : ℕ)
    → length l < fuel + p
    → 1 ≤ fuel
    → skip_blocks fuel l p ≢ ran_out
unfolding skip_blocks
skip_blocks-ends zero l p f g h = omega arith
skip_blocks-ends (suc fuel) l p f g h = elim (Option-cases (get_elem? l p)) [
  | inl e ↦ ground arith
  | inr (size, e) ↦ ground (arith, skip_blocks-ends fuel l (p + 1 + size))
]

block_data-further : (marker : ℕ) (l : List ℕ) (p q : ℕ) → block_data marker l p ≡ some q → p < q
unfolding block_data image_data
block_data-further marker l p q h = ground arith

get_elem-lt : (l : List ℕ) (p a : ℕ) → get_elem? l p ≡ some a → p < length l
get_elem-lt [] p a h = cc
get_elem-lt (x ∷ l) zero a h = omega arith
get_elem-lt (x ∷ l) (suc p) a h = omega (arith, get_elem-lt l p a h)

Scan-cases : (s : Scan) → (s ≡ ran_out) ⊎ ((s ≡ invalid) ⊎ ((q : ℕ) × (s ≡ found q)))
Scan-cases ran_out = inl refl
Scan-cases invalid = inr (inl refl)
Scan-cases (found q) = inr (inr (q, refl))

scan_blocks-ends :
    (fuel : ℕ) (l : List ℕ) (p n : ℕ)
    → length l < fuel + p
    → 1 ≤ fuel
    → scan_blocks fuel l p n ≢ ran_out
unfolding scan_blocks
scan_blocks-ends zero l p n f g h = omega arith
scan_blocks-ends (suc fuel) l p n f g h = elim (Option-cases (get_elem? l p)) [
  | inl e ↦ ground arith
  | inr (marker, e) ↦ elim (Option-cases (block_data marker l (p + 1))) [
    | inl b ↦ ground arith
    | inr (start, b) ↦
        let here = get_elem-lt l p marker e in
        let later = block_data-further marker l (p + 1) start b in
        elim (Scan-cases (skip_blocks fuel l start)) [
          | inl s ↦ skip_blocks-ends fuel l start (omega arith) (omega arith) s
          | inr (inl s) ↦ ground arith
          | inr (inr (q, s)) ↦
              let further = skip_blocks-further fuel l start q s in
              ground (arith, scan_blocks-ends fuel l q (n + images_of marker))
        ]
  ]
]

-- The loops end on all data.
pub gif_frame_count-ends : (l : List ℕ) → gif_frame_count l ≢ ran_out
unfolding gif_frame_count
gif_frame_count-ends l h = elim (Option-cases (get_elem? l 10)) [
  | inl e ↦ ground arith
  | inr (packed, e) ↦ ground (arith, scan_blocks-ends (suc (length l)) l (13 + table_size packed) 0)
]
