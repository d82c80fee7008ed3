-- ===== src/Delivery/Gif/Frames.antt =====
-- mcp/result.py: the count of frames is the number of images.
use loommux.Delivery.Gif.{
  invalid, found, table_size, skip_blocks, block_data, images_of, scan_blocks, is_signature,
  gif_frame_count, image_data, step_over,
}
use loommux.Prelude.{
  true, false, append_assoc, ◌==◌, if◌then◌else◌, arith, ap, ◌<◌, ◌∙◌, ◌++◌, ◌+◌, ◌≤◌, ◌≡◌, ◌∷◌,
  List, ℕ, [], suc, zero, refl, some,
}
use loommux.Prelude.Lists.{take-append, take, length, get_elem?, drop, All}
use loommux.Delivery.Gif.Writer.{
  sub_blocks_pos, extension, IsGif, IsBlock, NonEmpty, Block, Gif, counted, images, block_bytes,
  gif_bytes, blocks_bytes, sub_blocks, image,
}
use loommux.Delivery.Gif.Drops.{next_eq, drop-head, drop-skip, drop-lt}

skip-sub_blocks :
    (bs : List (List ℕ)) (fuel : ℕ) (l : List ℕ) (p : ℕ) (rest : List ℕ)
    → All NonEmpty bs
    → drop p l ≡ sub_blocks bs ++ rest
    → length l < fuel + p
    → (q : ℕ) × (skip_blocks fuel l p ≡ found q) × (drop q l ≡ rest) × (p < q)
unfolding skip_blocks sub_blocks
skip-sub_blocks bs zero l p rest v h f =
    absurd (omega (arith, drop-lt p l _ h (sub_blocks_pos bs rest)))
skip-sub_blocks [] (suc fuel) l p rest v h f =
    let (at, after) = drop-head p l 0 rest h in
    (p + 1, rw (skip_blocks, at) refl, ap (λ k. drop k l) (next_eq p) ∙ after, omega arith)
skip-sub_blocks (b ∷ bs) (suc fuel) l p rest v h f =
    let (at, after) = drop-head p l (length b) ((b ++ sub_blocks bs) ++ rest) h in
    let next =
      drop-skip (suc p) (p + 1 + length b) l b (sub_blocks bs ++ rest)
        (after ∙ append_assoc b (sub_blocks bs) rest) (omega arith) in
    let (q, ok, ends, further) =
      skip-sub_blocks bs fuel l (p + 1 + length b) rest v.1 next (omega arith) in
    (
      q,
      rw (skip_blocks, at) (ground (arith, drop-lt _ l _ next (sub_blocks_pos bs rest))),
      ends,
      omega arith,
    )

-- One round of the loop passes over a block.
scan-round :
    (fuel : ℕ) (l : List ℕ) (p n marker start q : ℕ)
    → get_elem? l p ≡ some marker
    → (marker == 0x3b) ≡ false
    → block_data marker l (p + 1) ≡ some start
    → skip_blocks fuel l start ≡ found q
    → scan_blocks (suc fuel) l p n ≡ scan_blocks fuel l q (n + images_of marker)
unfolding scan_blocks
scan-round fuel l p n marker start q at open_ begins skips =
    rw (scan_blocks, at, open_, begins, skips) refl

step_over-some : (l : List ℕ) (p : ℕ) → p < length l → step_over l p ≡ some (p + 1)
step_over-some l p h = ground arith

image_data-some :
    (l : List ℕ) (p packed : ℕ)
    → get_elem? l (p + 8) ≡ some packed
    → p + 9 + table_size packed < length l
    → block_data 0x2c l p ≡ some (p + 9 + table_size packed + 1)
unfolding block_data image_data
image_data-some l p packed at h = rw (image_data, at) (step_over-some l _ h)

scan_image :
    (fuel : ℕ) (l : List ℕ) (p n : ℕ) (bounds : List ℕ) (packed : ℕ) (colors : List ℕ) (c : ℕ)
    (bs : List (List ℕ)) (rest : List ℕ)
    → IsBlock (image bounds packed colors c bs)
    → drop p l ≡ block_bytes (image bounds packed colors c bs) rest
    → length l < suc fuel + p
    → (q : ℕ) × (scan_blocks (suc fuel) l p n ≡ scan_blocks fuel l q (n + 1))
      × (drop q l ≡ rest)
      × (p < q)
unfolding block_bytes
scan_image fuel l p n bounds packed colors c bs rest v h f =
    let (marker, from) = drop-head p l 0x2c _ h in
    let at_packed = drop-skip (suc p) (p + 1 + 8) l bounds _ from (omega (arith, v.0)) in
    let (is_packed, from_colors) = drop-head (p + 1 + 8) l packed _ at_packed in
    let place : ℕ = p + 1 + 9 + table_size packed in
    let at_code = drop-skip (suc (p + 1 + 8)) place l colors _ from_colors (omega (arith, v.1)) in
    let at_blocks = ap (λ k. drop k l) (next_eq place) ∙ (drop-head place l c _ at_code).1 in
    let (q, ok, ends, further) =
      skip-sub_blocks bs fuel l (place + 1) rest v.2 at_blocks (omega arith) in
    let begins =
      image_data-some l (p + 1) packed is_packed (drop-lt place l _ at_code (omega arith)) in
    (q, scan-round fuel l p n 0x2c (place + 1) q marker refl begins ok, ends, omega arith)

scan_extension :
    (fuel : ℕ) (l : List ℕ) (p n label : ℕ) (bs : List (List ℕ)) (rest : List ℕ)
    → All NonEmpty bs
    → drop p l ≡ block_bytes (extension label bs) rest
    → length l < suc fuel + p
    → (q : ℕ) × (scan_blocks (suc fuel) l p n ≡ scan_blocks fuel l q n)
      × (drop q l ≡ rest)
      × (p < q)
unfolding block_bytes block_data
scan_extension fuel l p n label bs rest v h f =
    let (marker, from) = drop-head p l 0x21 _ h in
    let at_label = ap (λ k. drop k l) (next_eq p) ∙ from in
    let at_blocks =
      ap (λ k. drop k l) (next_eq (p + 1)) ∙ (drop-head (p + 1) l label _ at_label).1 in
    let (q, ok, ends, further) =
      skip-sub_blocks bs fuel l (p + 1 + 1) rest v at_blocks (omega arith) in
    let begins = step_over-some l (p + 1) (drop-lt (p + 1) l _ at_label (omega arith)) in
    (
      q,
      scan-round fuel l p n 0x21 (p + 1 + 1) q marker refl begins ok
          ∙ ap (scan_blocks fuel l q) (omega arith),
      ends,
      omega arith,
    )

blocks_bytes_pos : (bs : List Block) (rest : List ℕ) → 1 ≤ length (blocks_bytes bs rest)
unfolding blocks_bytes block_bytes
blocks_bytes_pos [] rest = omega arith
blocks_bytes_pos (image bounds packed colors c b ∷ bs) rest = omega arith
blocks_bytes_pos (extension label b ∷ bs) rest = omega arith

scan-blocks_bytes :
    (bs : List Block) (fuel : ℕ) (l : List ℕ) (p n : ℕ) (rest : List ℕ)
    → All IsBlock bs
    → drop p l ≡ blocks_bytes bs rest
    → length l < fuel + p
    → scan_blocks fuel l p n ≡ counted (n + images bs)
unfolding scan_blocks blocks_bytes images counted
scan-blocks_bytes bs zero l p n rest v h f =
    absurd (omega (arith, drop-lt p l _ h (blocks_bytes_pos bs rest)))
scan-blocks_bytes [] (suc fuel) l p n rest v h f =
    let (marker, from) = drop-head p l 0x3b _ h in rw (scan_blocks, marker) (ground arith)
scan-blocks_bytes (image bounds packed colors c b ∷ bs) (suc fuel) l p n rest v h f =
    let (q, round, ends, further) =
      scan_image fuel l p n bounds packed colors c b (blocks_bytes bs rest) v.0 h f in
    round
    ∙ scan-blocks_bytes bs fuel l q (n + 1) rest v.1 ends (omega arith)
    ∙ ap counted (omega arith)
scan-blocks_bytes (extension label b ∷ bs) (suc fuel) l p n rest v h f =
    let (q, round, ends, further) =
      scan_extension fuel l p n label b (blocks_bytes bs rest) v.0 h f in
    round ∙ scan-blocks_bytes bs fuel l q n rest v.1 ends (omega arith)

accepted :
    (l : List ℕ) (packed : ℕ)
    → is_signature (take 6 l) ≡ true
    → 13 ≤ length l
    → get_elem? l 10 ≡ some packed
    → 13 + table_size packed ≤ length l
    → gif_frame_count l ≡ scan_blocks (suc (length l)) l (13 + table_size packed) 0
unfolding gif_frame_count
accepted l packed s k at h = rw (s, at) (ground arith)

-- The count of frames of a GIF is the number of its images, whatever extensions stand between them,
-- whatever color tables it has, and whatever follows its trailer; one without an image is invalid.
pub frame_count-gif_bytes :
    (g : Gif) (rest : List ℕ)
    → IsGif g
    → gif_frame_count (gif_bytes g rest)
      ≡ (if images g.blocks == 0 then invalid else found (images g.blocks))
unfolding gif_frame_count gif_bytes counted
frame_count-gif_bytes g rest v =
    let l : List ℕ = gif_bytes g rest in
    let place : ℕ = 13 + table_size g.packed in
    let signs : is_signature (take 6 l) ≡ true =
      ap is_signature (take-append g.signature _ 6 v.signature_size) ∙ v.signed in
    let at_screen = drop-skip 0 6 l g.signature _ refl (omega (arith, v.signature_size)) in
    let at_packed = drop-skip 6 10 l g.screen _ at_screen (omega (arith, v.screen_size)) in
    let (is_packed, from) = drop-head 10 l g.packed _ at_packed in
    let at_colors = drop-skip 11 13 l (0 ∷ 0 ∷ []) _ from refl in
    let at_blocks = drop-skip 13 place l g.colors _ at_colors (omega (arith, v.colors_size)) in
    let long = drop-lt place l _ at_blocks (blocks_bytes_pos g.blocks rest) in
    accepted l g.packed signs (omega arith) is_packed (omega arith)
    ∙ scan-blocks_bytes g.blocks (suc (length l)) l place 0 rest v.blocks_valid at_blocks
        (omega arith)
    ∙ ap counted (omega arith)
