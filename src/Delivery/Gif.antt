-- ===== src/Delivery/Gif.antt =====
-- mcp/result.py: `_gif_frame_count`, which counts the images of a GIF. A byte is a number.
pub mod Drops
pub mod Writer
pub mod Frames
pub mod Ends
use Prim.Native.Nat.{bit_and, ◌^◌}
use loommux.Prelude.{
  ◌*◌, ◌||◌, codes, ltb, ◌+◌, not, leb, text_eq, ◌==◌, if◌then◌else◌, Bool, Option, List, Text, ℕ,
  suc, zero, some, none,
}
use loommux.Prelude.Lists.{take, length, get_elem?}

-- How a scan ends: out of fuel, at data that is no GIF, or with a number.
pub data Scan : Type 0 where
  ran_out invalid : Scan
  found : ℕ → Scan

-- The bytes of a color table: `3 * (2 ** ((packed & 0x07) + 1))` where bit 7 says that there is one.
abbrev pub table_size : ℕ → ℕ
table_size packed = if bit_and packed 0x80 == 0 then 0 else 3 * 2 ^ (bit_and packed 0x07 + 1)

-- The sub-blocks of a block, each behind its size, up to one of size zero: the position after them.
unfoldable pub skip_blocks : ℕ → List ℕ → ℕ → Scan
skip_blocks zero data_ position = ran_out
skip_blocks (suc fuel) data_ position = elim (get_elem? data_ position) [
  | none ↦ invalid
  | some size ↦
      let rest = skip_blocks fuel data_ (position + 1 + size) in
      if size == 0
      then found (position + 1)
      else if ltb (length data_) (position + 1 + size)
      then invalid
      else rest
]

-- `if position >= len(data): return None`, then one byte is passed over.
abbrev step_over : List ℕ → ℕ → Option ℕ
step_over data_ position = if leb (length data_) position then none else some (position + 1)

-- An image descriptor: nine bytes, the color table, and the code size.
image_data : List ℕ → ℕ → Option ℕ
image_data data_ position = elim (get_elem? data_ (position + 8)) [
  | none ↦ none
  | some packed ↦ step_over data_ (position + 9 + table_size packed)
]

-- Where the sub-blocks of a block begin, from behind its marker.
unfoldable pub block_data : ℕ → List ℕ → ℕ → Option ℕ
unfolding image_data
block_data marker data_ position =
    if marker == 0x2c
    then image_data data_ position
    else if marker == 0x21
    then step_over data_ position
    else none

abbrev images_of : ℕ → ℕ
images_of marker = if marker == 0x2c then 1 else 0

-- The loop over the blocks, up to the trailer.
unfoldable pub scan_blocks : ℕ → List ℕ → ℕ → ℕ → Scan
unfolding skip_blocks block_data
scan_blocks zero data_ position frames = ran_out
scan_blocks (suc fuel) data_ position frames = elim (get_elem? data_ position) [
  | none ↦ invalid
  | some marker ↦
      let next : Scan = elim (block_data marker data_ (position + 1)) [
        | none ↦ invalid
        | some start ↦ elim (skip_blocks fuel data_ start) [
          | found after ↦ scan_blocks fuel data_ after (frames + images_of marker)
          | other ↦ other
        ]
      ] in
      if marker == 0x3b then if frames == 0 then invalid else found frames else next
]

abbrev is_signature : Text → Bool
is_signature t = text_eq t (codes "GIF87a") || text_eq t (codes "GIF89a")

-- _gif_frame_count: every round of a loop passes over a byte.
unfoldable pub gif_frame_count : List ℕ → Scan
unfolding scan_blocks
gif_frame_count data_ =
    if not (is_signature (take 6 data_)) || ltb (length data_) 13
    then invalid
    else elim (get_elem? data_ 10) [
      | none ↦ invalid
      | some packed ↦
          if ltb (length data_) (13 + table_size packed)
          then invalid
          else scan_blocks (suc (length data_)) data_ (13 + table_size packed) 0
    ]
