-- ===== src/Delivery/Gif/Writer.antt =====
-- mcp/result.py: GIF data as a writer lays it out, for the count of frames.
use loommux.Delivery.Gif.{Scan, invalid, found, table_size, is_signature}
use loommux.Prelude.{true, ◌==◌, if◌then◌else◌, arith, ◌++◌, ◌≤◌, ◌≡◌, ◌∷◌, List, ℕ, [], suc}
use loommux.Prelude.Lists.{length, All}

-- The sub-blocks of a block, as a writer of the format lays them out.
unfoldable pub sub_blocks : List (List ℕ) → List ℕ
sub_blocks [] = 0 ∷ []
sub_blocks (b ∷ bs) = length b ∷ (b ++ sub_blocks bs)

abbrev pub NonEmpty : List ℕ → Type 0
NonEmpty b = 1 ≤ length b

pub sub_blocks_pos : (bs : List (List ℕ)) (rest : List ℕ) → 1 ≤ length (sub_blocks bs ++ rest)
unfolding sub_blocks
sub_blocks_pos [] rest = omega arith
sub_blocks_pos (b ∷ bs) rest = omega arith

pub data Block : Type 0 where
  image : (bounds : List ℕ) (packed : ℕ) (colors : List ℕ) (code_size : ℕ) → List (List ℕ) → Block
  extension : (label : ℕ) → List (List ℕ) → Block

abbrev pub IsBlock : Block → Type 0
IsBlock (image bounds packed colors code_size bs) =
    (length bounds ≡ 8) × (length colors ≡ table_size packed) × All NonEmpty bs
IsBlock (extension label bs) = All NonEmpty bs

-- A block as a writer lays it out before `rest`.
unfoldable pub block_bytes : Block → List ℕ → List ℕ
block_bytes (image bounds packed colors code_size bs) rest =
    0x2c ∷ (bounds ++ packed ∷ (colors ++ code_size ∷ (sub_blocks bs ++ rest)))
block_bytes (extension label bs) rest = 0x21 ∷ label ∷ (sub_blocks bs ++ rest)

unfoldable pub blocks_bytes : List Block → List ℕ → List ℕ
blocks_bytes [] rest = 0x3b ∷ rest
blocks_bytes (b ∷ bs) rest = block_bytes b (blocks_bytes bs rest)

unfoldable pub images : List Block → ℕ
images [] = 0
images (image bounds packed colors code_size bs ∷ rest) = suc (images rest)
images (extension label bs ∷ rest) = images rest

unfoldable pub counted : ℕ → Scan
counted n = if n == 0 then invalid else found n

-- A GIF as a writer lays it out: signature, screen, blocks and trailer, before what follows.
pub record Gif : Type 0 where
  pub signature : List ℕ
  pub screen : List ℕ
  pub packed : ℕ
  pub colors : List ℕ
  pub blocks : List Block

unfoldable pub gif_bytes : Gif → List ℕ → List ℕ
gif_bytes g rest =
    g.signature ++ (g.screen ++ g.packed ∷ 0 ∷ 0 ∷ (g.colors ++ blocks_bytes g.blocks rest))

pub record IsGif (g : Gif) : Type 0 where
  pub signed : is_signature g.signature ≡ true
  pub signature_size : length g.signature ≡ 6
  pub screen_size : length g.screen ≡ 4
  pub colors_size : length g.colors ≡ table_size g.packed
  pub blocks_valid : All IsBlock g.blocks
