-- ===== src/Rawimg/Format/Layout.antt =====
-- What a format's routines do to an array: they read and write the block of the pixel as packed
-- digits, through the address of the block.
use chdkptp_astro.Base.{
  ℕ, ◌+◌, ◌*◌, ◌/◌, ◌^◌, ◌<◌, ◌≤◌, List, Option, drop, length, ◌≡◌, arith, if◌then◌else◌, ◌==◌,
}
use chdkptp_astro.Rawimg.Bytes.{block_offset, update_at}
use chdkptp_astro.Rawimg.Block.{Reads, Writes, swap_pairs, in_order}
use chdkptp_astro.Rawimg.Format.{RawFormat}

abbrev pub block_start : RawFormat → ℕ → ℕ → ℕ → ℕ
block_start fmt row_bytes x y = y * row_bytes + x / fmt.block_pixels * fmt.block_bytes

-- The block of a pixel lies in an array that 32-bit offsets reach.
abbrev pub InArray : RawFormat → ℕ → ℕ → ℕ → ℕ → Type 0
InArray fmt row_bytes x y len =
    (block_start fmt row_bytes x y + fmt.block_bytes ≤ len) × (len < 2 ^ 32)

-- The byte order of a format's words.
unfoldable pub byte_order : RawFormat → List ℕ → List ℕ
byte_order fmt = if fmt.endian == 0 then swap_pairs else in_order

pub record Layout (fmt : RawFormat) : Type 0 where
  pub order : List ℕ → List ℕ
  pub ordered : order ≡ byte_order fmt
  pub get : ℕ → List ℕ → Option ℕ
  pub some_pixel : 0 < fmt.block_pixels
  pub some_byte : 0 < fmt.block_bytes
  pub same_bits : fmt.block_pixels * fmt.bpp ≡ fmt.block_bytes * 8
  pub reads : Reads fmt.bpp fmt.block_pixels fmt.block_bytes order get
  pub located :
      (p : List ℕ) (row_bytes x y : ℕ)
      → InArray fmt row_bytes x y (length p)
      → fmt.get_pixel p row_bytes x y ≡ get x (drop (block_start fmt row_bytes x y) p)

pub record Writer (fmt : RawFormat) (layout : Layout fmt) : Type 0 where
  pub put : ℕ → ℕ → List ℕ → Option (List ℕ)
  pub writes : Writes fmt.bpp fmt.block_pixels fmt.block_bytes layout.order put
  pub stored :
      (p : List ℕ) (row_bytes x y v : ℕ)
      → InArray fmt row_bytes x y (length p)
      → fmt.set_pixel p row_bytes x y v ≡ update_at (block_start fmt row_bytes x y) p (put x v)

-- Below 2^32 the offsets of the routines do not wrap around.
pub block_offset-eq-block_start :
    (row_bytes x y pixels bytes len : ℕ)
    → y * row_bytes + x / pixels * bytes + bytes ≤ len
    → len < 2 ^ 32
    → block_offset row_bytes x y pixels bytes ≡ y * row_bytes + x / pixels * bytes
block_offset-eq-block_start row_bytes x y pixels bytes len h l = omega arith
