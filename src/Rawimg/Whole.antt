-- ===== src/Rawimg/Whole.antt =====
-- The routines of rawimg.c for pixels of whole bytes: 8 bits, and 16 bits of either byte order. An
-- index is a sum of 32-bit unsigned numbers. The host of the 16-bit accesses is little-endian.
pub mod Blocks
use chdkptp_astro.Base.{ℕ, ◌+◌, ◌*◌, ◌/◌, ◌%◌, ◌^◌, bit_or, List, Option, get_elem?, drop}
use chdkptp_astro.Base.Partial.{◌>>=◌}
use chdkptp_astro.Rawimg.Bytes.{of_two, store8, update_at}

unfoldable pub raw_get_pixel_8l : List ℕ → ℕ → ℕ → ℕ → Option ℕ
raw_get_pixel_8l p row_bytes x y = get_elem? p ((y * row_bytes + x) % 2 ^ 32)

unfoldable pub raw_set_pixel_8l : List ℕ → ℕ → ℕ → ℕ → ℕ → Option (List ℕ)
raw_set_pixel_8l p row_bytes x y value = store8 p ((y * row_bytes + x) % 2 ^ 32) value

-- `p + y*row_bytes + x*2`, an address that is not reduced.
abbrev pub word_offset : ℕ → ℕ → ℕ → ℕ
word_offset row_bytes x y = y * row_bytes % 2 ^ 32 + x * 2 % 2 ^ 32

unfoldable pub raw_get_pixel_16l : List ℕ → ℕ → ℕ → ℕ → Option ℕ
raw_get_pixel_16l p row_bytes x y =
    of_two (drop (word_offset row_bytes x y) p) 0 1 (λ l h. l + 256 * h)

unfoldable pub raw_set_pixel_16l : List ℕ → ℕ → ℕ → ℕ → ℕ → Option (List ℕ)
raw_set_pixel_16l p row_bytes x y value =
    update_at (word_offset row_bytes x y) p
      (λ addr. store8 addr 0 value >>= λ addr. store8 addr 1 (value / 256))

unfoldable pub raw_get_pixel_16b : List ℕ → ℕ → ℕ → ℕ → Option ℕ
raw_get_pixel_16b p row_bytes x y =
    of_two p ((y * row_bytes + x * 2) % 2 ^ 32) ((y * row_bytes + x * 2 + 1) % 2 ^ 32)
      (λ h l. bit_or (h * 256) l)

unfoldable pub raw_set_pixel_16b : List ℕ → ℕ → ℕ → ℕ → ℕ → Option (List ℕ)
raw_set_pixel_16b p row_bytes x y value =
    store8 p ((y * row_bytes + x * 2) % 2 ^ 32) (value / 256) >>= λ p.
    store8 p ((y * row_bytes + x * 2 + 1) % 2 ^ 32) value
