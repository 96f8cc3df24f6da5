-- ===== src/Rawimg/Format.antt =====
-- `raw_format_t`, the table `raw_formats` and `rawimg_find_format`.
pub mod Layout
pub mod Table
use chdkptp_astro.Base.{
  ℕ, ◌*◌, ◌/◌, List, [], ◌∷◌, Option, none, some, ◌&&◌, ◌||◌, ◌==◌, if◌then◌else◌,
}
use chdkptp_astro.Rawimg.Packed10.{
  raw_get_pixel_10l, raw_set_pixel_10l, raw_get_pixel_10b, raw_set_pixel_10b,
}
use chdkptp_astro.Rawimg.Packed12.{
  raw_get_pixel_12l, raw_set_pixel_12l, raw_get_pixel_12b, raw_set_pixel_12b,
}
use chdkptp_astro.Rawimg.Packed14.{
  raw_get_pixel_14l, raw_set_pixel_14l, raw_get_pixel_14b, raw_set_pixel_14b,
}
use chdkptp_astro.Rawimg.Whole.{
  raw_get_pixel_8l, raw_set_pixel_8l, raw_get_pixel_16l, raw_set_pixel_16l, raw_get_pixel_16b,
  raw_set_pixel_16b,
}

abbrev pub endian_l : ℕ
endian_l = 0

abbrev pub endian_b : ℕ
endian_b = 1

pub record RawFormat : Type 0 where
  pub bpp : ℕ
  pub endian : ℕ
  pub block_bytes : ℕ
  pub block_pixels : ℕ
  pub get_pixel : List ℕ → ℕ → ℕ → ℕ → Option ℕ
  pub set_pixel : List ℕ → ℕ → ℕ → ℕ → ℕ → Option (List ℕ)

abbrev pub fmt_def_single :
    ℕ
    → ℕ
    → ℕ
    → (List ℕ → ℕ → ℕ → ℕ → Option ℕ)
    → (List ℕ → ℕ → ℕ → ℕ → ℕ → Option (List ℕ))
    → RawFormat
fmt_def_single bpp endian bytes get put = record {
  bpp = bpp;
  endian = endian;
  block_bytes = bytes;
  block_pixels = bytes * 8 / bpp;
  get_pixel = get;
  set_pixel = put;
}

abbrev pub raw_formats : List RawFormat
raw_formats =
    fmt_def_single 8 endian_l 1 raw_get_pixel_8l raw_set_pixel_8l
    ∷ fmt_def_single 10 endian_l 10 raw_get_pixel_10l raw_set_pixel_10l
    ∷ fmt_def_single 10 endian_b 5 raw_get_pixel_10b raw_set_pixel_10b
    ∷ fmt_def_single 12 endian_l 6 raw_get_pixel_12l raw_set_pixel_12l
    ∷ fmt_def_single 12 endian_b 3 raw_get_pixel_12b raw_set_pixel_12b
    ∷ fmt_def_single 14 endian_l 14 raw_get_pixel_14l raw_set_pixel_14l
    ∷ fmt_def_single 14 endian_b 7 raw_get_pixel_14b raw_set_pixel_14b
    ∷ fmt_def_single 16 endian_l 2 raw_get_pixel_16l raw_set_pixel_16l
    ∷ fmt_def_single 16 endian_b 2 raw_get_pixel_16b raw_set_pixel_16b
    ∷ []

-- The loop over the table; `none` is the null pointer.
unfoldable pub find_in : ℕ → ℕ → List RawFormat → Option RawFormat
find_in bpp endian [] = none
find_in bpp endian (fmt ∷ rest) =
    if (fmt.bpp == bpp) && ((bpp == 8) || (fmt.endian == endian))
    then some fmt
    else find_in bpp endian rest

unfoldable pub find_format : ℕ → ℕ → Option RawFormat
find_format bpp endian = find_in bpp endian raw_formats
