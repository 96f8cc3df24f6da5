-- ===== src/Rawimg/Tests.antt =====
-- Concrete images, and the theorems about raw images at them.
use chdkptp_astro.Base.{
  ℕ, ◌^◌, ◌<◌, ◌≤◌, List, [], ◌∷◌, none, some, ltb, Bool, true, ◌&&◌, ◌≡◌, ◌⊎◌, inl, refl, arith,
}
use chdkptp_astro.Rawimg.Bytes.{IsBytes}
use chdkptp_astro.Rawimg.Kept.{cons-IsBytes}
use chdkptp_astro.Rawimg.Format.{find_format, find_in, endian_b}
use chdkptp_astro.Rawimg.Format.Table.{format_12b}
use chdkptp_astro.Rawimg.Format.Table.Search.{Writable}
use chdkptp_astro.Rawimg.Image.{RawImage, pixel_at, lua_get_pixel, lua_set_pixel, patch_pixels}
use chdkptp_astro.Rawimg.Image.Pixels.{
  PacksPixels, find_format-PacksPixels, lua_get_pixel-below, lua_set_pixel-Put,
}
use chdkptp_astro.Rawimg.Image.Patch.{Spared, patch_pixels-Spared}
use chdkptp_astro.Rawimg.Image.WellFormed.{IsImage, Put}
use chdkptp_astro.Rawimg.Image.Bind.{ImageSpec, bind_lbuf}
use chdkptp_astro.Rawimg.Image.WellFormed.Bound.{IsBound, bind_lbuf-IsImage}

all_bytes : List ℕ → Bool
all_bytes [] = true
all_bytes (b ∷ bs) = ltb b 256 && all_bytes bs

all_bytes-IsBytes : (bs : List ℕ) → all_bytes bs ≡ true → IsBytes bs
unfolding all_bytes IsBytes
all_bytes-IsBytes [] h = λ i. omega arith
all_bytes-IsBytes (b ∷ bs) h =
    cons-IsBytes b bs (ground arith) (all_bytes-IsBytes bs (ground arith))

-- Two rows of four pixels of 12 bits, behind one byte of the lbuf.
abbrev memory : List ℕ
memory = 7 ∷ 0x12 ∷ 0x3a ∷ 0xbc ∷ 0 ∷ 0x05 ∷ 0xff ∷ 0xff ∷ 0xf0 ∷ 0x10 ∷ 0x20 ∷ 0x02 ∷ 0x03 ∷ []

memory-IsBytes : IsBytes memory
unfolding all_bytes
memory-IsBytes = all_bytes-IsBytes memory refl

abbrev image : RawImage
image = record {
  fmt = format_12b;
  row_bytes = 6;
  width = 4;
  height = 2;
  cfa_pattern = 0 ∷ 1 ∷ 1 ∷ 2 ∷ [];
  active_top = 0;
  active_left = 0;
  active_bottom = 2;
  active_right = 4;
  black_level = 1;
  data_start = 1;
}

image-IsImage : IsImage image memory
unfolding find_format find_in
image-IsImage = record {
  depth = 12;
  endian = 1;
  found = refl;
  raster = record { whole = refl; row = refl; fits = omega arith; addressable = omega arith };
  bytes = memory-IsBytes;
  start = omega arith;
}

find_format-PacksPixels_example : (format_12b.bpp ≡ 12) × PacksPixels format_12b memory 6 1 1
unfolding find_format find_in
find_format-PacksPixels_example =
    find_format-PacksPixels 12 endian_b format_12b memory 6 1 1 refl memory-IsBytes
      (omega arith, omega arith)

twelve_bits : Writable format_12b
twelve_bits = inl (λ e. omega arith)

lua_get_pixel-below_example :
    ((1 < 4)
      × (1 < 2)
      × ((v : ℕ) × (lua_get_pixel image memory 1 1 ≡ some (some v))
          × (pixel_at image memory 1 1 ≡ some v)
          × (v < 2 ^ 12)))
    ⊎ (((4 ≤ 1) ⊎ (2 ≤ 1)) × (lua_get_pixel image memory 1 1 ≡ some none))
lua_get_pixel-below_example = lua_get_pixel-below image memory image-IsImage 1 1

lua_set_pixel-Put_example :
    (after : List ℕ) × (lua_set_pixel image memory 2 1 0xabc ≡ some after)
    × Put image memory 2 1 0xabc after
lua_set_pixel-Put_example =
    lua_set_pixel-Put image memory image-IsImage twelve_bits 2 1 0xabc (omega arith) (omega arith)
      (omega arith)

abbrev spec : ImageSpec
spec = record {
  data_offset = 1;
  width = 4;
  height = 2;
  bpp = 12;
  endian = 1;
  black_level = 1;
  cfa_pattern = some (0 ∷ 1 ∷ 1 ∷ 2 ∷ []);
  active_area = none;
}

bind_lbuf-IsImage_example :
    IsBound spec memory memory-IsBytes (omega arith) (omega arith) (omega arith) image
unfolding bind_lbuf find_format find_in
bind_lbuf-IsImage_example =
    bind_lbuf-IsImage spec memory memory-IsBytes (omega arith) (omega arith) (omega arith) image
      refl

patch_pixels-Spared_example :
    (state : List ℕ × ℕ) × (patch_pixels image 4 memory ≡ some state) × Spared image 4 memory state
patch_pixels-Spared_example =
    patch_pixels-Spared image 4 memory image-IsImage twelve_bits (omega arith) (omega arith)
      (omega arith) (omega arith)

abbrev blank : List ℕ
blank = 0 ∷ 0 ∷ 0 ∷ 0 ∷ 0 ∷ 0 ∷ 0 ∷ 0 ∷ 0 ∷ 0 ∷ []
