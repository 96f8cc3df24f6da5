-- ===== src/Rawimg/Image.antt =====
-- `raw_image_t` of rawimg.c and the operations on its pixels. The memory is the bytes of the lbuf
-- that the image is bound to, and `data` is the offset of the image in it. A result `none` is an
-- access outside the lbuf.
pub mod Bind
pub mod WellFormed
pub mod Pixels
pub mod Patch
pub mod Convert
use chdkptp_astro.Base.{
  ℕ, zero, suc, ◌+◌, ◌-◌, ◌*◌, ◌/◌, ◌%◌, ◌^◌, List, [], ◌∷◌, Option, none, some, get_or, drop,
  bit_and, ltb, leb, ◌==◌, ◌&&◌, ◌||◌, if◌then◌else◌,
}
use chdkptp_astro.Base.Partial.{◌>>=◌}
use chdkptp_astro.Base.Loops.{for_loop}
use chdkptp_astro.Rawimg.Bytes.{update_at}
use chdkptp_astro.Rawimg.Format.{RawFormat}

pub record RawImage : Type 0 where
  pub fmt : RawFormat
  pub row_bytes : ℕ
  pub width : ℕ
  pub height : ℕ
  pub cfa_pattern : List ℕ
  pub active_top : ℕ
  pub active_left : ℕ
  pub active_bottom : ℕ
  pub active_right : ℕ
  pub black_level : ℕ
  pub data_start : ℕ

abbrev pub cfa_green : ℕ
cfa_green = 1

unfoldable pub cfa_color : RawImage → ℕ → ℕ → ℕ
cfa_color img x y = get_or img.cfa_pattern (bit_and x 1 + bit_and y 1 * 2) 0

-- `img->fmt->get_pixel(img->data,img->row_bytes,x,y)` and the same of `set_pixel`.
unfoldable pub pixel_at : RawImage → List ℕ → ℕ → ℕ → Option ℕ
pixel_at img mem x y = img.fmt.get_pixel (drop img.data_start mem) img.row_bytes x y

unfoldable pub put_at : RawImage → List ℕ → ℕ → ℕ → ℕ → Option (List ℕ)
put_at img mem x y value =
    update_at img.data_start mem (λ p. img.fmt.set_pixel p img.row_bytes x y value)

-- The result `some none` is nil.
unfoldable pub lua_get_pixel : RawImage → List ℕ → ℕ → ℕ → Option (Option ℕ)
lua_get_pixel img mem x y =
    if leb img.width x || leb img.height y
    then some none
    else (pixel_at img mem x y >>= λ v. some (some v))

unfoldable pub lua_set_pixel : RawImage → List ℕ → ℕ → ℕ → ℕ → Option (List ℕ)
lua_set_pixel img mem x y val =
    if ltb x img.width || ltb y img.height then put_at img mem x y val else some mem

unfoldable pub get_pixel_safe : RawImage → List ℕ → ℕ → ℕ → Option ℕ
get_pixel_safe img mem x y =
    if leb img.width x || leb img.height y then some 0 else pixel_at img mem x y

-- Sums and differences of coordinates are 32-bit unsigned.
abbrev pub plus : ℕ → ℕ → ℕ
plus a b = (a + b) % 2 ^ 32

abbrev pub minus : ℕ → ℕ → ℕ
minus a b = (a + 2 ^ 32 - b) % 2 ^ 32

abbrev pub four : RawImage → List ℕ → ℕ → ℕ → ℕ → ℕ → ℕ → ℕ → ℕ → ℕ → Option (List ℕ)
four img mem x0 y0 x1 y1 x2 y2 x3 y3 = get_pixel_safe img mem x0 y0 >>= λ a.
    get_pixel_safe img mem x1 y1 >>= λ b. get_pixel_safe img mem x2 y2 >>= λ c.
    get_pixel_safe img mem x3 y3 >>= λ d. some (a ∷ b ∷ c ∷ d ∷ [])

-- `neigh`: on green the diagonal neighbours, else those two away in the row and the column.
unfoldable pub neighbors : RawImage → List ℕ → ℕ → ℕ → Option (List ℕ)
neighbors img mem x y =
    if cfa_color img x y == cfa_green
    then four img mem (minus x 1) (minus y 1) (plus x 1) (minus y 1) (minus x 1) (plus y 1)
        (plus x 1) (plus y 1)
    else four img mem (minus x 2) y (plus x 2) y x (minus y 2) x (plus y 2)

-- `total` and `count` over the neighbours above the black level.
unfoldable pub above_black : ℕ → List ℕ → ℕ × ℕ
above_black black_level [] = (0, 0)
above_black black_level (n ∷ rest) =
    let so_far = above_black black_level rest in
    if ltb black_level n then (plus n so_far.0, suc so_far.1) else so_far

-- `rawimg_patch_pixel`: the memory, and 1 if the pixel is patched.
unfoldable pub store_average : RawImage → List ℕ → ℕ → ℕ → ℕ × ℕ → Option (List ℕ × ℕ)
store_average img mem x y sums =
    if sums.1 == 0
    then some (mem, 0)
    else (put_at img mem x y (sums.0 / sums.1) >>= λ mem. some (mem, 1))

unfoldable pub patch_pixel : RawImage → List ℕ → ℕ → ℕ → Option (List ℕ × ℕ)
patch_pixel img mem x y =
    neighbors img mem x y >>= λ neigh. store_average img mem x y (above_black img.black_level neigh)

-- `rawimg_lua_patch_pixels`: the memory and the count of patched pixels.
unfoldable pub patch_at : RawImage → ℕ → ℕ → ℕ → List ℕ × ℕ → Option (List ℕ × ℕ)
patch_at img badval y x state = pixel_at img state.0 x y >>= λ val.
    if leb val badval
    then (patch_pixel img state.0 x y >>= λ r. some (r.0, plus state.1 r.1))
    else some state

unfoldable pub patch_pixels : RawImage → ℕ → List ℕ → Option (List ℕ × ℕ)
patch_pixels img badval mem =
    for_loop (λ y. for_loop (patch_at img badval y) img.active_left img.active_right) img.active_top
      img.active_bottom (mem, 0)
