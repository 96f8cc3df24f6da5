-- ===== src/Rawimg/Image/Pixels.antt =====
-- `get_pixel` and `set_pixel` of an image, as Lua calls them.
use chdkptp_astro.Base.{
  ℕ, ◌%◌, ◌^◌, ◌<◌, ◌≤◌, List, none, some, length, drop, get_elem?, ltb, leb, ◌||◌, Bool, true,
  false, if◌then◌else◌, ◌≡◌, ◌⊎◌, inl, inr, refl, ap, ◌∙◌, arith, subst, length-drop,
}
use chdkptp_astro.Base.Partial.{◌>>=◌}
use chdkptp_astro.Rawimg.Bytes.{IsBytes}
use chdkptp_astro.Rawimg.Block.{Digits, Reads, IsReader}
use chdkptp_astro.Rawimg.Format.{RawFormat, find_format}
use chdkptp_astro.Rawimg.Format.Layout.{InArray, block_start, byte_order}
use chdkptp_astro.Rawimg.Format.Table.Search.{find_format-HasLayout, Writable}
use chdkptp_astro.Rawimg.Raster.Stored.{drop-IsBytes}
use chdkptp_astro.Rawimg.Image.{RawImage, pixel_at, lua_get_pixel, lua_set_pixel}
use chdkptp_astro.Rawimg.Image.WellFormed.{
  IsImage, IsImage-HasLayout, Put, pixel_at-below, put_at-Put,
}

-- The number of the block of a pixel, of any format that the table has: the pixels of the block
-- are its digits in base `2 ^ bpp`, where the bytes, swapped in pairs for little-endian formats,
-- are its digits in base 256.
abbrev pub PacksPixels : RawFormat → List ℕ → ℕ → ℕ → ℕ → Type 0
PacksPixels fmt p row_bytes x y =
    (values : List ℕ) × Digits fmt.bpp fmt.block_pixels fmt.block_bytes (byte_order fmt) values
      (drop (block_start fmt row_bytes x y) p)
    × (fmt.get_pixel p row_bytes x y ≡ get_elem? values (x % fmt.block_pixels))

-- A format that `rawimg_find_format` returns has the depth asked for, and where the block of a
-- pixel lies in an array of bytes shorter than 2^32, its `get_pixel` reads the pixel's digit of the
-- number whose base 256 digits are the bytes of the block, most significant first, swapped in pairs
-- for a little-endian format.
pub find_format-PacksPixels :
    (bpp endian : ℕ) (fmt : RawFormat) (p : List ℕ) (row_bytes x y : ℕ)
    → find_format bpp endian ≡ some fmt
    → IsBytes p
    → InArray fmt row_bytes x y (length p)
    → (fmt.bpp ≡ bpp) × PacksPixels fmt p row_bytes x y
unfolding Reads IsReader
find_format-PacksPixels bpp endian fmt p row_bytes x y found ok inside =
    let f = find_format-HasLayout bpp endian fmt found in
    let layout = f.0.0 in
    let start = block_start fmt row_bytes x y in
    let l = length-drop start p in
    let i = inside.0 in
    let r = layout.reads (drop start p) (drop-IsBytes start p ok) (omega arith) in
    (
      f.1.0,
      (
        r.0,
        subst (λ o. Digits fmt.bpp fmt.block_pixels fmt.block_bytes o r.0 (drop start p))
            layout.ordered r.1.0,
        layout.located p row_bytes x y inside ∙ r.1.1 x,
      ),
    )

in_bounds :
    (width height x y : ℕ) → (leb width x || leb height y) ≡ false → (x < width) × (y < height)
in_bounds width height x y h = ground arith

out_of_bounds :
    (width height x y : ℕ) → (leb width x || leb height y) ≡ true → (width ≤ x) ⊎ (height ≤ y)
out_of_bounds width height x y h = ground arith

module _ (img : RawImage) (mem : List ℕ) (ok : IsImage img mem) where
  -- In a valid image `get_pixel` never accesses memory outside the lbuf: within width and height it
  -- returns a number below `2 ^ bpp`, the pixel's value, and elsewhere nil.
  pub lua_get_pixel-below :
      (x y : ℕ)
      → ((x < img.width)
          × (y < img.height)
          × ((v : ℕ) × (lua_get_pixel img mem x y ≡ some (some v))
              × (pixel_at img mem x y ≡ some v)
              × (v < 2 ^ img.fmt.bpp)))
        ⊎ (((img.width ≤ x) ⊎ (img.height ≤ y)) × (lua_get_pixel img mem x y ≡ some none))
  unfolding lua_get_pixel
  lua_get_pixel-below x y = tested (leb img.width x || leb img.height y) refl
    where
      tested :
          (b : Bool)
          → (leb img.width x || leb img.height y) ≡ b
          → ((x < img.width)
              × (y < img.height)
              × ((v : ℕ) × ((if b then some none else (pixel_at img mem x y >>= λ v. some (some v)))
                    ≡ some (some v))
                  × (pixel_at img mem x y ≡ some v)
                  × (v < 2 ^ img.fmt.bpp)))
            ⊎ (((img.width ≤ x) ⊎ (img.height ≤ y))
                × ((if b then some none else (pixel_at img mem x y >>= λ v. some (some v)))
                    ≡ some none))
      tested true e = inr (out_of_bounds img.width img.height x y e, refl)
      tested false e =
          let i = in_bounds img.width img.height x y e in
          let p = pixel_at-below img (IsImage-HasLayout img mem ok).0 mem ok x y i.0 i.1 in
          inl (i.0, i.1, (p.0, ap (λ m. m >>= λ v. some (some v)) p.1, p.1, p.2))

  -- A write of a value below `2 ^ bpp` at coordinates in a valid image whose format is not the
  -- one of 14 bits big-endian: `set_pixel` succeeds, the image stays valid in memory of the same length, the pixel has the
  -- value, and every other pixel of the image is unchanged.
  pub lua_set_pixel-Put :
      Writable img.fmt
      → (x y v : ℕ) → x < img.width
      → y < img.height
      → v < 2 ^ img.fmt.bpp
      → (after : List ℕ) × (lua_set_pixel img mem x y v ≡ some after) × Put img mem x y v after
  unfolding lua_set_pixel
  lua_set_pixel-Put writable x y v h k l =
      let inside : (ltb x img.width || ltb y img.height) ≡ true = ground arith in
      let has = IsImage-HasLayout img mem ok in
      rw inside (put_at-Put img has.0 mem ok (has.1 writable) x y v h k l)
