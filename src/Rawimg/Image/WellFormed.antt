-- ===== src/Rawimg/Image/WellFormed.antt =====
-- What makes an image valid, and that reads and writes of its pixels are within its lbuf.
pub mod Bound
use chdkptp_astro.Base.{
  ℕ, zero, suc, ◌+◌, ◌-◌, ◌*◌, ◌/◌, ◌%◌, ◌^◌, ◌<◌, ◌≤◌, List, Option, none, some, take, drop,
  length, ◌++◌, length-drop, length-append, length-take, ltb, leb, ◌||◌, if◌then◌else◌, ◌≡◌, ◌≢◌,
  ◌⊎◌, inl, inr, refl, ap, sym, ◌∙◌, arith,
}
use chdkptp_astro.Base.Partial.{◌>>=◌}
use chdkptp_astro.Rawimg.Bytes.{IsBytes, update_at}
use chdkptp_astro.Rawimg.Pointers.{drop-head}
use chdkptp_astro.Rawimg.Format.Layout.{Layout, Writer, InArray}
use chdkptp_astro.Rawimg.Format.{find_format}
use chdkptp_astro.Rawimg.Format.Table.Search.{HasLayout, find_format-HasLayout}
use chdkptp_astro.Rawimg.Raster.{Raster, InArray-in_image}
use chdkptp_astro.Rawimg.Raster.Stored.{
  Stored, set_pixel-Stored, get_pixel-below, drop-IsBytes, take-append-IsBytes, length-updated,
}
use chdkptp_astro.Rawimg.Image.{RawImage, pixel_at, put_at, lua_get_pixel, lua_set_pixel}

-- An image of a format of the table, in rows of whole blocks that are all in the lbuf.
pub record IsImage (img : RawImage) (mem : List ℕ) : Type 0 where
  pub depth : ℕ
  pub endian : ℕ
  pub found : find_format depth endian ≡ some img.fmt
  pub raster : Raster img.fmt img.row_bytes img.width img.height (length mem - img.data_start)
  pub bytes : IsBytes mem
  pub start : img.data_start ≤ length mem

pub IsImage-HasLayout : (img : RawImage) (mem : List ℕ) → IsImage img mem → HasLayout img.fmt
IsImage-HasLayout img mem ok = (find_format-HasLayout ok.depth ok.endian img.fmt ok.found).0

module _ (img : RawImage) where
  -- The memory after a write to a pixel: a valid image in which only that pixel has changed.
  pub record Put (mem : List ℕ) (x y v : ℕ) (after : List ℕ) : Type 0 where
    pub valid : IsImage img after
    pub size : length after ≡ length mem
    pub here : pixel_at img after x y ≡ some v
    pub elsewhere :
        (x' y' : ℕ)
        → x' < img.width
        → y' < img.height
        → (x' ≢ x) ⊎ (y' ≢ y)
        → pixel_at img after x' y' ≡ pixel_at img mem x' y'

module _ (img : RawImage) (layout : Layout img.fmt) where
  pixel-in :
      (mem : List ℕ) (ok : IsImage img mem) (x y : ℕ)
      → x < img.width
      → y < img.height
      → InArray img.fmt img.row_bytes x y (length (drop img.data_start mem))
  pixel-in mem ok x y h k =
      let l = length-drop img.data_start mem in
      let i =
        InArray-in_image img.fmt img.row_bytes img.width img.height _ ok.raster layout.some_pixel x
          y h k in
      (omega (arith, i.0), omega (arith, i.1))

  pub pixel_at-below :
      (mem : List ℕ)
      → IsImage img mem
      → (x y : ℕ) → x < img.width
      → y < img.height
      → (v : ℕ) × (pixel_at img mem x y ≡ some v) × (v < 2 ^ img.fmt.bpp)
  unfolding pixel_at
  pixel_at-below mem ok x y h k =
      get_pixel-below img.fmt layout (drop img.data_start mem) img.row_bytes x y
        (drop-IsBytes img.data_start mem ok.bytes) (pixel-in mem ok x y h k)

  module _ (mem : List ℕ) (ok : IsImage img mem) (writer : Writer img.fmt layout) (x y v : ℕ)
      (h : x < img.width) (k : y < img.height) (l : v < 2 ^ img.fmt.bpp) where
    same-Raster :
        Raster img.fmt img.row_bytes img.width img.height (length (drop img.data_start mem))
    same-Raster =
        let r = ok.raster in
        let d = length-drop img.data_start mem in
        let f = r.fits in
        let a = r.addressable in
        record { whole = r.whole; row = r.row; fits = omega arith; addressable = omega arith }

    abbrev stored :
        Stored img.fmt layout (drop img.data_start mem) img.row_bytes img.width img.height x y v
    stored =
        set_pixel-Stored img.fmt layout writer (drop img.data_start mem) img.row_bytes img.width
          img.height (drop-IsBytes img.data_start mem ok.bytes) same-Raster x y v h k l

    pub put_at-Put :
        (after : List ℕ) × (put_at img mem x y v ≡ some after) × Put img mem x y v after
    unfolding put_at pixel_at
    put_at-Put =
        let s = stored in
        let d = img.data_start in
        let after = take d mem ++ s.after in
        let start = ok.start in
        let size = s.size in
        let lt = length-take d mem in
        let ld = length-drop d mem in
        let total : length after ≡ length mem = omega (arith, length-append (take d mem) s.after) in
        let rest = drop-head d mem s.after start in
        let r = ok.raster in
        let f = r.fits in
        let a = r.addressable in
        (
          after,
          ap (λ m. m >>= λ addr. some (take d mem ++ addr)) s.run,
          record {
            valid = record {
              depth = ok.depth;
              endian = ok.endian;
              found = ok.found;
              raster = record {
                whole = r.whole;
                row = r.row;
                fits = omega arith;
                addressable = omega arith;
              };
              bytes = take-append-IsBytes d mem s.after ok.bytes s.bytes;
              start = omega arith;
            };
            size = total;
            here = ap (λ p. img.fmt.get_pixel p img.row_bytes x y) rest ∙ s.here;
            elsewhere = λ x' y' h' k' ne.
                ap (λ p. img.fmt.get_pixel p img.row_bytes x' y') rest ∙ s.elsewhere x' y' h' k' ne;
          },
        )
