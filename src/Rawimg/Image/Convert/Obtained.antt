-- ===== src/Rawimg/Image/Convert/Obtained.antt =====
-- The result of `convert`.
use chdkptp_astro.Base.{ℕ, ◌-◌, ◌*◌, ◌/◌, ◌^◌, ◌<◌, List, some, ◌≡◌}
use chdkptp_astro.Rawimg.Format.{RawFormat}
use chdkptp_astro.Rawimg.Image.{RawImage, pixel_at}
use chdkptp_astro.Rawimg.Image.WellFormed.{IsImage}
use chdkptp_astro.Rawimg.Image.Convert.{Destination, allocated, supplied}

abbrev pub memory_of : Destination → List ℕ
memory_of (allocated dest) = dest
memory_of (supplied dest) = dest

module _ (img : RawImage) (bpp : ℕ) where
  -- The size of the new image, and a row, in bits, do not wrap around.
  abbrev NoWrap : Type 0
  NoWrap = (img.width * bpp < 2 ^ 32) × (img.width * img.height * bpp < 2 ^ 32)

  module _ (mem : List ℕ) (ok : IsImage img mem) (endian up : ℕ) (dest : Destination)
      (fmt : RawFormat) where
    -- The new image and its memory: valid, with every pixel the shifted one of the original.
    abbrev pub IsConversion : RawImage → List ℕ → Type 0
    IsConversion newimg dest' =
        IsImage newimg dest'
        × (newimg.width ≡ img.width)
        × (newimg.height ≡ img.height)
        × (newimg.fmt.bpp ≡ bpp)
        × (newimg.black_level ≡ img.black_level / 2 ^ (img.fmt.bpp - bpp))
        × ((x y : ℕ)
            → x < img.width
            → y < img.height
            → (v : ℕ) × (pixel_at img mem x y ≡ some v)
              × (pixel_at newimg dest' x y ≡ some (v / 2 ^ (img.fmt.bpp - bpp))))
