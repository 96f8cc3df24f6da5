-- ===== src/Rawimg/Raster.antt =====
-- Images whose rows are whole blocks, in an array that holds every row: where the block of each
-- pixel lies.
pub mod Stored
use chdkptp_astro.Base.{
  ℕ, suc, ◌+◌, ◌*◌, ◌/◌, ◌%◌, ◌^◌, ◌<◌, ◌≤◌, ◌≡◌, ◌≢◌, ◌⊎◌, inl, inr, ap, sym, ◌∙◌, arith,
  three_ways,
}
use native.Mathlib.Nat.{div-lt_iff_lt-mul, div-add-mod'}
use chdkptp_astro.Rawimg.Format.{RawFormat}
use chdkptp_astro.Rawimg.Format.Layout.{block_start, InArray}

pub record Raster (fmt : RawFormat) (row_bytes width height len : ℕ) : Type 0 where
  pub whole : width % fmt.block_pixels ≡ 0
  pub row : row_bytes ≡ width / fmt.block_pixels * fmt.block_bytes
  pub fits : height * row_bytes ≤ len
  pub addressable : len < 2 ^ 32

next_multiple : (a b n : ℕ) → a < b → a * n + n ≤ b * n
next_multiple a b n h = grind arith

module _ (fmt : RawFormat) (row_bytes width height len : ℕ)
    (raster : Raster fmt row_bytes width height len) (some_pixel : 0 < fmt.block_pixels) where
  block-in-row :
      (x : ℕ) → x < width → x / fmt.block_pixels * fmt.block_bytes + fmt.block_bytes ≤ row_bytes
  block-in-row x h =
      let e = div-add-mod' width fmt.block_pixels in
      let w = raster.whole in
      let r = raster.row in
      let inside : x / fmt.block_pixels < width / fmt.block_pixels =
        (div-lt_iff_lt-mul some_pixel).1 (omega arith) in
      omega (
        arith,
        next_multiple (x / fmt.block_pixels) (width / fmt.block_pixels) fmt.block_bytes inside,
      )

  pub InArray-in_image : (x y : ℕ) → x < width → y < height → InArray fmt row_bytes x y len
  InArray-in_image x y h k =
      let f = raster.fits in
      let r = block-in-row x h in
      (omega (arith, next_multiple y height row_bytes k), raster.addressable)

  -- Two pixels are in one block or in blocks apart.
  abbrev pub Apart : ℕ → ℕ → ℕ → ℕ → Type 0
  Apart x y x' y' =
      (block_start fmt row_bytes x y + fmt.block_bytes ≤ block_start fmt row_bytes x' y')
      ⊎ (block_start fmt row_bytes x' y' + fmt.block_bytes ≤ block_start fmt row_bytes x y)

  pub same_or_Apart :
      (x y x' y' : ℕ)
      → x < width
      → x' < width
      → ((y ≡ y') × (x / fmt.block_pixels ≡ x' / fmt.block_pixels)) ⊎ Apart x y x' y'
  same_or_Apart x y x' y' h h' =
      let r = block-in-row x h in
      let r' = block-in-row x' h' in
      elim (three_ways y y') [
        | inl lt ↦ inr (inl (omega (arith, next_multiple y y' row_bytes lt)))
        | inr (inr gt) ↦ inr (inr (omega (arith, next_multiple y' y row_bytes gt)))
        | inr (inl same) ↦
            let e = ap (λ (n : ℕ). n * row_bytes) same in
            elim (three_ways (x / fmt.block_pixels) (x' / fmt.block_pixels)) [
              | inl lt ↦ inr (inl (omega (arith, next_multiple _ _ fmt.block_bytes lt)))
              | inr (inl one) ↦ inl (same, one)
              | inr (inr gt) ↦ inr (inr (omega (arith, next_multiple _ _ fmt.block_bytes gt)))
            ]
      ]
