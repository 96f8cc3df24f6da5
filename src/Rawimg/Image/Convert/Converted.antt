-- ===== src/Rawimg/Image/Convert/Converted.antt =====
-- Every pixel of a converted image is the shifted pixel of the original.
use chdkptp_astro.Base.{
  ℕ, suc, ◌^◌, ◌<◌, List, none, some, ◌≡◌, ◌⊎◌, inl, inr, ap, ap₂, sym, ◌∙◌, arith, three_ways,
}
use chdkptp_astro.Base.Partial.{◌>>=◌}
use chdkptp_astro.Base.Loops.{for_loop, for_loop-inv}
use chdkptp_astro.Rawimg.Format.Layout.{Layout, Writer}
use chdkptp_astro.Rawimg.Image.{RawImage, pixel_at, put_at}
use chdkptp_astro.Rawimg.Image.WellFormed.{IsImage, Put, pixel_at-below, put_at-Put}
use chdkptp_astro.Rawimg.Image.Convert.{Shift, shift_value, convert_pixel, convert_pixels}

some-eq : {a b : ℕ} → some a ≡ some b → a ≡ b
some-eq {a = a} e = ap (λ o. elim o [ none ↦ a | some x ↦ x ]) e

module _ (img newimg : RawImage) (layout : Layout img.fmt) (layout' : Layout newimg.fmt)
    (writer : Writer newimg.fmt layout') (width : newimg.width ≡ img.width)
    (height : newimg.height ≡ img.height) (mem : List ℕ) (ok : IsImage img mem) (shift : Shift)
    (fits : (v : ℕ) → v < 2 ^ img.fmt.bpp → shift_value shift v < 2 ^ newimg.fmt.bpp) where
  abbrev IsDone : List ℕ → ℕ → ℕ → Type 0
  IsDone dest x y =
      (v : ℕ)
      → pixel_at img mem x y ≡ some v
      → pixel_at newimg dest x y ≡ some (shift_value shift v)

  -- The rows before y, and of row y the pixels before x, are done.
  record Progress (y x : ℕ) (dest : List ℕ) : Type 0 where
    valid : IsImage newimg dest
    done :
        (x' y' : ℕ)
        → x' < img.width
        → y' < img.height
        → (y' < y) ⊎ ((y' ≡ y) × (x' < x))
        → IsDone dest x' y'

  module _ (y x : ℕ) (dest : List ℕ) (h : x < img.width) (k : y < img.height)
      (p : Progress y x dest) where
    -- What was done stays done, and the pixel itself is done.
    IsDone-after :
        (v : ℕ) (dest' : List ℕ)
        → pixel_at img mem x y ≡ some v
        → Put newimg dest x y (shift_value shift v) dest'
        → (x' y' : ℕ) → x' < img.width
        → y' < img.height
        → (y' < y) ⊎ ((y' ≡ y) × (x' < suc x))
        → IsDone dest' x' y'
    IsDone-after v dest' here put x' y' h' k' (inl above) = λ u e.
        put.elsewhere x' y' (omega arith) (omega arith) (inr (λ ey. omega arith))
        ∙ p.done x' y' h' k' (inl above) u e
    IsDone-after v dest' here put x' y' h' k' (inr (ey, upto)) = elim (three_ways x' x) [
      | inl lt ↦ λ u e.
          put.elsewhere x' y' (omega arith) (omega arith) (inl (λ ex. omega arith))
          ∙ p.done x' y' h' k' (inr (ey, lt)) u e
      | inr (inr gt) ↦ absurd (omega arith)
      | inr (inl ex) ↦ λ u e.
          let both = sym here ∙ sym (ap₂ (pixel_at img mem) ex ey) ∙ e in
          let same : v ≡ u = some-eq both in
          ap₂ (pixel_at newimg dest') ex ey ∙ put.here ∙ ap (λ n. some (shift_value shift n)) same
    ]

    convert_pixel-Progress :
        (dest' : List ℕ) × (convert_pixel img mem newimg shift y x dest ≡ some dest')
        × Progress y (suc x) dest'
    unfolding convert_pixel
    convert_pixel-Progress =
        let old = pixel_at-below img layout mem ok x y h k in
        let w =
          put_at-Put newimg layout' dest p.valid writer x y (shift_value shift old.0) (omega arith)
            (omega arith) (fits old.0 old.2) in
        let put = w.2 in
        (
          w.0,
          ap (λ m. m >>= λ v. put_at newimg dest x y (shift_value shift v)) old.1 ∙ w.1,
          record { valid = put.valid; done = IsDone-after old.0 w.0 old.1 put },
        )

  convert_row-Progress :
      (y : ℕ) (dest : List ℕ)
      → y < img.height
      → Progress y 0 dest
      → (dest' : List ℕ) × (for_loop (convert_pixel img mem newimg shift y) 0 img.width dest
          ≡ some dest')
        × Progress (suc y) 0 dest'
  convert_row-Progress y dest k p =
      let r =
        for_loop-inv (convert_pixel img mem newimg shift y) (λ x d. Progress y x d) img.width
          (λ x d h q. convert_pixel-Progress y x d h k q) 0 dest (omega arith) p in
      let q = r.2 in
      (
        r.0,
        r.1,
        record {
          valid = q.valid;
          done = λ x' y' h' k' before. q.done x' y' h' k' (row_done x' y' h' before);
        },
      )
    where
      row_done :
          (x' y' : ℕ)
          → x' < img.width
          → (y' < suc y) ⊎ ((y' ≡ suc y) × (x' < 0))
          → (y' < y) ⊎ ((y' ≡ y) × (x' < img.width))
      row_done x' y' h' before = ground arith

  convert_pixels-Progress :
      (dest : List ℕ)
      → IsImage newimg dest
      → (dest' : List ℕ) × (convert_pixels img mem newimg shift dest ≡ some dest')
        × Progress img.height 0 dest'
  unfolding convert_pixels
  convert_pixels-Progress dest valid =
      for_loop-inv _ (λ y d. Progress y 0 d) img.height (λ y d k q. convert_row-Progress y d k q) 0
        dest (omega arith)
        (record { valid = valid; done = λ x' y' h' k' before. absurd (ground arith) })

  -- All pixels are done at the end.
  pub convert_pixels-Converted :
      (dest : List ℕ)
      → IsImage newimg dest
      → (dest' : List ℕ) × (convert_pixels img mem newimg shift dest ≡ some dest')
        × IsImage newimg dest'
        × ((x y : ℕ)
            → x < img.width
            → y < img.height
            → (v : ℕ) × (pixel_at img mem x y ≡ some v)
              × (pixel_at newimg dest' x y ≡ some (shift_value shift v)))
  convert_pixels-Converted dest valid =
      let r = convert_pixels-Progress dest valid in
      let q = r.2 in
      (
        r.0,
        r.1,
        q.valid,
        λ x y h k.
            let old = pixel_at-below img layout mem ok x y h k in
            (old.0, old.1, q.done x y h k (inl k) old.0 old.1),
      )
