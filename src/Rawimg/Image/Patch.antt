-- ===== src/Rawimg/Image/Patch.antt =====
-- `patch_pixels` on a valid image: it ends within the lbuf, and changes no pixel above the limit.
use chdkptp_astro.Base.{
  ℕ, suc, ◌+◌, ◌*◌, ◌/◌, ◌^◌, ◌<◌, ◌≤◌, List, [], ◌∷◌, some, length, ltb, leb, ◌==◌, ◌||◌, true,
  false, ◌≡◌, ◌≢◌, ◌⊎◌, inl, inr, refl, ap, ap₂, sym, ◌∙◌, arith, three_ways, if-ind,
}
use chdkptp_astro.Base.Partial.{◌>>=◌}
use chdkptp_astro.Base.Loops.{for_loop, for_loop-inv}
use native.Mathlib.Nat.{div-lt_iff_lt-mul, one-le-pow, mul_comm, suc-mul}
use chdkptp_astro.Rawimg.Format.Layout.{Layout, Writer}
use chdkptp_astro.Rawimg.Image.{
  RawImage, pixel_at, get_pixel_safe, four, neighbors, above_black, store_average, patch_pixel,
  patch_at, patch_pixels, plus, cfa_color, cfa_green,
}
use chdkptp_astro.Rawimg.Format.Table.Search.{Writable}
use chdkptp_astro.Rawimg.Image.WellFormed.{IsImage, IsImage-HasLayout, pixel_at-below, put_at-Put}

data AllLess (bound : ℕ) : List ℕ → Type 0 where
  no_more : AllLess bound []
  one_more : {n : ℕ} {rest : List ℕ} → n < bound → AllLess bound rest → AllLess bound (n ∷ rest)

one_sum : (n s c bound : ℕ) → n < bound → s + c ≤ c * bound → plus n s + suc c ≤ suc c * bound
one_sum n s c bound h k = let e = suc-mul c bound in omega arith

sum_bound :
    (black bound : ℕ) (ns : List ℕ)
    → AllLess bound ns
    → (above_black black ns).0 + (above_black black ns).1 ≤ (above_black black ns).1 * bound
unfolding above_black
sum_bound black bound [] no_more = omega arith
sum_bound black bound (n ∷ ns) (one_more h hs) =
    let so_far = above_black black ns in
    let ih = sum_bound black bound ns hs in
    if-ind (λ sums. sums.0 + sums.1 ≤ sums.1 * bound) (ltb black n) (plus n so_far.0, suc so_far.1)
      so_far (λ _. one_sum n so_far.0 so_far.1 bound h ih) (λ _. ih)

-- The average of numbers below a bound is below it.
average-below :
    (black bound : ℕ) (ns : List ℕ)
    → AllLess bound ns
    → 0 < (above_black black ns).1
    → (above_black black ns).0 / (above_black black ns).1 < bound
average-below black bound ns h k =
    (div-lt_iff_lt-mul k).1
      (omega (arith, sum_bound black bound ns h, mul_comm bound (above_black black ns).1))

in_bounds :
    (width height x y : ℕ) → (leb width x || leb height y) ≡ false → (x < width) × (y < height)
in_bounds width height x y h = ground arith

nonzero : (n : ℕ) → (n == 0) ≡ false → 0 < n
nonzero n h = ground arith

module _ (img : RawImage) where
  -- At most the pixel at x, y differs.
  record Patched (mem : List ℕ) (x y : ℕ) (after : List ℕ) : Type 0 where
    valid : IsImage img after
    size : length after ≡ length mem
    elsewhere :
        (x' y' : ℕ)
        → x' < img.width
        → y' < img.height
        → (x' ≢ x) ⊎ (y' ≢ y)
        → pixel_at img after x' y' ≡ pixel_at img mem x' y'

  -- The pixels of an earlier memory that are above the limit are what they were.
  pub record Spared (badval : ℕ) (before : List ℕ) (state : List ℕ × ℕ) : Type 0 where
    pub valid : IsImage img state.0
    pub size : length state.0 ≡ length before
    pub above :
        (x y v : ℕ)
        → x < img.width
        → y < img.height
        → pixel_at img before x y ≡ some v
        → badval < v
        → pixel_at img state.0 x y ≡ some v

module _ (img : RawImage) (layout : Layout img.fmt) where
  module _ (mem : List ℕ) (ok : IsImage img mem) where
    get_pixel_safe-below :
        (x y : ℕ) → (v : ℕ) × (get_pixel_safe img mem x y ≡ some v) × (v < 2 ^ img.fmt.bpp)
    unfolding get_pixel_safe
    get_pixel_safe-below x y =
        if-ind (λ r. (v : ℕ) × (r ≡ some v) × (v < 2 ^ img.fmt.bpp))
          (leb img.width x || leb img.height y) (some 0) (pixel_at img mem x y)
          (λ _. (0, refl, one-le-pow img.fmt.bpp 2 (omega arith)))
          (λ inside.
            let i = in_bounds img.width img.height x y inside in
            pixel_at-below img layout mem ok x y i.0 i.1)

    four-AllLess :
        (x0 y0 x1 y1 x2 y2 x3 y3 : ℕ)
        → (ns : List ℕ) × (four img mem x0 y0 x1 y1 x2 y2 x3 y3 ≡ some ns)
          × AllLess (2 ^ img.fmt.bpp) ns
    four-AllLess x0 y0 x1 y1 x2 y2 x3 y3 =
        let a = get_pixel_safe-below x0 y0 in
        let b = get_pixel_safe-below x1 y1 in
        let c = get_pixel_safe-below x2 y2 in
        let d = get_pixel_safe-below x3 y3 in
        (
          a.0 ∷ b.0 ∷ c.0 ∷ d.0 ∷ [],
          rw (a.1, b.1, c.1, d.1) refl,
          one_more a.2 (one_more b.2 (one_more c.2 (one_more d.2 no_more))),
        )

    neighbors-AllLess :
        (x y : ℕ) → (ns : List ℕ) × (neighbors img mem x y ≡ some ns) × AllLess (2 ^ img.fmt.bpp) ns
    unfolding neighbors
    neighbors-AllLess x y =
        if-ind (λ r. (ns : List ℕ) × (r ≡ some ns) × AllLess (2 ^ img.fmt.bpp) ns)
          (cfa_color img x y == cfa_green) _ _ (λ _. four-AllLess _ _ _ _ _ _ _ _)
          (λ _. four-AllLess _ _ _ _ _ _ _ _)

  module _ (writer : Writer img.fmt layout) where
    store_average-Patched :
        (mem : List ℕ) (x y : ℕ) (ns : List ℕ)
        → IsImage img mem
        → x < img.width
        → y < img.height
        → AllLess (2 ^ img.fmt.bpp) ns
        → (r : List ℕ × ℕ) × (store_average img mem x y (above_black img.black_level ns) ≡ some r)
          × Patched img mem x y r.0
    unfolding store_average
    store_average-Patched mem x y ns ok h k less =
        let sums = above_black img.black_level ns in
        if-ind (λ o. (r : List ℕ × ℕ) × (o ≡ some r) × Patched img mem x y r.0) (sums.1 == 0) _ _
          (λ _. (
            (mem, 0),
            refl,
            record { valid = ok; size = refl; elsewhere = λ x' y' h' k' ne. refl },
          ))
          (λ some_neighbor.
            let less =
              average-below img.black_level (2 ^ img.fmt.bpp) ns less
                (nonzero sums.1 some_neighbor) in
            let w = put_at-Put img layout mem ok writer x y (sums.0 / sums.1) h k less in
            let put = w.2 in
            (
              (w.0, 1),
              ap (λ m. m >>= λ mem. some (mem, 1)) w.1,
              record { valid = put.valid; size = put.size; elsewhere = put.elsewhere },
            ))

    patch_pixel-Patched :
        (mem : List ℕ) (x y : ℕ)
        → IsImage img mem
        → x < img.width
        → y < img.height
        → (r : List ℕ × ℕ) × (patch_pixel img mem x y ≡ some r) × Patched img mem x y r.0
    unfolding patch_pixel
    patch_pixel-Patched mem x y ok h k =
        let ns = neighbors-AllLess mem ok x y in
        let s = store_average-Patched mem x y ns.0 ok h k ns.2 in
        (
          s.0,
          ap (λ m. m >>= λ neigh. store_average img mem x y (above_black img.black_level neigh))
                ns.1
              ∙ s.1,
          s.2,
        )

    module _ (badval : ℕ) (before : List ℕ) where
      -- A pixel at the limit is not one above it.
      other_pixel :
          (mem : List ℕ) (x y x' y' val v : ℕ)
          → leb val badval ≡ true
          → pixel_at img mem x y ≡ some val
          → pixel_at img mem x' y' ≡ some v
          → badval < v
          → (x' ≢ x) ⊎ (y' ≢ y)
      other_pixel mem x y x' y' val v low here there high = elim (three_ways x' x) [
        | inl lt ↦ inl (λ e. omega arith)
        | inr (inr gt) ↦ inl (λ e. omega arith)
        | inr (inl same) ↦ inr (λ same'.
            let one : some val ≡ some v =
              sym here ∙ sym (ap₂ (pixel_at img mem) same same') ∙ there in
            let eq : val ≡ v = cc in absurd (ground arith))
      ]

      patch_at-Spared :
          (y x : ℕ) (state : List ℕ × ℕ)
          → x < img.width
          → y < img.height
          → Spared img badval before state
          → (state' : List ℕ × ℕ) × (patch_at img badval y x state ≡ some state')
            × Spared img badval before state'
      unfolding patch_at
      patch_at-Spared y x state h k spared =
          let p = pixel_at-below img layout state.0 spared.valid x y h k in
          rw p.1 (
            if-ind (λ o. (s : List ℕ × ℕ) × (o ≡ some s) × Spared img badval before s)
              (leb p.0 badval) _ _
              (λ bad.
                let r = patch_pixel-Patched state.0 x y spared.valid h k in
                let patched = r.2 in
                (
                  (r.0.0, plus state.1 r.0.1),
                  ap (λ m. m >>= λ r. some (r.0, plus state.1 r.1)) r.1,
                  record {
                    valid = patched.valid;
                    size = patched.size ∙ spared.size;
                    above = λ x' y' v h' k' e lt.
                        let now = spared.above x' y' v h' k' e lt in
                        patched.elsewhere x' y' h' k'
                          (other_pixel state.0 x y x' y' p.0 v bad p.1 now lt)
                        ∙ now;
                  },
                ))
              (λ _. (state, refl, spared)))

      patch_row-Spared :
          (y : ℕ) (state : List ℕ × ℕ)
          → img.active_left ≤ img.active_right
          → img.active_right ≤ img.width
          → y < img.height
          → Spared img badval before state
          → (state' : List ℕ × ℕ) × (for_loop
                (patch_at img badval y)
                img.active_left
                img.active_right
                state
              ≡ some state')
            × Spared img badval before state'
      patch_row-Spared y state ordered right k spared =
          for_loop-inv (patch_at img badval y) (λ x s. Spared img badval before s) img.active_right
            (λ x s h sp. patch_at-Spared y x s (omega arith) k sp) img.active_left state ordered
            spared

-- A valid image whose format is not the one of 14 bits big-endian and whose active area is in it:
-- `patch_pixels` ends without an access outside the lbuf, leaves a valid image in an lbuf of the same
-- length, and every pixel of the image whose value is above `badval` is unchanged.
pub patch_pixels-Spared :
    (img : RawImage) (badval : ℕ) (before : List ℕ)
    → IsImage img before
    → Writable img.fmt
    → img.active_left ≤ img.active_right
    → img.active_right ≤ img.width
    → img.active_top ≤ img.active_bottom
    → img.active_bottom ≤ img.height
    → (state : List ℕ × ℕ) × (patch_pixels img badval before ≡ some state)
      × Spared img badval before state
unfolding patch_pixels
patch_pixels-Spared img badval before ok writable ordered right ordered' bottom =
    let has = IsImage-HasLayout img before ok in
    for_loop-inv _ (λ y s. Spared img badval before s) img.active_bottom
      (λ y s h sp.
        patch_row-Spared img has.0 (has.1 writable) badval before y s ordered right (omega arith)
          sp)
      img.active_top (before, 0) ordered'
      (record { valid = ok; size = refl; above = λ x y v h k e lt. e })
