-- ===== src/Rawimg/Image/WellFormed/Bound.antt =====
-- An image that `bind_lbuf` makes is valid, as long as its size does not wrap around at 2^32.
use chdkptp_astro.Base.{
  ℕ, ◌+◌, ◌*◌, ◌/◌, ◌%◌, ◌^◌, ◌<◌, ◌≤◌, List, [], ◌∷◌, Option, none, some, length, ltb, leb,
  not_ltb→le, ◌==◌, ==_iff, not, Bool, true, false, if◌then◌else◌, ◌≡◌, refl, ap, sym, ◌∙◌, arith,
  subst,
}
use native.Mathlib.Nat.{div-add-mod', mul_assoc, mul_comm}
use chdkptp_astro.Rawimg.Bytes.{IsBytes}
use chdkptp_astro.Rawimg.Format.{RawFormat, find_format}
use chdkptp_astro.Rawimg.Format.Table.Search.{find_format-HasLayout}
use chdkptp_astro.Rawimg.Image.{RawImage}
use chdkptp_astro.Rawimg.Image.WellFormed.{IsImage}
use chdkptp_astro.Rawimg.Image.Bind.{
  Area, ImageSpec, Bound, BindError, bound, refused, bind_size, bind_found, bind_format, bind_area,
  bind_left, bind_right, bind_bottom, bind_cfa, bind_lbuf, unknown_cfa_pattern, active_top_bottom,
  active_left_right, active_right_width, active_bottom_height, unknown_format,
}

-- Every image that a result has satisfies Q.
abbrev Gives : (RawImage → Type 0) → Bound → Type 0
Gives Q result = (img : RawImage) → result ≡ bound img → Q img

module _ (Q : RawImage → Type 0) where
  Gives-refused : (e : BindError) → Gives Q (refused e)
  Gives-refused e img h = absurd cc

  Gives-bound : (img : RawImage) → Q img → Gives Q (bound img)
  Gives-bound img q img' h = let e : img ≡ img' = cc in subst Q e q

  Gives-if :
      (b : Bool) (e : BindError) (r : Bound)
      → (b ≡ false → Gives Q r)
      → Gives Q (if b then refused e else r)
  Gives-if true e r h = Gives-refused e
  Gives-if false e r h = h refl

not-false : (b : Bool) → not b ≡ false → b ≡ true
not-false true h = refl
not-false false h = sym h

-- Rows of whole blocks have whole bytes.
pub bits_of_blocks :
    (width bpp pixels bytes : ℕ)
    → width % pixels ≡ 0
    → pixels * bpp ≡ bytes * 8
    → width * bpp ≡ width / pixels * bytes * 8
bits_of_blocks width bpp pixels bytes whole bits =
    let q = div-add-mod' width pixels in
    let w : width / pixels * pixels ≡ width = omega arith in
    ap (λ n. n * bpp) (sym w)
    ∙ mul_assoc (width / pixels) pixels bpp
    ∙ ap (λ n. width / pixels * n) bits
    ∙ sym (mul_assoc (width / pixels) bytes 8)

row_of_blocks :
    (width bpp pixels bytes : ℕ)
    → width % pixels ≡ 0
    → pixels * bpp ≡ bytes * 8
    → width * bpp / 8 ≡ width / pixels * bytes
row_of_blocks width bpp pixels bytes whole bits =
    omega (arith, bits_of_blocks width bpp pixels bytes whole bits)

module _ (spec : ImageSpec) (mem : List ℕ) (bytes : IsBytes mem) (small : length mem < 2 ^ 32)
    (row : spec.width * spec.bpp < 2 ^ 32)
    (size : spec.data_offset + spec.width * spec.bpp / 8 * spec.height < 2 ^ 32) where
  abbrev pub IsBound : RawImage → Type 0
  IsBound img =
      IsImage img mem
      × (img.width ≡ spec.width)
      × (img.height ≡ spec.height)
      × (img.fmt.bpp ≡ spec.bpp)
      × (img.active_bottom ≤ img.height)

  bind_size-IsBound :
      (cfa : List ℕ) (area : Area) (fmt : RawFormat)
      → find_format spec.bpp spec.endian ≡ some fmt
      → area.bottom ≤ spec.height
      → Gives IsBound (bind_size spec (length mem) cfa area fmt)
  bind_size-IsBound cfa area fmt found below = Gives-if IsBound _ _ _ (λ whole.
      Gives-if IsBound _ _ _ (λ fits. Gives-bound IsBound _ (
        let f = find_format-HasLayout spec.bpp spec.endian fmt found in
        let l = f.0.0 in
        let same = f.1.0 in
        let e : spec.width % fmt.block_pixels ≡ 0 = (==_iff _ _).0 (not-false _ whole) in
        let total : spec.width * fmt.bpp ≡ spec.width * spec.bpp = ap (λ n. spec.width * n) same in
        let bytes_in_row : spec.width * fmt.bpp % 2 ^ 32 / 8 ≡ spec.width * spec.bpp / 8 =
          omega arith in
        let all_rows = ap (λ (n : ℕ). n * spec.height) bytes_in_row in
        let enough = not_ltb→le _ _ fits in
        let swapped = mul_comm spec.height (spec.width * fmt.bpp % 2 ^ 32 / 8) in
        (
          record {
            depth = spec.bpp;
            endian = spec.endian;
            found = found;
            raster = record {
              whole = e;
              row =
                  bytes_in_row
                  ∙ ap (λ n. n / 8) (sym total)
                  ∙ row_of_blocks spec.width fmt.bpp fmt.block_pixels fmt.block_bytes e l.same_bits;
              fits = omega arith;
              addressable = omega arith;
            };
            bytes = bytes;
            start = omega arith;
          },
          refl,
          refl,
          same,
          below,
        ))))

  bind_found-IsBound :
      (cfa : List ℕ) (area : Area)
      → area.bottom ≤ spec.height
      → Gives IsBound (bind_format spec (length mem) cfa area)
  bind_found-IsBound cfa area below = found (find_format spec.bpp spec.endian) refl
    where
      found :
          (o : Option RawFormat)
          → find_format spec.bpp spec.endian ≡ o
          → Gives IsBound (bind_found spec (length mem) cfa area o)
      found none e = Gives-refused IsBound unknown_format
      found (some fmt) e = bind_size-IsBound cfa area fmt e below

  bind_area-IsBound :
      (cfa : List ℕ) (area : Option Area) → Gives IsBound (bind_area spec (length mem) cfa area)
  bind_area-IsBound cfa none = bind_found-IsBound cfa _ (omega arith)
  bind_area-IsBound cfa (some area) =
      let len = length mem in
      Gives-if IsBound (leb area.bottom area.top) active_top_bottom (bind_left spec len cfa area)
        (λ _.
          Gives-if IsBound (leb area.right area.left) active_left_right
            (bind_right spec len cfa area)
            (λ _.
              Gives-if IsBound (ltb spec.width area.left) active_right_width
                (bind_bottom spec len cfa area)
                (λ _.
                  Gives-if IsBound (ltb spec.height area.bottom) active_bottom_height
                    (bind_format spec len cfa area)
                    (λ h. bind_found-IsBound cfa area (not_ltb→le _ _ h)))))

  bind_cfa-IsBound : (cfa : Option (List ℕ)) → Gives IsBound (bind_cfa spec (length mem) cfa)
  bind_cfa-IsBound none = bind_area-IsBound (0 ∷ 0 ∷ 0 ∷ 0 ∷ []) spec.active_area
  bind_cfa-IsBound (some cfa) =
      Gives-if IsBound (not (length cfa == 4)) unknown_cfa_pattern
        (bind_area spec (length mem) cfa spec.active_area)
        (λ _. bind_area-IsBound cfa spec.active_area)

  -- Memory of bytes below 2^32 in which the size of the specified image does not wrap around: an
  -- image that `bind_lbuf` returns has rows of whole blocks that are all in the lbuf, and the
  -- width, height and depth of the specification.
  pub bind_lbuf-IsImage : (img : RawImage) → bind_lbuf spec (length mem) ≡ bound img → IsBound img
  unfolding bind_lbuf
  bind_lbuf-IsImage = bind_cfa-IsBound spec.cfa_pattern
