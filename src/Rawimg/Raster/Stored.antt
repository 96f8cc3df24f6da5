-- ===== src/Rawimg/Raster/Stored.antt =====
-- A write to a pixel of an image, for every format that has a writer: the pixel has the value, and
-- every other pixel is as before.
use chdkptp_astro.Base.{
  ℕ, zero, suc, ◌+◌, ◌-◌, ◌*◌, ◌/◌, ◌%◌, ◌^◌, ◌<◌, ◌≤◌, List, [], ◌∷◌, ◌++◌, some, take, drop,
  length, length-append, length-take, length-drop, take-append_le, drop-append_le, drop-drop,
  take-append-drop, ◌≡◌, ◌≢◌, ◌⊎◌, inl, inr, refl, ap, ap₂, sym, ◌∙◌, arith,
}
use chdkptp_astro.Base.Partial.{◌>>=◌}
use native.Mathlib.Nat.{div-add-mod'}
use chdkptp_astro.Rawimg.Bytes.{IsBytes}
use chdkptp_astro.Rawimg.Block.{Kept, Reads, IsReader}
use chdkptp_astro.Rawimg.Block.Written.{BlockWritten, Writes-BlockWritten, get-same, get-below}
use chdkptp_astro.Rawimg.Pointers.{drop-head}
use chdkptp_astro.Rawimg.Format.{RawFormat}
use chdkptp_astro.Rawimg.Format.Layout.{Layout, Writer, block_start, InArray}
use chdkptp_astro.Rawimg.Raster.{Raster, InArray-in_image, same_or_Apart, Apart}

pub drop-IsBytes : (n : ℕ) (p : List ℕ) → IsBytes p → IsBytes (drop n p)
unfolding IsBytes
drop-IsBytes zero p ok = ok
drop-IsBytes (suc n) [] ok = ok
drop-IsBytes (suc n) (b ∷ p) ok = drop-IsBytes n p (λ i. ok (suc i))

-- A start of bytes followed by bytes.
pub take-append-IsBytes :
    (n : ℕ) (p addr : List ℕ) → IsBytes p → IsBytes addr → IsBytes (take n p ++ addr)
unfolding IsBytes
take-append-IsBytes zero p addr ok ok' i = ok' i
take-append-IsBytes (suc n) [] addr ok ok' i = ok' i
take-append-IsBytes (suc n) (b ∷ p) addr ok ok' zero = ok 0
take-append-IsBytes (suc n) (b ∷ p) addr ok ok' (suc i) =
    take-append-IsBytes n p addr (λ i. ok (suc i)) ok' i

module _ (p after : List ℕ) (off n : ℕ) (fits : off + n ≤ length p)
    (kept : Kept n (drop off p) after) where
  pub length-updated : length (take off p ++ after) ≡ length p
  length-updated =
      omega
        (arith, length-append (take off p) after, length-take off p, length-drop off p, kept.size)

  -- Places in front of the block and behind it are as they were.
  front :
      (off' : ℕ) → off' + n ≤ off → take n (drop off' (take off p ++ after)) ≡ take n (drop off' p)
  front off' h =
      let l = length-take off p in
      let l' = length-drop off' (take off p) in
      let cut : (rest : List ℕ)
          → take n (drop off' (take off p ++ rest)) ≡ take n (drop off' (take off p)) =
        λ rest.
          ap (take n) (drop-append_le off' (take off p) rest (omega arith))
          ∙ take-append_le n (drop off' (take off p)) rest (omega arith) in
      cut after ∙ sym (cut (drop off p)) ∙ ap (λ q. take n (drop off' q)) (take-append-drop off p)

  back : (off' : ℕ) → off + n ≤ off' → drop off' (take off p ++ after) ≡ drop off' p
  back off' h =
      let e : off' ≡ off + (n + (off' - (off + n))) = omega arith in
      let far = off' - (off + n) in
      ap (λ a. drop a (take off p ++ after)) e
      ∙ sym (drop-drop off (n + far) (take off p ++ after))
      ∙ ap (drop (n + far)) (drop-head off p after (omega arith))
      ∙ sym (drop-drop n far after)
      ∙ ap (drop far) kept.behind
      ∙ drop-drop n far (drop off p)
      ∙ drop-drop off (n + far) p
      ∙ ap (λ a. drop a p) (sym e)

module _ (fmt : RawFormat) (layout : Layout fmt) where
  -- The value of a pixel depends on the bytes of its block alone.
  pub get_pixel-same :
      (p q : List ℕ) (row_bytes x y : ℕ)
      → IsBytes p
      → IsBytes q
      → length q ≡ length p
      → InArray fmt row_bytes x y (length p)
      → take fmt.block_bytes (drop (block_start fmt row_bytes x y) q)
        ≡ take fmt.block_bytes (drop (block_start fmt row_bytes x y) p)
      → fmt.get_pixel q row_bytes x y ≡ fmt.get_pixel p row_bytes x y
  get_pixel-same p q row_bytes x y ok ok' size inside e =
      let off = block_start fmt row_bytes x y in
      let l = length-drop off p in
      let l' = length-drop off q in
      let i = inside.0 in
      let i' = inside.1 in
      layout.located q row_bytes x y (omega arith, omega arith)
      ∙ get-same fmt.bpp fmt.block_pixels fmt.block_bytes layout.order layout.get layout.reads
          (drop off q) (drop off p) x (drop-IsBytes off q ok') (drop-IsBytes off p ok) (omega arith)
          (omega arith) e
      ∙ sym (layout.located p row_bytes x y inside)

  pub get_pixel-below :
      (p : List ℕ) (row_bytes x y : ℕ)
      → IsBytes p
      → InArray fmt row_bytes x y (length p)
      → (v : ℕ) × (fmt.get_pixel p row_bytes x y ≡ some v) × (v < 2 ^ fmt.bpp)
  unfolding Reads IsReader
  get_pixel-below p row_bytes x y ok inside =
      let off = block_start fmt row_bytes x y in
      let l = length-drop off p in
      let i = inside.0 in
      let r = layout.reads (drop off p) (drop-IsBytes off p ok) (omega arith) in
      let g =
        get-below fmt.bpp fmt.block_pixels fmt.block_bytes layout.order layout.get r.0 (drop off p)
          x layout.some_pixel r.1.0 (r.1.1 x) in
      (g.0, layout.located p row_bytes x y inside ∙ g.1, g.2)

  pub record Stored (p : List ℕ) (row_bytes width height x y v : ℕ) : Type 0 where
    pub after : List ℕ
    pub run : fmt.set_pixel p row_bytes x y v ≡ some after
    pub bytes : IsBytes after
    pub size : length after ≡ length p
    pub here : fmt.get_pixel after row_bytes x y ≡ some v
    pub elsewhere :
        (x' y' : ℕ)
        → x' < width
        → y' < height
        → (x' ≢ x) ⊎ (y' ≢ y)
        → fmt.get_pixel after row_bytes x' y' ≡ fmt.get_pixel p row_bytes x' y'

  module _ (writer : Writer fmt layout) (p : List ℕ) (row_bytes width height : ℕ) (ok : IsBytes p)
      (raster : Raster fmt row_bytes width height (length p)) where
    -- The block of the pixel after the write, and the array that it is a part of.
    block_after :
        (x y v : ℕ)
        → x < width
        → y < height
        → v < 2 ^ fmt.bpp
        → BlockWritten fmt.bpp fmt.block_pixels fmt.block_bytes layout.order layout.get layout.reads
            writer.put
            (drop (block_start fmt row_bytes x y) p)
            x
            v
    block_after x y v h k l =
        let off = block_start fmt row_bytes x y in
        let d = length-drop off p in
        let i =
          (InArray-in_image fmt row_bytes width height (length p) raster layout.some_pixel x y h
            k).0 in
        Writes-BlockWritten fmt.bpp fmt.block_pixels fmt.block_bytes layout.order layout.get
          layout.reads writer.put writer.writes layout.some_pixel (drop off p) x v
          (drop-IsBytes off p ok) (omega arith) l

    module _ (x y v : ℕ) (h : x < width) (k : y < height) (l : v < 2 ^ fmt.bpp) where
      abbrev off : ℕ
      off = block_start fmt row_bytes x y

      abbrev written :
          BlockWritten fmt.bpp fmt.block_pixels fmt.block_bytes layout.order layout.get layout.reads
            writer.put
            (drop off p)
            x
            v
      written = block_after x y v h k l

      abbrev whole : List ℕ
      whole = take off p ++ written.after

      in_image : (x' y' : ℕ) → x' < width → y' < height → InArray fmt row_bytes x' y' (length p)
      in_image = InArray-in_image fmt row_bytes width height (length p) raster layout.some_pixel

      whole-size : length whole ≡ length p
      whole-size =
          length-updated p written.after off fmt.block_bytes (in_image x y h k).0 written.kept

      -- A pixel of the written block is read from the block.
      read_block :
          (x' y' : ℕ)
          → x' < width
          → y' < height
          → block_start fmt row_bytes x' y' ≡ off
          → fmt.get_pixel whole row_bytes x' y' ≡ layout.get x' written.after
      read_block x' y' h' k' e =
          let i = in_image x' y' h' k' in
          let i' = i.0 in
          let i'' = i.1 in
          let s = whole-size in
          layout.located whole row_bytes x' y' (omega arith, omega arith)
          ∙ ap (λ a. layout.get x' (drop a whole)) e
          ∙ ap (layout.get x') (drop-head off p written.after (omega arith))

      same_block :
          (x' y' : ℕ)
          → x' < width
          → y' < height
          → (x' ≢ x) ⊎ (y' ≢ y)
          → y ≡ y'
          → x / fmt.block_pixels ≡ x' / fmt.block_pixels
          → fmt.get_pixel whole row_bytes x' y' ≡ fmt.get_pixel p row_bytes x' y'
      same_block x' y' h' k' ne ey ex =
          let e : block_start fmt row_bytes x' y' ≡ off =
            ap₂ (λ a b. a * row_bytes + b * fmt.block_bytes) (sym ey) (sym ex) in
          let q = div-add-mod' x fmt.block_pixels in
          let q' = div-add-mod' x' fmt.block_pixels in
          let quotients = ap (λ (a : ℕ). a * fmt.block_pixels) ex in
          let other : x' % fmt.block_pixels ≢ x % fmt.block_pixels =
            λ m. elim ne [ inl nx ↦ nx (omega arith) | inr ny ↦ ny (sym ey) ] in
          read_block x' y' h' k' e
          ∙ written.elsewhere x' other
          ∙ ap (λ a. layout.get x' (drop a p)) (sym e)
          ∙ sym (layout.located p row_bytes x' y' (in_image x' y' h' k'))

      other_block :
          (x' y' : ℕ)
          → x' < width
          → y' < height
          → Apart fmt row_bytes width height (length p) raster layout.some_pixel x y x' y'
          → fmt.get_pixel whole row_bytes x' y' ≡ fmt.get_pixel p row_bytes x' y'
      other_block x' y' h' k' apart =
          let i = (in_image x y h k).0 in
          let n = fmt.block_bytes in
          let off' = block_start fmt row_bytes x' y' in
          let untouched : take n (drop off' whole) ≡ take n (drop off' p) = elim apart [
            | inl b ↦ ap (take n) (back p written.after off n i written.kept off' b)
            | inr f ↦ front p written.after off n i written.kept off' f
          ] in
          get_pixel-same p whole row_bytes x' y' ok
            (take-append-IsBytes off p written.after ok written.kept.ok) whole-size
            (in_image x' y' h' k') untouched

    pub set_pixel-Stored :
        (x y v : ℕ)
        → x < width
        → y < height
        → v < 2 ^ fmt.bpp
        → Stored p row_bytes width height x y v
    set_pixel-Stored x y v h k l =
        let w = written x y v h k l in
        let o = off x y v h k l in
        record {
          after = whole x y v h k l;
          run =
              writer.stored p row_bytes x y v (in_image x y v h k l x y h k)
              ∙ ap (λ m. m >>= λ addr. some (take o p ++ addr)) w.run;
          bytes = take-append-IsBytes o p w.after ok w.kept.ok;
          size = whole-size x y v h k l;
          here = read_block x y v h k l x y h k refl ∙ w.here x refl;
          elsewhere = λ x' y' h' k' ne.
              elim (same_or_Apart fmt row_bytes width height (length p) raster layout.some_pixel x y
                x' y' h h') [
                  | inl e ↦ same_block x y v h k l x' y' h' k' ne e.0 e.1
                  | inr apart ↦ other_block x y v h k l x' y' h' k' apart
                ];
        }
