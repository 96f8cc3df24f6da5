-- ===== src/Rawimg/Block/Written.antt =====
-- Reading a block after a write, for every format at once.
use chdkptp_astro.Base.{
  ℕ, zero, suc, ◌%◌, ◌^◌, ◌<◌, ◌≤◌, List, [], ◌∷◌, Option, some, get_elem?, get_or, set, take,
  length, length-set, ◌≡◌, ◌≢◌, refl, ap, ap₂, sym, ◌∙◌, arith, get_or-set_self, get_or-set_ne,
  get_elem?-eq-get_or,
}
use native.Mathlib.Nat.{mod-lt}
use chdkptp_astro.Rawimg.Bytes.{IsBytes}
use chdkptp_astro.Rawimg.Digits.{value, AllBelow, digits_unique}
use chdkptp_astro.Rawimg.Block.{Digits, IsReader, IsWriter, Reads, Writes, Kept}

get_elem?-set_self : (xs : List ℕ) (i v : ℕ) → i < length xs → get_elem? (set xs i v) i ≡ some v
get_elem?-set_self xs i v h =
    let l = length-set xs i v in
    get_elem?-eq-get_or (set xs i v) i 0 (omega arith) ∙ ap some (get_or-set_self xs i v 0 h)

get_elem?-set_ne :
    (xs : List ℕ) (i j v : ℕ) → j < length xs → i ≢ j → get_elem? (set xs i v) j ≡ get_elem? xs j
get_elem?-set_ne xs i j v h ne =
    let l = length-set xs i v in
    get_elem?-eq-get_or (set xs i v) j 0 (omega arith)
    ∙ ap some (get_or-set_ne xs i j v 0 ne)
    ∙ sym (get_elem?-eq-get_or xs j 0 h)

set-AllBelow :
    (base : ℕ) (xs : List ℕ) (i v : ℕ) → AllBelow base xs → v < base → AllBelow base (set xs i v)
set-AllBelow base [] i v h k j l = absurd (omega arith)
set-AllBelow base (x ∷ xs) zero v h k zero l = k
set-AllBelow base (x ∷ xs) zero v h k (suc j) l = h (suc j) (omega arith)
set-AllBelow base (x ∷ xs) (suc i) v h k zero l = h 0 (omega arith)
set-AllBelow base (x ∷ xs) (suc i) v h k (suc j) l =
    set-AllBelow base xs i v (λ n m. h (suc n) (omega arith)) k j (omega arith)

module _ (bpp pixels bytes : ℕ) (order : List ℕ → List ℕ) where
  -- The digits are those of the block's bytes alone.
  pub Digits-unique :
      (values values' a b : List ℕ)
      → Digits bpp pixels bytes order values a
      → Digits bpp pixels bytes order values' b
      → take bytes a ≡ take bytes b
      → values ≡ values'
  Digits-unique values values' a b d d' e =
      let c = d.count in
      let c' = d'.count in
      (digits_unique (2 ^ bpp) 0 0 values values' d.below d'.below (omega arith)
        (d.number ∙ ap (λ bs. value 256 0 (order bs)) e ∙ sym d'.number)).1

  -- A read gets one digit: a number of `bpp` bits.
  pub get-below :
      (get : ℕ → List ℕ → Option ℕ) (values addr : List ℕ) (x : ℕ)
      → 0 < pixels
      → Digits bpp pixels bytes order values addr
      → get x addr ≡ get_elem? values (x % pixels)
      → (v : ℕ) × (get x addr ≡ some v) × (v < 2 ^ bpp)
  get-below get values addr x some_pixel d e =
      let c = d.count in
      let i = mod-lt x some_pixel in
      (
        get_or values (x % pixels) 0,
        e ∙ get_elem?-eq-get_or values (x % pixels) 0 (omega arith),
        d.below (x % pixels) (omega arith),
      )

  module _ (get : ℕ → List ℕ → Option ℕ) (reads : Reads bpp pixels bytes order get) where
    -- A read depends on the bytes of the block alone.
    pub get-same :
        (a b : List ℕ) (x : ℕ)
        → IsBytes a
        → IsBytes b
        → bytes ≤ length a
        → bytes ≤ length b
        → take bytes a ≡ take bytes b
        → get x a ≡ get x b
    unfolding Reads IsReader
    get-same a b x ok ok' h h' e =
        let r = reads a ok h in
        let r' = reads b ok' h' in
        r.1.1 x
        ∙ ap (λ vs. get_elem? vs (x % pixels)) (Digits-unique r.0 r'.0 a b r.1.0 r'.1.0 e)
        ∙ sym (r'.1.1 x)

    -- A write to a pixel of the block is read there, and the other pixels are as before.
    pub record BlockWritten (put : ℕ → ℕ → List ℕ → Option (List ℕ)) (addr : List ℕ) (x v : ℕ)
        : Type 0 where
      pub after : List ℕ
      pub run : put x v addr ≡ some after
      pub kept : Kept bytes addr after
      pub here : (x' : ℕ) → x' % pixels ≡ x % pixels → get x' after ≡ some v
      pub elsewhere : (x' : ℕ) → x' % pixels ≢ x % pixels → get x' after ≡ get x' addr

    pub Writes-BlockWritten :
        (put : ℕ → ℕ → List ℕ → Option (List ℕ))
        → Writes bpp pixels bytes order put
        → 0 < pixels
        → (addr : List ℕ) (x v : ℕ) → IsBytes addr
        → bytes ≤ length addr
        → v < 2 ^ bpp
        → BlockWritten put addr x v
    unfolding Reads IsReader Writes IsWriter
    Writes-BlockWritten put writes some_pixel addr x v ok h l =
        let w = writes addr ok h in
        let one = w.2 x v l in
        let kept = one.2 in
        let size = kept.size in
        let r = reads addr ok h in
        let r' = reads one.0 kept.ok (omega arith) in
        let c = w.1.count in
        let i = mod-lt x some_pixel in
        let new : Digits bpp pixels bytes order (set w.0 (x % pixels) v) one.0 = record {
          count = length-set w.0 (x % pixels) v ∙ c;
          below = set-AllBelow (2 ^ bpp) w.0 (x % pixels) v w.1.below l;
          number = one.3;
        } in
        let old = Digits-unique r.0 w.0 addr addr r.1.0 w.1 refl in
        let now = Digits-unique r'.0 (set w.0 (x % pixels) v) one.0 one.0 r'.1.0 new refl in
        record {
          after = one.0;
          run = one.1;
          kept = kept;
          here = λ x' e.
              r'.1.1 x' ∙ ap₂ get_elem? now e ∙ get_elem?-set_self w.0 (x % pixels) v (omega arith);
          elsewhere = λ x' ne.
              let j = mod-lt x' some_pixel in
              r'.1.1 x'
              ∙ ap (λ vs. get_elem? vs (x' % pixels)) now
              ∙ get_elem?-set_ne w.0 (x % pixels) (x' % pixels) v (omega arith) (λ e. ne (sym e))
              ∙ ap (λ vs. get_elem? vs (x' % pixels)) (sym old)
              ∙ sym (r.1.1 x');
        }
