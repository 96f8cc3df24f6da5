-- ===== src/Rawimg/Packed12/LittleEndian.antt =====
-- `raw_get_pixel_12l` and `raw_set_pixel_12l` on one block of 4 pixels in 6 bytes.
use chdkptp_astro.Base.{
  ℕ, zero, suc, ◌+◌, ◌*◌, ◌/◌, ◌%◌, ◌<◌, List, [], ◌∷◌, map, some, get_or, ◌≡◌, refl, arith,
}
use chdkptp_astro.Base.Bits.{bit_and_three}
use chdkptp_astro.Rawimg.Bytes.{IsBytes, ForBytes, for_bytes, for_bytes_ok}
use chdkptp_astro.Rawimg.Digits.{AllBelow}
use chdkptp_astro.Rawimg.Fields.{or_shift4, or_low4, merge_above4, merge_below4}
use chdkptp_astro.Rawimg.Block.{
  swap_pairs, Digits, IsReader, IsWriter, get_or-some, WrittenAt, Reads, Writes,
}
use chdkptp_astro.Rawimg.Kept.{Keeps, Keeps-store8, Keeps-merge8, then_store8, then_merge8}
use chdkptp_astro.Rawimg.Packed12.{get_12l, set_12l, get_cases_12l, set_cases_12l}

module _ (b0 b1 b2 b3 b4 b5 : ℕ) where
  abbrev values : List ℕ
  values =
      (b1 * 16 + b0 / 16) ∷ (b0 % 16 * 256 + b3) ∷ (b2 * 16 + b5 / 16) ∷ (b5 % 16 * 256 + b4) ∷ []

  abbrev block : List ℕ → List ℕ
  block rest = b0 ∷ b1 ∷ b2 ∷ b3 ∷ b4 ∷ b5 ∷ rest

module _ (b0 b1 b2 b3 b4 b5 : ℕ) (h0 : b0 < 256) (h1 : b1 < 256) (h2 : b2 < 256) (h3 : b3 < 256)
    (h4 : b4 < 256) (h5 : b5 < 256) (rest : List ℕ) where
  values-AllBelow : AllBelow 4096 (values b0 b1 b2 b3 b4 b5)
  values-AllBelow zero l = omega arith
  values-AllBelow (suc zero) l = omega arith
  values-AllBelow (suc (suc zero)) l = omega arith
  values-AllBelow (suc (suc (suc zero))) l = omega arith
  values-AllBelow (suc (suc (suc (suc i)))) l = absurd (omega arith)

  values-Digits : Digits 12 4 6 swap_pairs (values b0 b1 b2 b3 b4 b5) (block b0 b1 b2 b3 b4 b5 rest)
  values-Digits = record { count = refl; below = values-AllBelow; number = omega arith }

  get_cases-values :
      get_cases_12l (block b0 b1 b2 b3 b4 b5 rest) ≡ map some (values b0 b1 b2 b3 b4 b5)
  get_cases-values =
      rw
        (
          or_shift4 b1 (b0 / 16) (omega arith),
          or_low4 b0 b3 h0 (omega arith),
          or_shift4 b2 (b5 / 16) (omega arith),
          or_low4 b5 b4 h5 (omega arith),
        )
        refl

  set_cases-WrittenAt :
      (i v : ℕ)
      → i < 4
      → v < 4096
      → WrittenAt 12 6 swap_pairs (values b0 b1 b2 b3 b4 b5) i v (
          get_or
            (set_cases_12l v (block b0 b1 b2 b3 b4 b5 rest))
            i
            (some (block b0 b1 b2 b3 b4 b5 rest)))
  set_cases-WrittenAt zero v l k = (_, refl, omega (arith, merge_above4 b0 v h0 (omega arith)))
  set_cases-WrittenAt (suc zero) v l k =
      (_, refl, omega (arith, merge_below4 b0 (v / 256) h0 (omega arith)))
  set_cases-WrittenAt (suc (suc zero)) v l k =
      (_, refl, omega (arith, merge_above4 b5 v h5 (omega arith)))
  set_cases-WrittenAt (suc (suc (suc zero))) v l k =
      (_, refl, omega (arith, merge_below4 b5 (v / 256) h5 (omega arith)))
  set_cases-WrittenAt (suc (suc (suc (suc i)))) v l k = absurd (omega arith)

set_cases-Keeps :
    (addr : List ℕ) (i v : ℕ)
    → IsBytes addr
    → i < 4
    → Keeps 6 addr (get_or (set_cases_12l v addr) i (some addr))
set_cases-Keeps addr zero v ok l =
    then_store8 6 addr 1 _ _ (omega arith) (Keeps-merge8 6 addr 0 _ _ (omega arith) ok)
set_cases-Keeps addr (suc zero) v ok l =
    then_store8 6 addr 3 _ _ (omega arith) (Keeps-merge8 6 addr 0 _ _ (omega arith) ok)
set_cases-Keeps addr (suc (suc zero)) v ok l =
    then_merge8 6 addr 5 _ _ _ (omega arith) (Keeps-store8 6 addr 2 _ (omega arith) ok)
set_cases-Keeps addr (suc (suc (suc zero))) v ok l =
    then_merge8 6 addr 5 _ _ _ (omega arith) (Keeps-store8 6 addr 4 _ (omega arith) ok)
set_cases-Keeps addr (suc (suc (suc (suc i)))) v ok l = absurd (omega arith)

pub get_12l-Reads : Reads 12 4 6 swap_pairs get_12l
unfolding get_12l IsReader Reads ForBytes
get_12l-Reads = for_bytes 6 _ (λ b0 h0 b1 h1 b2 h2 b3 h3 b4 h4 b5 h5 rest. (
  values b0 b1 b2 b3 b4 b5,
  (
    values-Digits b0 b1 b2 b3 b4 b5 h0 h1 h2 h3 h4 h5 rest,
    λ x. rw (bit_and_three x) (
        get_or-some _ (values b0 b1 b2 b3 b4 b5) (x % 4) (some 0)
          (get_cases-values b0 b1 b2 b3 b4 b5 h0 h1 h2 h3 h4 h5 rest) (omega arith)),
  ),
))

pub set_12l-Writes : Writes 12 4 6 swap_pairs set_12l
unfolding set_12l IsWriter Writes ForBytes
set_12l-Writes = for_bytes_ok 6 _ (λ b0 h0 b1 h1 b2 h2 b3 h3 b4 h4 b5 h5 rest ok. (
  values b0 b1 b2 b3 b4 b5,
  values-Digits b0 b1 b2 b3 b4 b5 h0 h1 h2 h3 h4 h5 rest,
  λ x v l.
      let w =
        set_cases-WrittenAt b0 b1 b2 b3 b4 b5 h0 h1 h2 h3 h4 h5 rest (x % 4) v (omega arith) l in
      (
        w.0,
        rw (bit_and_three x) (w.1),
        set_cases-Keeps (block b0 b1 b2 b3 b4 b5 rest) (x % 4) v ok (omega arith) w.0 w.1,
        w.2,
      ),
))
