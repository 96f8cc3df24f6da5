-- ===== src/Rawimg/Packed14/BigEndian.antt =====
-- `raw_get_pixel_14b` and `raw_set_pixel_14b` on one block of 4 pixels in 7 bytes.
use chdkptp_astro.Base.{
  ℕ, zero, suc, ◌+◌, ◌*◌, ◌/◌, ◌%◌, ◌<◌, List, [], ◌∷◌, map, some, get_or, ◌≡◌, refl, arith,
}
use chdkptp_astro.Rawimg.Bytes.{IsBytes, ForBytes, for_bytes}
use chdkptp_astro.Rawimg.Digits.{AllBelow}
use chdkptp_astro.Rawimg.Fields.{
  or_shift6, or_low6, or_three2, or_three4, merge_above2, merge_above4, merge_above6, merge_below2,
  merge_below4, merge_below6,
}
use chdkptp_astro.Rawimg.Block.{in_order, Digits, IsReader, get_or-some, WrittenAt, Reads}
use chdkptp_astro.Rawimg.Kept.{Keeps, Keeps-merge8, then_store8, then_merge8}
use chdkptp_astro.Rawimg.Packed14.{get_14b, get_cases_14b, set_cases_14b}

module _ (b0 b1 b2 b3 b4 b5 b6 : ℕ) where
  abbrev values : List ℕ
  values =
      (b0 * 64 + b1 / 4)
      ∷ (b1 % 4 * 4096 + b2 * 16 + b3 / 16)
      ∷ (b3 % 16 * 1024 + b4 * 4 + b5 / 64)
      ∷ (b5 % 64 * 256 + b6)
      ∷ []

  abbrev block : List ℕ → List ℕ
  block rest = b0 ∷ b1 ∷ b2 ∷ b3 ∷ b4 ∷ b5 ∷ b6 ∷ rest

module _ (b0 b1 b2 b3 b4 b5 b6 : ℕ) (h0 : b0 < 256) (h1 : b1 < 256) (h2 : b2 < 256) (h3 : b3 < 256)
    (h4 : b4 < 256) (h5 : b5 < 256) (h6 : b6 < 256) (rest : List ℕ) where
  values-AllBelow : AllBelow 16384 (values b0 b1 b2 b3 b4 b5 b6)
  values-AllBelow zero l = omega arith
  values-AllBelow (suc zero) l = omega arith
  values-AllBelow (suc (suc zero)) l = omega arith
  values-AllBelow (suc (suc (suc zero))) l = omega arith
  values-AllBelow (suc (suc (suc (suc i)))) l = absurd (omega arith)

  values-Digits :
      Digits 14 4 7 in_order (values b0 b1 b2 b3 b4 b5 b6) (block b0 b1 b2 b3 b4 b5 b6 rest)
  values-Digits = record { count = refl; below = values-AllBelow; number = omega arith }

  get_cases-values :
      get_cases_14b (block b0 b1 b2 b3 b4 b5 b6 rest) ≡ map some (values b0 b1 b2 b3 b4 b5 b6)
  get_cases-values =
      rw
        (
          or_shift6 b0 (b1 / 4) (omega arith),
          or_three4 b1 b2 (b3 / 16) h1 h2 (omega arith),
          or_three2 b3 b4 (b5 / 64) h3 h4 (omega arith),
          or_low6 b5 b6 h5 (omega arith),
        )
        refl

  set_cases-WrittenAt :
      (i v : ℕ)
      → i < 4
      → v < 16384
      → WrittenAt 14 7 in_order (values b0 b1 b2 b3 b4 b5 b6) i v (
          get_or
            (set_cases_14b v (block b0 b1 b2 b3 b4 b5 b6 rest))
            i
            (some (block b0 b1 b2 b3 b4 b5 b6 rest)))
  set_cases-WrittenAt zero v l k = (_, refl, omega (arith, merge_above2 b1 v h1 (omega arith)))
  set_cases-WrittenAt (suc zero) v l k = (
    _,
    refl,
    omega (arith, merge_below2 b1 (v / 4096) h1 (omega arith), merge_above4 b3 v h3 (omega arith)),
  )
  set_cases-WrittenAt (suc (suc zero)) v l k = (
    _,
    refl,
    omega (arith, merge_below4 b3 (v / 1024) h3 (omega arith), merge_above6 b5 v h5 (omega arith)),
  )
  set_cases-WrittenAt (suc (suc (suc zero))) v l k =
      (_, refl, omega (arith, merge_below6 b5 (v / 256) h5 (omega arith)))
  set_cases-WrittenAt (suc (suc (suc (suc i)))) v l k = absurd (omega arith)

set_cases-Keeps :
    (addr : List ℕ) (i v : ℕ)
    → IsBytes addr
    → i < 4
    → Keeps 7 addr (get_or (set_cases_14b v addr) i (some addr))
set_cases-Keeps addr zero v ok l =
    then_store8 7 addr 0 _ _ (omega arith) (Keeps-merge8 7 addr 1 _ _ (omega arith) ok)
set_cases-Keeps addr (suc zero) v ok l =
    then_store8 7 addr 2 _ _ (omega arith)
      (then_merge8 7 addr 3 _ _ _ (omega arith) (Keeps-merge8 7 addr 1 _ _ (omega arith) ok))
set_cases-Keeps addr (suc (suc zero)) v ok l =
    then_store8 7 addr 4 _ _ (omega arith)
      (then_merge8 7 addr 5 _ _ _ (omega arith) (Keeps-merge8 7 addr 3 _ _ (omega arith) ok))
set_cases-Keeps addr (suc (suc (suc zero))) v ok l =
    then_store8 7 addr 6 _ _ (omega arith) (Keeps-merge8 7 addr 5 _ _ (omega arith) ok)
set_cases-Keeps addr (suc (suc (suc (suc i)))) v ok l = absurd (omega arith)

pub get_14b-Reads : Reads 14 4 7 in_order get_14b
unfolding get_14b IsReader Reads ForBytes
get_14b-Reads = for_bytes 7 _ (λ b0 h0 b1 h1 b2 h2 b3 h3 b4 h4 b5 h5 b6 h6 rest. (
  values b0 b1 b2 b3 b4 b5 b6,
  (
    values-Digits b0 b1 b2 b3 b4 b5 b6 h0 h1 h2 h3 h4 h5 h6 rest,
    λ x.
        get_or-some _ (values b0 b1 b2 b3 b4 b5 b6) (x % 4) (some 0)
          (get_cases-values b0 b1 b2 b3 b4 b5 b6 h0 h1 h2 h3 h4 h5 h6 rest) (omega arith),
  ),
))
