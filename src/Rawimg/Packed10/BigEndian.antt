-- ===== src/Rawimg/Packed10/BigEndian.antt =====
-- `raw_get_pixel_10b` and `raw_set_pixel_10b` on one block of 4 pixels in 5 bytes.
use chdkptp_astro.Base.{
  ℕ, zero, suc, ◌+◌, ◌*◌, ◌/◌, ◌%◌, ◌<◌, List, [], ◌∷◌, map, some, get_or, ◌≡◌, refl, arith,
}
use chdkptp_astro.Base.Bits.{bit_and_three}
use chdkptp_astro.Rawimg.Bytes.{IsBytes, ForBytes, for_bytes, for_bytes_ok}
use chdkptp_astro.Rawimg.Digits.{AllBelow}
use chdkptp_astro.Rawimg.Fields.{
  or_left2, or_left4, or_left6, or_left8, merge_above2, merge_above4, merge_above6, merge_below2,
  merge_below4, merge_below6,
}
use chdkptp_astro.Rawimg.Block.{
  in_order, Digits, IsReader, IsWriter, get_or-some, WrittenAt, Reads, Writes,
}
use chdkptp_astro.Rawimg.Kept.{Keeps, Keeps-store8, Keeps-merge8, then_store8, then_merge8}
use chdkptp_astro.Rawimg.Packed10.{get_10b, set_10b, get_cases_10b, set_cases_10b}

module _ (b0 b1 b2 b3 b4 : ℕ) where
  abbrev values : List ℕ
  values =
      (b0 * 4 + b1 / 64)
      ∷ (b1 % 64 * 16 + b2 / 16)
      ∷ (b2 % 16 * 64 + b3 / 4)
      ∷ (b3 % 4 * 256 + b4)
      ∷ []

  abbrev block : List ℕ → List ℕ
  block rest = b0 ∷ b1 ∷ b2 ∷ b3 ∷ b4 ∷ rest

module _ (b0 b1 b2 b3 b4 : ℕ) (h0 : b0 < 256) (h1 : b1 < 256) (h2 : b2 < 256) (h3 : b3 < 256)
    (h4 : b4 < 256) (rest : List ℕ) where
  values-AllBelow : AllBelow 1024 (values b0 b1 b2 b3 b4)
  values-AllBelow zero l = omega arith
  values-AllBelow (suc zero) l = omega arith
  values-AllBelow (suc (suc zero)) l = omega arith
  values-AllBelow (suc (suc (suc zero))) l = omega arith
  values-AllBelow (suc (suc (suc (suc i)))) l = absurd (omega arith)

  values-Digits : Digits 10 4 5 in_order (values b0 b1 b2 b3 b4) (block b0 b1 b2 b3 b4 rest)
  values-Digits = record { count = refl; below = values-AllBelow; number = omega arith }

  get_cases-values : get_cases_10b (block b0 b1 b2 b3 b4 rest) ≡ map some (values b0 b1 b2 b3 b4)
  get_cases-values =
      rw
        (
          or_left2 b0 (b1 / 64) h0 (omega arith),
          or_left4 b1 (b2 / 16) h1 (omega arith),
          or_left6 b2 (b3 / 4) h2 (omega arith),
          or_left8 b3 b4 h3 (omega arith),
        )
        refl

  set_cases-WrittenAt :
      (i v : ℕ)
      → i < 4
      → v < 1024
      → WrittenAt 10 5 in_order (values b0 b1 b2 b3 b4) i v (
          get_or (set_cases_10b v (block b0 b1 b2 b3 b4 rest)) i (some (block b0 b1 b2 b3 b4 rest)))
  set_cases-WrittenAt zero v l k = (_, refl, omega (arith, merge_above6 b1 v h1 (omega arith)))
  set_cases-WrittenAt (suc zero) v l k = (
    _,
    refl,
    omega (arith, merge_below6 b1 (v / 16) h1 (omega arith), merge_above4 b2 v h2 (omega arith)),
  )
  set_cases-WrittenAt (suc (suc zero)) v l k = (
    _,
    refl,
    omega (arith, merge_above2 b3 v h3 (omega arith), merge_below4 b2 (v / 64) h2 (omega arith)),
  )
  set_cases-WrittenAt (suc (suc (suc zero))) v l k =
      (_, refl, omega (arith, merge_below2 b3 (v / 256) h3 (omega arith)))
  set_cases-WrittenAt (suc (suc (suc (suc i)))) v l k = absurd (omega arith)

set_cases-Keeps :
    (addr : List ℕ) (i v : ℕ)
    → IsBytes addr
    → i < 4
    → Keeps 5 addr (get_or (set_cases_10b v addr) i (some addr))
set_cases-Keeps addr zero v ok l =
    then_merge8 5 addr 1 _ _ _ (omega arith) (Keeps-store8 5 addr 0 _ (omega arith) ok)
set_cases-Keeps addr (suc zero) v ok l =
    then_merge8 5 addr 2 _ _ _ (omega arith) (Keeps-merge8 5 addr 1 _ _ (omega arith) ok)
set_cases-Keeps addr (suc (suc zero)) v ok l =
    then_merge8 5 addr 2 _ _ _ (omega arith) (Keeps-merge8 5 addr 3 _ _ (omega arith) ok)
set_cases-Keeps addr (suc (suc (suc zero))) v ok l =
    then_store8 5 addr 4 _ _ (omega arith) (Keeps-merge8 5 addr 3 _ _ (omega arith) ok)
set_cases-Keeps addr (suc (suc (suc (suc i)))) v ok l = absurd (omega arith)

pub get_10b-Reads : Reads 10 4 5 in_order get_10b
unfolding get_10b IsReader Reads ForBytes
get_10b-Reads = for_bytes 5 _ (λ b0 h0 b1 h1 b2 h2 b3 h3 b4 h4 rest. (
  values b0 b1 b2 b3 b4,
  (
    values-Digits b0 b1 b2 b3 b4 h0 h1 h2 h3 h4 rest,
    λ x. rw (bit_and_three x) (
        get_or-some _ (values b0 b1 b2 b3 b4) (x % 4) (some 0)
          (get_cases-values b0 b1 b2 b3 b4 h0 h1 h2 h3 h4 rest) (omega arith)),
  ),
))

pub set_10b-Writes : Writes 10 4 5 in_order set_10b
unfolding set_10b IsWriter Writes ForBytes
set_10b-Writes = for_bytes_ok 5 _ (λ b0 h0 b1 h1 b2 h2 b3 h3 b4 h4 rest ok. (
  values b0 b1 b2 b3 b4,
  values-Digits b0 b1 b2 b3 b4 h0 h1 h2 h3 h4 rest,
  λ x v l.
      let w = set_cases-WrittenAt b0 b1 b2 b3 b4 h0 h1 h2 h3 h4 rest (x % 4) v (omega arith) l in
      (
        w.0,
        rw (bit_and_three x) (w.1),
        set_cases-Keeps (block b0 b1 b2 b3 b4 rest) (x % 4) v ok (omega arith) w.0 w.1,
        w.2,
      ),
))
