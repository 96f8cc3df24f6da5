-- ===== src/Rawimg/Packed12/BigEndian.antt =====
-- `raw_get_pixel_12b` and `raw_set_pixel_12b` on one block of 2 pixels in 3 bytes.
use chdkptp_astro.Base.{
  ℕ, zero, suc, ◌+◌, ◌*◌, ◌/◌, ◌%◌, ◌<◌, List, [], ◌∷◌, map, some, get_or, get_elem?, ◌≡◌, refl,
  arith, if◌then◌else◌, ◌==◌,
}
use chdkptp_astro.Base.Bits.{bit_and-one}
use chdkptp_astro.Rawimg.Bytes.{IsBytes, ForBytes, for_bytes, for_bytes_ok}
use chdkptp_astro.Rawimg.Digits.{AllBelow}
use chdkptp_astro.Rawimg.Fields.{or_shift4, or_low4, merge_below4, merge_cast4}
use chdkptp_astro.Rawimg.Block.{
  in_order, Digits, IsReader, IsWriter, get_or-some, WrittenAt, Reads, Writes,
}
use chdkptp_astro.Rawimg.Kept.{Keeps, Keeps-store8, Keeps-merge8, then_store8, then_merge8}
use chdkptp_astro.Rawimg.Packed12.{get_12b, set_12b, get_cases_12b, set_cases_12b}

module _ (b0 b1 b2 : ℕ) where
  abbrev values : List ℕ
  values = (b0 * 16 + b1 / 16) ∷ (b1 % 16 * 256 + b2) ∷ []

  abbrev block : List ℕ → List ℕ
  block rest = b0 ∷ b1 ∷ b2 ∷ rest

module _ (b0 b1 b2 : ℕ) (h0 : b0 < 256) (h1 : b1 < 256) (h2 : b2 < 256) (rest : List ℕ) where
  values-AllBelow : AllBelow 4096 (values b0 b1 b2)
  values-AllBelow zero l = omega arith
  values-AllBelow (suc zero) l = omega arith
  values-AllBelow (suc (suc i)) l = absurd (omega arith)

  values-Digits : Digits 12 2 3 in_order (values b0 b1 b2) (block b0 b1 b2 rest)
  values-Digits = record { count = refl; below = values-AllBelow; number = omega arith }

  get_cases-values : get_cases_12b (block b0 b1 b2 rest) ≡ map some (values b0 b1 b2)
  get_cases-values = rw (or_shift4 b0 (b1 / 16) (omega arith), or_low4 b1 b2 h1 (omega arith)) refl

  set_cases-WrittenAt :
      (i v : ℕ)
      → i < 2
      → v < 4096
      → WrittenAt 12 3 in_order
          (values b0 b1 b2)
          i
          v
          (get_or (set_cases_12b v (block b0 b1 b2 rest)) i (some (block b0 b1 b2 rest)))
  set_cases-WrittenAt zero v l k = (_, refl, omega (arith, merge_cast4 b1 v h1 (omega arith)))
  set_cases-WrittenAt (suc zero) v l k =
      (_, refl, omega (arith, merge_below4 b1 (v / 256 % 256) h1 (omega arith)))
  set_cases-WrittenAt (suc (suc i)) v l k = absurd (omega arith)

set_cases-Keeps :
    (addr : List ℕ) (i v : ℕ)
    → IsBytes addr
    → i < 2
    → Keeps 3 addr (get_or (set_cases_12b v addr) i (some addr))
set_cases-Keeps addr zero v ok l =
    then_merge8 3 addr 1 _ _ _ (omega arith) (Keeps-store8 3 addr 0 _ (omega arith) ok)
set_cases-Keeps addr (suc zero) v ok l =
    then_store8 3 addr 2 _ _ (omega arith) (Keeps-merge8 3 addr 1 _ _ (omega arith) ok)
set_cases-Keeps addr (suc (suc i)) v ok l = absurd (omega arith)

module _ (b0 b1 b2 : ℕ) (h0 : b0 < 256) (h1 : b1 < 256) (h2 : b2 < 256) (rest : List ℕ) where
  picked :
      (i : ℕ)
      → i < 2
      → (if i == 0
          then get_or (get_cases_12b (block b0 b1 b2 rest)) 0 (some 0)
          else get_or (get_cases_12b (block b0 b1 b2 rest)) 1 (some 0))
        ≡ get_elem? (values b0 b1 b2) i
  picked zero l =
      get_or-some _ (values b0 b1 b2) 0 (some 0) (get_cases-values b0 b1 b2 h0 h1 h2 rest)
        (omega arith)
  picked (suc zero) l =
      get_or-some _ (values b0 b1 b2) 1 (some 0) (get_cases-values b0 b1 b2 h0 h1 h2 rest)
        (omega arith)
  picked (suc (suc i)) l = absurd (omega arith)

pub get_12b-Reads : Reads 12 2 3 in_order get_12b
unfolding get_12b IsReader Reads ForBytes
get_12b-Reads = for_bytes 3 _ (λ b0 h0 b1 h1 b2 h2 rest. (
  values b0 b1 b2,
  (
    values-Digits b0 b1 b2 h0 h1 h2 rest,
    λ x. rw (bit_and-one x) (picked b0 b1 b2 h0 h1 h2 rest (x % 2) (omega arith)),
  ),
))

pub set_12b-Writes : Writes 12 2 3 in_order set_12b
unfolding set_12b IsWriter Writes ForBytes
set_12b-Writes = for_bytes_ok 3 _ (λ b0 h0 b1 h1 b2 h2 rest ok. (
  values b0 b1 b2,
  values-Digits b0 b1 b2 h0 h1 h2 rest,
  λ x v l.
      let w = set_cases-WrittenAt b0 b1 b2 h0 h1 h2 rest (x % 2) v (omega arith) l in
      (
        w.0,
        rw (bit_and-one x) (w.1),
        set_cases-Keeps (block b0 b1 b2 rest) (x % 2) v ok (omega arith) w.0 w.1,
        w.2,
      ),
))
