-- ===== src/Rawimg/Packed10/LittleEndian.antt =====
-- `raw_get_pixel_10l` and `raw_set_pixel_10l` on one block of 8 pixels in 10 bytes.
use chdkptp_astro.Base.{
  ℕ, zero, suc, ◌+◌, ◌*◌, ◌/◌, ◌%◌, ◌<◌, List, [], ◌∷◌, map, some, get_or, ◌≡◌, refl, arith,
}
use chdkptp_astro.Base.Bits.{bit_and_seven}
use chdkptp_astro.Rawimg.Bytes.{IsBytes, ForBytes, for_bytes, for_bytes_ok}
use chdkptp_astro.Rawimg.Digits.{AllBelow}
use chdkptp_astro.Rawimg.Fields.{
  or_left2, or_left4, or_left6, or_left8, merge_above2, merge_above4, merge_above6, merge_below2,
  merge_below4, merge_below6,
}
use chdkptp_astro.Rawimg.Block.{
  swap_pairs, Digits, IsReader, IsWriter, get_or-some, WrittenAt, Reads, Writes,
}
use chdkptp_astro.Rawimg.Kept.{Keeps, Keeps-store8, Keeps-merge8, then_store8, then_merge8}
use chdkptp_astro.Rawimg.Packed10.{get_10l, set_10l, get_cases_10l, set_cases_10l}

module _ (b0 b1 b2 b3 b4 b5 b6 b7 b8 b9 : ℕ) where
  abbrev values : List ℕ
  values =
      (b1 * 4 + b0 / 64)
      ∷ (b0 % 64 * 16 + b3 / 16)
      ∷ (b3 % 16 * 64 + b2 / 4)
      ∷ (b2 % 4 * 256 + b5)
      ∷ (b4 * 4 + b7 / 64)
      ∷ (b7 % 64 * 16 + b6 / 16)
      ∷ (b6 % 16 * 64 + b9 / 4)
      ∷ (b9 % 4 * 256 + b8)
      ∷ []

  abbrev block : List ℕ → List ℕ
  block rest = b0 ∷ b1 ∷ b2 ∷ b3 ∷ b4 ∷ b5 ∷ b6 ∷ b7 ∷ b8 ∷ b9 ∷ rest

module _ (b0 b1 b2 b3 b4 b5 b6 b7 b8 b9 : ℕ) (h0 : b0 < 256) (h1 : b1 < 256) (h2 : b2 < 256)
    (h3 : b3 < 256) (h4 : b4 < 256) (h5 : b5 < 256) (h6 : b6 < 256) (h7 : b7 < 256) (h8 : b8 < 256)
    (h9 : b9 < 256) (rest : List ℕ) where
  values-AllBelow : AllBelow 1024 (values b0 b1 b2 b3 b4 b5 b6 b7 b8 b9)
  values-AllBelow zero l = omega arith
  values-AllBelow (suc zero) l = omega arith
  values-AllBelow (suc (suc zero)) l = omega arith
  values-AllBelow (suc (suc (suc zero))) l = omega arith
  values-AllBelow (suc (suc (suc (suc zero)))) l = omega arith
  values-AllBelow (suc (suc (suc (suc (suc zero))))) l = omega arith
  values-AllBelow (suc (suc (suc (suc (suc (suc zero)))))) l = omega arith
  values-AllBelow (suc (suc (suc (suc (suc (suc (suc zero))))))) l = omega arith
  values-AllBelow (suc (suc (suc (suc (suc (suc (suc (suc i)))))))) l = absurd (omega arith)

  values-Digits :
      Digits 10 8 10 swap_pairs
        (values b0 b1 b2 b3 b4 b5 b6 b7 b8 b9)
        (block b0 b1 b2 b3 b4 b5 b6 b7 b8 b9 rest)
  values-Digits = record { count = refl; below = values-AllBelow; number = omega arith }

  get_cases-values :
      get_cases_10l (block b0 b1 b2 b3 b4 b5 b6 b7 b8 b9 rest)
      ≡ map some (values b0 b1 b2 b3 b4 b5 b6 b7 b8 b9)
  get_cases-values =
      rw
        (
          or_left2 b1 (b0 / 64) h1 (omega arith),
          or_left4 b0 (b3 / 16) h0 (omega arith),
          or_left6 b3 (b2 / 4) h3 (omega arith),
          or_left8 b2 b5 h2 (omega arith),
          or_left2 b4 (b7 / 64) h4 (omega arith),
          or_left4 b7 (b6 / 16) h7 (omega arith),
          or_left6 b6 (b9 / 4) h6 (omega arith),
          or_left8 b9 b8 h9 (omega arith),
        )
        refl

  set_cases-WrittenAt :
      (i v : ℕ)
      → i < 8
      → v < 1024
      → WrittenAt 10 10 swap_pairs (values b0 b1 b2 b3 b4 b5 b6 b7 b8 b9) i v (
          get_or
            (set_cases_10l v (block b0 b1 b2 b3 b4 b5 b6 b7 b8 b9 rest))
            i
            (some (block b0 b1 b2 b3 b4 b5 b6 b7 b8 b9 rest)))
  set_cases-WrittenAt zero v l k = (_, refl, omega (arith, merge_above6 b0 v h0 (omega arith)))
  set_cases-WrittenAt (suc zero) v l k = (
    _,
    refl,
    omega (arith, merge_below6 b0 (v / 16) h0 (omega arith), merge_above4 b3 v h3 (omega arith)),
  )
  set_cases-WrittenAt (suc (suc zero)) v l k = (
    _,
    refl,
    omega (arith, merge_above2 b2 v h2 (omega arith), merge_below4 b3 (v / 64) h3 (omega arith)),
  )
  set_cases-WrittenAt (suc (suc (suc zero))) v l k =
      (_, refl, omega (arith, merge_below2 b2 (v / 256) h2 (omega arith)))
  set_cases-WrittenAt (suc (suc (suc (suc zero)))) v l k =
      (_, refl, omega (arith, merge_above6 b7 v h7 (omega arith)))
  set_cases-WrittenAt (suc (suc (suc (suc (suc zero))))) v l k = (
    _,
    refl,
    omega (arith, merge_above4 b6 v h6 (omega arith), merge_below6 b7 (v / 16) h7 (omega arith)),
  )
  set_cases-WrittenAt (suc (suc (suc (suc (suc (suc zero)))))) v l k = (
    _,
    refl,
    omega (arith, merge_below4 b6 (v / 64) h6 (omega arith), merge_above2 b9 v h9 (omega arith)),
  )
  set_cases-WrittenAt (suc (suc (suc (suc (suc (suc (suc zero))))))) v l k =
      (_, refl, omega (arith, merge_below2 b9 (v / 256) h9 (omega arith)))
  set_cases-WrittenAt (suc (suc (suc (suc (suc (suc (suc (suc i)))))))) v l k = absurd (omega arith)

set_cases-Keeps :
    (addr : List ℕ) (i v : ℕ)
    → IsBytes addr
    → i < 8
    → Keeps 10 addr (get_or (set_cases_10l v addr) i (some addr))
set_cases-Keeps addr zero v ok l =
    then_store8 10 addr 1 _ _ (omega arith) (Keeps-merge8 10 addr 0 _ _ (omega arith) ok)
set_cases-Keeps addr (suc zero) v ok l =
    then_merge8 10 addr 3 _ _ _ (omega arith) (Keeps-merge8 10 addr 0 _ _ (omega arith) ok)
set_cases-Keeps addr (suc (suc zero)) v ok l =
    then_merge8 10 addr 3 _ _ _ (omega arith) (Keeps-merge8 10 addr 2 _ _ (omega arith) ok)
set_cases-Keeps addr (suc (suc (suc zero))) v ok l =
    then_store8 10 addr 5 _ _ (omega arith) (Keeps-merge8 10 addr 2 _ _ (omega arith) ok)
set_cases-Keeps addr (suc (suc (suc (suc zero)))) v ok l =
    then_merge8 10 addr 7 _ _ _ (omega arith) (Keeps-store8 10 addr 4 _ (omega arith) ok)
set_cases-Keeps addr (suc (suc (suc (suc (suc zero))))) v ok l =
    then_merge8 10 addr 7 _ _ _ (omega arith) (Keeps-merge8 10 addr 6 _ _ (omega arith) ok)
set_cases-Keeps addr (suc (suc (suc (suc (suc (suc zero)))))) v ok l =
    then_merge8 10 addr 9 _ _ _ (omega arith) (Keeps-merge8 10 addr 6 _ _ (omega arith) ok)
set_cases-Keeps addr (suc (suc (suc (suc (suc (suc (suc zero))))))) v ok l =
    then_merge8 10 addr 9 _ _ _ (omega arith) (Keeps-store8 10 addr 8 _ (omega arith) ok)
set_cases-Keeps addr (suc (suc (suc (suc (suc (suc (suc (suc i)))))))) v ok l = absurd (omega arith)

pub get_10l-Reads : Reads 10 8 10 swap_pairs get_10l
unfolding get_10l IsReader Reads ForBytes
get_10l-Reads = for_bytes 10 _ (λ b0 h0 b1 h1 b2 h2 b3 h3 b4 h4 b5 h5 b6 h6 b7 h7 b8 h8 b9 h9 rest.
    (
      values b0 b1 b2 b3 b4 b5 b6 b7 b8 b9,
      (
        values-Digits b0 b1 b2 b3 b4 b5 b6 b7 b8 b9 h0 h1 h2 h3 h4 h5 h6 h7 h8 h9 rest,
        λ x. rw (bit_and_seven x) (
            get_or-some _ (values b0 b1 b2 b3 b4 b5 b6 b7 b8 b9) (x % 8) (some 0)
              (get_cases-values b0 b1 b2 b3 b4 b5 b6 b7 b8 b9 h0 h1 h2 h3 h4 h5 h6 h7 h8 h9 rest)
              (omega arith)),
      ),
    ))

pub set_10l-Writes : Writes 10 8 10 swap_pairs set_10l
unfolding set_10l IsWriter Writes ForBytes
set_10l-Writes =
    for_bytes_ok 10 _ (λ b0 h0 b1 h1 b2 h2 b3 h3 b4 h4 b5 h5 b6 h6 b7 h7 b8 h8 b9 h9 rest ok. (
      values b0 b1 b2 b3 b4 b5 b6 b7 b8 b9,
      values-Digits b0 b1 b2 b3 b4 b5 b6 b7 b8 b9 h0 h1 h2 h3 h4 h5 h6 h7 h8 h9 rest,
      λ x v l.
          let w =
            set_cases-WrittenAt b0 b1 b2 b3 b4 b5 b6 b7 b8 b9 h0 h1 h2 h3 h4 h5 h6 h7 h8 h9 rest
              (x % 8) v (omega arith) l in
          (
            w.0,
            rw (bit_and_seven x) (w.1),
            set_cases-Keeps (block b0 b1 b2 b3 b4 b5 b6 b7 b8 b9 rest) (x % 8) v ok (omega arith)
                w.0 w.1,
            w.2,
          ),
    ))
