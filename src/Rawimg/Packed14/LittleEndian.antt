-- ===== src/Rawimg/Packed14/LittleEndian.antt =====
-- `raw_get_pixel_14l` and `raw_set_pixel_14l` on one block of 8 pixels in 14 bytes.
use chdkptp_astro.Base.{
  ℕ, zero, suc, ◌+◌, ◌*◌, ◌/◌, ◌%◌, ◌<◌, List, [], ◌∷◌, map, some, get_or, ◌≡◌, refl, arith,
}
use chdkptp_astro.Rawimg.Bytes.{IsBytes, ForBytes, for_bytes, for_bytes_ok}
use chdkptp_astro.Rawimg.Digits.{AllBelow}
use chdkptp_astro.Rawimg.Fields.{
  or_shift6, or_low6, or_three2, or_three4, merge_above2, merge_above4, merge_above6, merge_below2,
  merge_below4, merge_below6,
}
use chdkptp_astro.Rawimg.Block.{
  swap_pairs, Digits, IsReader, IsWriter, get_or-some, WrittenAt, Reads, Writes,
}
use chdkptp_astro.Rawimg.Kept.{Keeps, Keeps-store8, Keeps-merge8, then_store8, then_merge8}
use chdkptp_astro.Rawimg.Packed14.{get_14l, set_14l, get_cases_14l, set_cases_14l}

module _ (b0 b1 b2 b3 b4 b5 b6 b7 b8 b9 b10 b11 b12 b13 : ℕ) where
  abbrev values : List ℕ
  values =
      (b1 * 64 + b0 / 4)
      ∷ (b0 % 4 * 4096 + b3 * 16 + b2 / 16)
      ∷ (b2 % 16 * 1024 + b5 * 4 + b4 / 64)
      ∷ (b4 % 64 * 256 + b7)
      ∷ (b6 * 64 + b9 / 4)
      ∷ (b9 % 4 * 4096 + b8 * 16 + b11 / 16)
      ∷ (b11 % 16 * 1024 + b10 * 4 + b13 / 64)
      ∷ (b13 % 64 * 256 + b12)
      ∷ []

  abbrev block : List ℕ → List ℕ
  block rest = b0 ∷ b1 ∷ b2 ∷ b3 ∷ b4 ∷ b5 ∷ b6 ∷ b7 ∷ b8 ∷ b9 ∷ b10 ∷ b11 ∷ b12 ∷ b13 ∷ rest

module _ (b0 b1 b2 b3 b4 b5 b6 b7 b8 b9 b10 b11 b12 b13 : ℕ) (h0 : b0 < 256) (h1 : b1 < 256)
    (h2 : b2 < 256) (h3 : b3 < 256) (h4 : b4 < 256) (h5 : b5 < 256) (h6 : b6 < 256) (h7 : b7 < 256)
    (h8 : b8 < 256) (h9 : b9 < 256) (h10 : b10 < 256) (h11 : b11 < 256) (h12 : b12 < 256)
    (h13 : b13 < 256) (rest : List ℕ) where
  values-AllBelow : AllBelow 16384 (values b0 b1 b2 b3 b4 b5 b6 b7 b8 b9 b10 b11 b12 b13)
  values-AllBelow zero l = omega arith
  values-AllBelow (suc zero) l = omega arith
  values-AllBelow (suc (suc zero)) l = omega arith
  values-AllBelow (suc (suc (suc zero))) l = omega arith
  values-AllBelow (suc (suc (suc (suc zero)))) l = omega arith
  values-AllBelow (suc (suc (suc (suc (suc zero))))) l = omega arith
  values-AllBelow (suc (suc (suc (suc (suc (suc zero)))))) l = omega arith
  values-AllBelow (suc (suc (suc (suc (suc (suc (suc zero))))))) l = omega arith
  values-AllBelow (suc (suc (suc (suc (suc (suc (suc (suc i)))))))) l = absurd (omega arith)

  values-Digits :
      Digits 14 8 14 swap_pairs
        (values b0 b1 b2 b3 b4 b5 b6 b7 b8 b9 b10 b11 b12 b13)
        (block b0 b1 b2 b3 b4 b5 b6 b7 b8 b9 b10 b11 b12 b13 rest)
  values-Digits = record { count = refl; below = values-AllBelow; number = omega arith }

  get_cases-values :
      get_cases_14l (block b0 b1 b2 b3 b4 b5 b6 b7 b8 b9 b10 b11 b12 b13 rest)
      ≡ map some (values b0 b1 b2 b3 b4 b5 b6 b7 b8 b9 b10 b11 b12 b13)
  get_cases-values =
      rw
        (
          or_shift6 b1 (b0 / 4) (omega arith),
          or_three4 b0 b3 (b2 / 16) h0 h3 (omega arith),
          or_three2 b2 b5 (b4 / 64) h2 h5 (omega arith),
          or_low6 b4 b7 h4 (omega arith),
          or_shift6 b6 (b9 / 4) (omega arith),
          or_three4 b9 b8 (b11 / 16) h9 h8 (omega arith),
          or_three2 b11 b10 (b13 / 64) h11 h10 (omega arith),
          or_low6 b13 b12 h13 (omega arith),
        )
        refl

  set_cases-WrittenAt :
      (i v : ℕ)
      → i < 8
      → v < 16384
      → WrittenAt 14 14 swap_pairs (values b0 b1 b2 b3 b4 b5 b6 b7 b8 b9 b10 b11 b12 b13) i v (
          get_or
            (set_cases_14l v (block b0 b1 b2 b3 b4 b5 b6 b7 b8 b9 b10 b11 b12 b13 rest))
            i
            (some (block b0 b1 b2 b3 b4 b5 b6 b7 b8 b9 b10 b11 b12 b13 rest)))
  set_cases-WrittenAt zero v l k = (_, refl, omega (arith, merge_above2 b0 v h0 (omega arith)))
  set_cases-WrittenAt (suc zero) v l k = (
    _,
    refl,
    omega (arith, merge_below2 b0 (v / 4096) h0 (omega arith), merge_above4 b2 v h2 (omega arith)),
  )
  set_cases-WrittenAt (suc (suc zero)) v l k = (
    _,
    refl,
    omega (arith, merge_below4 b2 (v / 1024) h2 (omega arith), merge_above6 b4 v h4 (omega arith)),
  )
  set_cases-WrittenAt (suc (suc (suc zero))) v l k =
      (_, refl, omega (arith, merge_below6 b4 (v / 256) h4 (omega arith)))
  set_cases-WrittenAt (suc (suc (suc (suc zero)))) v l k =
      (_, refl, omega (arith, merge_above2 b9 v h9 (omega arith)))
  set_cases-WrittenAt (suc (suc (suc (suc (suc zero))))) v l k = (
    _,
    refl,
    omega
        (arith, merge_below2 b9 (v / 4096) h9 (omega arith), merge_above4 b11 v h11 (omega arith)),
  )
  set_cases-WrittenAt (suc (suc (suc (suc (suc (suc zero)))))) v l k = (
    _,
    refl,
    omega (
      arith,
      merge_below4 b11 (v / 1024) h11 (omega arith),
      merge_above6 b13 v h13 (omega arith),
    ),
  )
  set_cases-WrittenAt (suc (suc (suc (suc (suc (suc (suc zero))))))) v l k =
      (_, refl, omega (arith, merge_below6 b13 (v / 256) h13 (omega arith)))
  set_cases-WrittenAt (suc (suc (suc (suc (suc (suc (suc (suc i)))))))) v l k = absurd (omega arith)

set_cases-Keeps :
    (addr : List ℕ) (i v : ℕ)
    → IsBytes addr
    → i < 8
    → Keeps 14 addr (get_or (set_cases_14l v addr) i (some addr))
set_cases-Keeps addr zero v ok l =
    then_store8 14 addr 1 _ _ (omega arith) (Keeps-merge8 14 addr 0 _ _ (omega arith) ok)
set_cases-Keeps addr (suc zero) v ok l =
    then_store8 14 addr 3 _ _ (omega arith)
      (then_merge8 14 addr 2 _ _ _ (omega arith) (Keeps-merge8 14 addr 0 _ _ (omega arith) ok))
set_cases-Keeps addr (suc (suc zero)) v ok l =
    then_store8 14 addr 5 _ _ (omega arith)
      (then_merge8 14 addr 4 _ _ _ (omega arith) (Keeps-merge8 14 addr 2 _ _ (omega arith) ok))
set_cases-Keeps addr (suc (suc (suc zero))) v ok l =
    then_store8 14 addr 7 _ _ (omega arith) (Keeps-merge8 14 addr 4 _ _ (omega arith) ok)
set_cases-Keeps addr (suc (suc (suc (suc zero)))) v ok l =
    then_merge8 14 addr 9 _ _ _ (omega arith) (Keeps-store8 14 addr 6 _ (omega arith) ok)
set_cases-Keeps addr (suc (suc (suc (suc (suc zero))))) v ok l =
    then_merge8 14 addr 11 _ _ _ (omega arith)
      (then_merge8 14 addr 9 _ _ _ (omega arith) (Keeps-store8 14 addr 8 _ (omega arith) ok))
set_cases-Keeps addr (suc (suc (suc (suc (suc (suc zero)))))) v ok l =
    then_merge8 14 addr 13 _ _ _ (omega arith)
      (then_merge8 14 addr 11 _ _ _ (omega arith) (Keeps-store8 14 addr 10 _ (omega arith) ok))
set_cases-Keeps addr (suc (suc (suc (suc (suc (suc (suc zero))))))) v ok l =
    then_merge8 14 addr 13 _ _ _ (omega arith) (Keeps-store8 14 addr 12 _ (omega arith) ok)
set_cases-Keeps addr (suc (suc (suc (suc (suc (suc (suc (suc i)))))))) v ok l = absurd (omega arith)

pub get_14l-Reads : Reads 14 8 14 swap_pairs get_14l
unfolding get_14l IsReader Reads ForBytes
get_14l-Reads =
    for_bytes 14 _
      (λ b0 h0 b1 h1 b2 h2 b3 h3 b4 h4 b5 h5 b6 h6 b7 h7 b8 h8 b9 h9 b10 h10 b11 h11 b12 h12 b13 h13
          rest.
        (
          values b0 b1 b2 b3 b4 b5 b6 b7 b8 b9 b10 b11 b12 b13,
          (
            values-Digits b0 b1 b2 b3 b4 b5 b6 b7 b8 b9 b10 b11 b12 b13 h0 h1 h2 h3 h4 h5 h6 h7 h8
                h9 h10 h11 h12 h13 rest,
            λ x.
                get_or-some _ (values b0 b1 b2 b3 b4 b5 b6 b7 b8 b9 b10 b11 b12 b13) (x % 8)
                  (some 0)
                  (get_cases-values b0 b1 b2 b3 b4 b5 b6 b7 b8 b9 b10 b11 b12 b13 h0 h1 h2 h3 h4 h5
                    h6 h7 h8 h9 h10 h11 h12 h13 rest)
                  (omega arith),
          ),
        ))

pub set_14l-Writes : Writes 14 8 14 swap_pairs set_14l
unfolding set_14l IsWriter Writes ForBytes
set_14l-Writes =
    for_bytes_ok 14 _
      (λ b0 h0 b1 h1 b2 h2 b3 h3 b4 h4 b5 h5 b6 h6 b7 h7 b8 h8 b9 h9 b10 h10 b11 h11 b12 h12 b13 h13
          rest ok.
        (
          values b0 b1 b2 b3 b4 b5 b6 b7 b8 b9 b10 b11 b12 b13,
          values-Digits b0 b1 b2 b3 b4 b5 b6 b7 b8 b9 b10 b11 b12 b13 h0 h1 h2 h3 h4 h5 h6 h7 h8 h9
              h10 h11 h12 h13 rest,
          λ x v l.
              let w =
                set_cases-WrittenAt b0 b1 b2 b3 b4 b5 b6 b7 b8 b9 b10 b11 b12 b13 h0 h1 h2 h3 h4 h5
                  h6 h7 h8 h9 h10 h11 h12 h13 rest (x % 8) v (omega arith) l in
              (
                w.0,
                w.1,
                set_cases-Keeps (block b0 b1 b2 b3 b4 b5 b6 b7 b8 b9 b10 b11 b12 b13 rest) (x % 8) v
                    ok (omega arith) w.0 w.1,
                w.2,
              ),
        ))
