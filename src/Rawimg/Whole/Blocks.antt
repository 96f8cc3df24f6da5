-- ===== src/Rawimg/Whole/Blocks.antt =====
-- One pixel of whole bytes as a block, and the accesses through an index as accesses through a
-- pointer.
use chdkptp_astro.Base.{
  ℕ, zero, suc, ◌+◌, ◌*◌, ◌/◌, ◌%◌, ◌<◌, List, [], ◌∷◌, Option, some, get_elem?, set, bit_or, ◌≡◌,
  refl, arith, ◌∙◌, ap, sym,
}
use chdkptp_astro.Base.Partial.{◌>>=◌}
use chdkptp_astro.Rawimg.Bytes.{of_two, store8, ForBytes, for_bytes, for_bytes_ok}
use chdkptp_astro.Rawimg.Digits.{value, AllBelow}
use chdkptp_astro.Rawimg.Fields.{or_shift8}
use chdkptp_astro.Rawimg.Block.{in_order, swap_pairs, Digits, IsReader, IsWriter, Reads, Writes}
use chdkptp_astro.Rawimg.Kept.{Keeps-store8, then_store8}

abbrev pub get_8 : ℕ → List ℕ → Option ℕ
get_8 x addr = get_elem? addr 0

abbrev pub set_8 : ℕ → ℕ → List ℕ → Option (List ℕ)
set_8 x value addr = store8 addr 0 value

abbrev pub get_16l : ℕ → List ℕ → Option ℕ
get_16l x addr = of_two addr 0 1 (λ l h. l + 256 * h)

abbrev pub set_16l : ℕ → ℕ → List ℕ → Option (List ℕ)
set_16l x value addr = store8 addr 0 value >>= λ addr. store8 addr 1 (value / 256)

abbrev pub get_16b : ℕ → List ℕ → Option ℕ
get_16b x addr = of_two addr 0 1 (λ h l. bit_or (h * 256) l)

abbrev pub set_16b : ℕ → ℕ → List ℕ → Option (List ℕ)
set_16b x value addr = store8 addr 0 (value / 256) >>= λ addr. store8 addr 1 value

one_below : (base v : ℕ) → v < base → AllBelow base (v ∷ [])
one_below base v h zero l = h
one_below base v h (suc i) l = absurd (omega arith)

one-get_elem? : (v x : ℕ) → some v ≡ get_elem? (v ∷ []) (x % 1)
one-get_elem? v x = let e : x % 1 ≡ 0 = omega arith in rw e refl

one-set : (v w x : ℕ) → w ∷ [] ≡ set (v ∷ []) (x % 1) w
one-set v w x = let e : x % 1 ≡ 0 = omega arith in rw e refl

pub get_8-Reads : Reads 8 1 1 swap_pairs get_8
unfolding IsReader Reads ForBytes
get_8-Reads = for_bytes 1 _ (λ b h rest.
    (b ∷ [], (record { count = refl; below = one_below 256 b h; number = refl }, one-get_elem? b)))

pub set_8-Writes : Writes 8 1 1 swap_pairs set_8
unfolding IsWriter Writes ForBytes
set_8-Writes = for_bytes_ok 1 _ (λ b h rest ok. (
  b ∷ [],
  record { count = refl; below = one_below 256 b h; number = refl },
  λ x v l. (
    _,
    refl,
    Keeps-store8 1 (b ∷ rest) 0 v (omega arith) ok _ refl,
    ap (value 256 0) (sym (one-set b v x)) ∙ omega arith,
  ),
))

module _ (a b : ℕ) (ha : a < 256) (hb : b < 256) (rest : List ℕ) where
  Digits-16l : Digits 16 1 2 swap_pairs ((a + 256 * b) ∷ []) (a ∷ b ∷ rest)
  Digits-16l = record {
    count = refl;
    below = one_below 65536 (a + 256 * b) (omega arith);
    number = omega arith;
  }

  Digits-16b : Digits 16 1 2 in_order ((a * 256 + b) ∷ []) (a ∷ b ∷ rest)
  Digits-16b = record {
    count = refl;
    below = one_below 65536 (a * 256 + b) (omega arith);
    number = omega arith;
  }

pub get_16l-Reads : Reads 16 1 2 swap_pairs get_16l
unfolding IsReader Reads ForBytes
get_16l-Reads = for_bytes 2 _ (λ a ha b hb rest.
    ((a + 256 * b) ∷ [], (Digits-16l a b ha hb rest, one-get_elem? (a + 256 * b))))

pub set_16l-Writes : Writes 16 1 2 swap_pairs set_16l
unfolding IsWriter Writes ForBytes
set_16l-Writes = for_bytes_ok 2 _ (λ a ha b hb rest ok. (
  (a + 256 * b) ∷ [],
  Digits-16l a b ha hb rest,
  λ x v l. (
    _,
    refl,
    then_store8 2 (a ∷ b ∷ rest) 1 (v / 256) _ (omega arith)
        (Keeps-store8 2 (a ∷ b ∷ rest) 0 v (omega arith) ok) _ refl,
    ap (value 65536 0) (sym (one-set (a + 256 * b) v x)) ∙ omega arith,
  ),
))

pub get_16b-Reads : Reads 16 1 2 in_order get_16b
unfolding IsReader Reads ForBytes
get_16b-Reads = for_bytes 2 _ (λ a ha b hb rest. (
  (a * 256 + b) ∷ [],
  (Digits-16b a b ha hb rest, λ x. rw (or_shift8 a b hb) (one-get_elem? (a * 256 + b) x)),
))

pub set_16b-Writes : Writes 16 1 2 in_order set_16b
unfolding IsWriter Writes ForBytes
set_16b-Writes = for_bytes_ok 2 _ (λ a ha b hb rest ok. (
  (a * 256 + b) ∷ [],
  Digits-16b a b ha hb rest,
  λ x v l. (
    _,
    refl,
    then_store8 2 (a ∷ b ∷ rest) 1 v _ (omega arith)
        (Keeps-store8 2 (a ∷ b ∷ rest) 0 (v / 256) (omega arith) ok) _ refl,
    ap (value 65536 0) (sym (one-set (a * 256 + b) v x)) ∙ omega arith,
  ),
))
