-- ===== src/Base/Bits.antt =====
-- `|` of disjoint bit fields and `&` with masks, as arithmetic.
use Prim.Native.Nat.{
  ℕ, zero, suc, ◌+◌, ◌*◌, ◌/◌, ◌%◌, ◌^◌, ◌≤◌, ◌<◌, min, max, bit_and, bit_or, digits,
  bit_and-bitwise, bit_or-bitwise,
}
use mathlib.Core.Path.{◌≡◌, refl, ap, sym, ◌∙◌}
use mathlib.Core.Logic.{inl, inr}
use mathlib.Core.List.{List, [], ◌∷◌}
use native.Mathlib.Omega.{arith}
use native.Mathlib.Nat.{pow-suc}
use chdkptp_astro.Base.Tests.{three_ways}
use chdkptp_astro.Base.Lists.{get_or, drop}

-- The digits of `|` and of `&`, on a count of steps that is at least the first number.
abbrev or_digits : ℕ → ℕ → ℕ → ℕ
or_digits n a b = digits (λ x. x) max n a b

abbrev and_digits : ℕ → ℕ → ℕ → ℕ
and_digits n a b = digits (λ x. 0) min n a b

mul-two-pow : (q k : ℕ) → q * 2 ^ suc k ≡ 2 * (q * 2 ^ k)
mul-two-pow q k = omega (arith, ap (λ (t : ℕ). q * t) (pow-suc 2 k))

zero-or_digits : (n b : ℕ) → or_digits n 0 b ≡ b
zero-or_digits zero b = refl
zero-or_digits (suc n) b = refl

zero-and_digits : (n b : ℕ) → and_digits n 0 b ≡ 0
zero-and_digits zero b = refl
zero-and_digits (suc n) b = refl

-- A field above and a field of `k` bits below, in either order.
or_digits-above : (k n a q r : ℕ) → a ≡ q * 2 ^ k → a ≤ n → r < 2 ^ k → or_digits n a r ≡ a + r
or_digits-above k n zero q r e h l = omega (arith, zero-or_digits n r)
or_digits-above k zero (suc a) q r e h l = absurd (omega arith)
or_digits-above zero (suc n) (suc a) q r e h l = omega (
  arith,
  or_digits-above zero n (suc a / 2) (suc a / 2) (r / 2) (omega arith) (omega arith) (omega arith),
)
or_digits-above (suc k) (suc n) (suc a) q r e h l = omega (
  arith,
  mul-two-pow q k,
  or_digits-above k n (suc a / 2) q (r / 2) (omega (arith, mul-two-pow q k)) (omega arith)
      (omega (arith, pow-suc 2 k)),
)

or_digits-below : (k n q r : ℕ) → r ≤ n → r < 2 ^ k → or_digits n r (q * 2 ^ k) ≡ q * 2 ^ k + r
or_digits-below k n q zero h l = omega (arith, zero-or_digits n (q * 2 ^ k))
or_digits-below k zero q (suc r) h l = absurd (omega arith)
or_digits-below zero (suc n) q (suc r) h l = absurd (omega arith)
or_digits-below (suc k) (suc n) q (suc r) h l =
    let e = mul-two-pow q k in
    let half : q * 2 ^ suc k / 2 ≡ q * 2 ^ k = omega arith in
    let rest = or_digits-below k n q (suc r / 2) (omega arith) (omega (arith, pow-suc 2 k)) in
    rw (half, rest) (omega arith)

-- `(q << k) | r` and `r | (q << k)` are sums when `r` fits in `k` bits.
pub bit_or-above : (k q r : ℕ) → r < 2 ^ k → bit_or (q * 2 ^ k) r ≡ q * 2 ^ k + r
bit_or-above k q r h =
    bit_or-bitwise (q * 2 ^ k) r
    ∙ or_digits-above k (q * 2 ^ k) (q * 2 ^ k) q r refl (omega arith) h

pub bit_or-below : (k q r : ℕ) → r < 2 ^ k → bit_or r (q * 2 ^ k) ≡ q * 2 ^ k + r
bit_or-below k q r h = bit_or-bitwise r (q * 2 ^ k) ∙ or_digits-below k r q r (omega arith) h

-- A mask of `k` ones.
and_digits-zero : (n a : ℕ) → a ≤ n → and_digits n a 0 ≡ 0
and_digits-zero n zero h = zero-and_digits n 0
and_digits-zero zero (suc a) h = absurd (omega arith)
and_digits-zero (suc n) (suc a) h = omega (arith, and_digits-zero n (suc a / 2) (omega arith))

and_digits-one : (n a : ℕ) → a ≤ n → and_digits n a 1 ≡ a % 2
and_digits-one n zero h = zero-and_digits n 1
and_digits-one zero (suc a) h = absurd (omega arith)
and_digits-one (suc n) (suc a) h = omega (arith, and_digits-zero n (suc a / 2) (omega arith))

and_digits_three : (n a : ℕ) → a ≤ n → and_digits n a 3 ≡ a % 4
and_digits_three n zero h = zero-and_digits n 3
and_digits_three zero (suc a) h = absurd (omega arith)
and_digits_three (suc n) (suc a) h = omega (arith, and_digits-one n (suc a / 2) (omega arith))

and_digits_seven : (n a : ℕ) → a ≤ n → and_digits n a 7 ≡ a % 8
and_digits_seven n zero h = zero-and_digits n 7
and_digits_seven zero (suc a) h = absurd (omega arith)
and_digits_seven (suc n) (suc a) h = omega (arith, and_digits_three n (suc a / 2) (omega arith))

pub bit_and-one : (a : ℕ) → bit_and a 1 ≡ a % 2
bit_and-one a = bit_and-bitwise a 1 ∙ and_digits-one a a (omega arith)

pub bit_and_three : (a : ℕ) → bit_and a 3 ≡ a % 4
bit_and_three a = bit_and-bitwise a 3 ∙ and_digits_three a a (omega arith)

pub bit_and_seven : (a : ℕ) → bit_and a 7 ≡ a % 8
bit_and_seven a = bit_and-bitwise a 7 ∙ and_digits_seven a a (omega arith)

-- A mask of a byte is known by its table.
table : (ℕ → ℕ) → ℕ → List ℕ
table f zero = []
table f (suc n) = f n ∷ table f n

by_table : (f g : ℕ → ℕ) (n : ℕ) → table f n ≡ table g n → (i : ℕ) → i < n → f i ≡ g i
unfolding table
by_table f g zero e i h = absurd (omega arith)
by_table f g (suc n) e i h = elim (three_ways i n) [
  | inl lt ↦ by_table f g n (ap (drop 1) e) i lt
  | inr (inl last) ↦ ap f last ∙ ap (λ l. get_or l 0 0) e ∙ ap g (sym last)
  | inr (inr gt) ↦ absurd (omega arith)
]

pub low2 : (b : ℕ) → b < 256 → bit_and b 0x03 ≡ b % 4
unfolding table
low2 = by_table (λ b. bit_and b 0x03) (λ b. b % 4) 256 refl

pub low4 : (b : ℕ) → b < 256 → bit_and b 0x0f ≡ b % 16
unfolding table
low4 = by_table (λ b. bit_and b 0x0f) (λ b. b % 16) 256 refl

pub low6 : (b : ℕ) → b < 256 → bit_and b 0x3f ≡ b % 64
unfolding table
low6 = by_table (λ b. bit_and b 0x3f) (λ b. b % 64) 256 refl

pub high6 : (b : ℕ) → b < 256 → bit_and b 0xfc ≡ b / 4 * 4
unfolding table
high6 = by_table (λ b. bit_and b 0xfc) (λ b. b / 4 * 4) 256 refl

pub high4 : (b : ℕ) → b < 256 → bit_and b 0xf0 ≡ b / 16 * 16
unfolding table
high4 = by_table (λ b. bit_and b 0xf0) (λ b. b / 16 * 16) 256 refl

pub high2 : (b : ℕ) → b < 256 → bit_and b 0xc0 ≡ b / 64 * 64
unfolding table
high2 = by_table (λ b. bit_and b 0xc0) (λ b. b / 64 * 64) 256 refl

pub left2 : (b : ℕ) → b < 256 → bit_and 0x3fc (b * 4) ≡ b % 256 * 4
unfolding table
left2 = by_table (λ b. bit_and 0x3fc (b * 4)) (λ b. b % 256 * 4) 256 refl

pub left4 : (b : ℕ) → b < 256 → bit_and 0x3f0 (b * 16) ≡ b % 64 * 16
unfolding table
left4 = by_table (λ b. bit_and 0x3f0 (b * 16)) (λ b. b % 64 * 16) 256 refl

pub left6 : (b : ℕ) → b < 256 → bit_and 0x3c0 (b * 64) ≡ b % 16 * 64
unfolding table
left6 = by_table (λ b. bit_and 0x3c0 (b * 64)) (λ b. b % 16 * 64) 256 refl

pub left8 : (b : ℕ) → b < 256 → bit_and 0x300 (b * 256) ≡ b % 4 * 256
unfolding table
left8 = by_table (λ b. bit_and 0x300 (b * 256)) (λ b. b % 4 * 256) 256 refl
