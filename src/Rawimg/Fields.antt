-- ===== src/Rawimg/Fields.antt =====
-- The expressions by which the pixel routines take fields of bytes apart and put them together.
use chdkptp_astro.Base.{ℕ, ◌+◌, ◌*◌, ◌/◌, ◌%◌, ◌^◌, ◌<◌, bit_and, bit_or, ◌≡◌, arith}
use chdkptp_astro.Base.Bits.{
  low2, low4, low6, high2, high4, high6, left2, left4, left6, left8, bit_or-above, bit_or-below,
}
use chdkptp_astro.Rawimg.Bytes.{shl}

-- `mask & (b << k) | r`.
pub or_left2 : (b r : ℕ) → b < 256 → r < 4 → bit_or (bit_and 0x3fc (b * 4)) r ≡ b * 4 + r
or_left2 b r h l = rw (left2 b h) (omega (arith, bit_or-above 2 (b % 256) r l))

pub or_left4 : (b r : ℕ) → b < 256 → r < 16 → bit_or (bit_and 0x3f0 (b * 16)) r ≡ b % 64 * 16 + r
or_left4 b r h l = rw (left4 b h) (bit_or-above 4 (b % 64) r l)

pub or_left6 : (b r : ℕ) → b < 256 → r < 64 → bit_or (bit_and 0x3c0 (b * 64)) r ≡ b % 16 * 64 + r
or_left6 b r h l = rw (left6 b h) (bit_or-above 6 (b % 16) r l)

pub or_left8 : (b r : ℕ) → b < 256 → r < 256 → bit_or (bit_and 0x300 (b * 256)) r ≡ b % 4 * 256 + r
or_left8 b r h l = rw (left8 b h) (bit_or-above 8 (b % 4) r l)

-- `(b << k) | r` and `((b & mask) << k) | r`.
pub or_shift4 : (b r : ℕ) → r < 16 → bit_or (b * 16) r ≡ b * 16 + r
or_shift4 b r l = bit_or-above 4 b r l

pub or_shift6 : (b r : ℕ) → r < 64 → bit_or (b * 64) r ≡ b * 64 + r
or_shift6 b r l = bit_or-above 6 b r l

pub or_shift8 : (b r : ℕ) → r < 256 → bit_or (b * 256) r ≡ b * 256 + r
or_shift8 b r l = bit_or-above 8 b r l

pub or_low4 : (b r : ℕ) → b < 256 → r < 256 → bit_or (bit_and b 0x0f * 256) r ≡ b % 16 * 256 + r
or_low4 b r h l = rw (low4 b h) (bit_or-above 8 (b % 16) r l)

pub or_low6 : (b r : ℕ) → b < 256 → r < 256 → bit_or (bit_and b 0x3f * 256) r ≡ b % 64 * 256 + r
or_low6 b r h l = rw (low6 b h) (bit_or-above 8 (b % 64) r l)

-- `((a & mask) << j) | (b << k) | r`.
pub or_three4 :
    (a b r : ℕ)
    → a < 256
    → b < 256
    → r < 16
    → bit_or (bit_or (bit_and a 0x03 * 4096) (b * 16)) r ≡ a % 4 * 4096 + b * 16 + r
or_three4 a b r h l m =
    let upper : bit_or (a % 4 * 4096) (b * 16) ≡ (a % 4 * 256 + b) * 16 =
      omega (arith, bit_or-above 12 (a % 4) (b * 16) (omega arith)) in
    rw (low2 a h, upper) (omega (arith, bit_or-above 4 (a % 4 * 256 + b) r m))

pub or_three2 :
    (a b r : ℕ)
    → a < 256
    → b < 256
    → r < 4
    → bit_or (bit_or (bit_and a 0x0f * 1024) (b * 4)) r ≡ a % 16 * 1024 + b * 4 + r
or_three2 a b r h l m =
    let upper : bit_or (a % 16 * 1024) (b * 4) ≡ (a % 16 * 256 + b) * 4 =
      omega (arith, bit_or-above 10 (a % 16) (b * 4) (omega arith)) in
    rw (low4 a h, upper) (omega (arith, bit_or-above 2 (a % 16 * 256 + b) r m))

-- `(b & mask) | (value << k)`, in the bits that a byte holds.
pub merge_above2 :
    (b v : ℕ) → b < 256 → v < 2 ^ 16 → bit_or (bit_and b 0x03) (shl v 2) % 256 ≡ v % 64 * 4 + b % 4
merge_above2 b v h l =
    let e : shl v 2 ≡ v * 4 = omega arith in
    rw (low2 b h, e) (omega (arith, bit_or-below 2 v (b % 4) (omega arith)))

pub merge_above4 :
    (b v : ℕ)
    → b < 256
    → v < 2 ^ 16
    → bit_or (bit_and b 0x0f) (shl v 4) % 256 ≡ v % 16 * 16 + b % 16
merge_above4 b v h l =
    let e : shl v 4 ≡ v * 16 = omega arith in
    rw (low4 b h, e) (omega (arith, bit_or-below 4 v (b % 16) (omega arith)))

pub merge_above6 :
    (b v : ℕ) → b < 256 → v < 2 ^ 16 → bit_or (bit_and b 0x3f) (shl v 6) % 256 ≡ v % 4 * 64 + b % 64
merge_above6 b v h l =
    let e : shl v 6 ≡ v * 64 = omega arith in
    rw (low6 b h, e) (omega (arith, bit_or-below 6 v (b % 64) (omega arith)))

-- The same with `value << k` cut to a byte first.
pub merge_cast4 :
    (b v : ℕ)
    → b < 256
    → v < 2 ^ 16
    → bit_or (bit_and b 0x0f) (shl v 4 % 256) % 256 ≡ v % 16 * 16 + b % 16
merge_cast4 b v h l =
    let e : shl v 4 % 256 ≡ v % 16 * 16 = omega arith in
    rw (low4 b h, e) (omega (arith, bit_or-below 4 (v % 16) (b % 16) (omega arith)))

-- `(b & mask) | r`, where `r` fits under the mask.
pub merge_below2 : (b r : ℕ) → b < 256 → r < 4 → bit_or (bit_and b 0xfc) r % 256 ≡ b / 4 * 4 + r
merge_below2 b r h l = rw (high6 b h) (omega (arith, bit_or-above 2 (b / 4) r l))

pub merge_below4 : (b r : ℕ) → b < 256 → r < 16 → bit_or (bit_and b 0xf0) r % 256 ≡ b / 16 * 16 + r
merge_below4 b r h l = rw (high4 b h) (omega (arith, bit_or-above 4 (b / 16) r l))

pub merge_below6 : (b r : ℕ) → b < 256 → r < 64 → bit_or (bit_and b 0xc0) r % 256 ≡ b / 64 * 64 + r
merge_below6 b r h l = rw (high2 b h) (omega (arith, bit_or-above 6 (b / 64) r l))
