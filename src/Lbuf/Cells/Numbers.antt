-- ===== src/Lbuf/Cells/Numbers.antt =====
-- The unsigned and signed numbers of 8, 16 and 32 bits are read back as they were written.
use chdkptp_astro.Base.{
  ℕ, zero, suc, ◌-◌, ◌*◌, ◌/◌, ◌^◌, ◌<◌, length, leb, true, false, ◌≡◌, ◌⊎◌, inl, inr, refl, ap,
  arith,
}
use native.Mathlib.Nat.{pow-suc}
use chdkptp_astro.Lbuf.{
  ℤ, pos, negsuc, to_bytes, from_bytes, unsigned, signed, signed_read, signed_write,
}
use chdkptp_astro.Lbuf.Cells.{Faithful}

length-to_bytes : (n v : ℕ) → length (to_bytes n v) ≡ n
length-to_bytes zero v = refl
length-to_bytes (suc n) v = ap suc (length-to_bytes n (v / 256))

from_bytes-to_bytes : (n v : ℕ) → v < 256 ^ n → from_bytes (to_bytes n v) ≡ v
from_bytes-to_bytes zero v h = omega arith
from_bytes-to_bytes (suc n) v h =
    let p = pow-suc 256 n in omega (arith, from_bytes-to_bytes n (v / 256) (omega arith))

abbrev pub IsUnsigned : ℕ → ℕ → Type 0
IsUnsigned size v = v < 256 ^ size

pub Faithful-unsigned : (size : ℕ) → Faithful (unsigned size) (IsUnsigned size)
Faithful-unsigned size = record {
  written = λ v h. length-to_bytes size v;
  again = from_bytes-to_bytes size;
}

abbrev pub IsSigned : ℕ → ℤ → Type 0
IsSigned size (pos v) = v < 2 ^ (8 * size - 1)
IsSigned size (negsuc n) = n < 2 ^ (8 * size - 1)

module _ (size : ℕ) (whole : 2 ^ (8 * size) ≡ 256 ^ size)
    (half : 256 ^ size ≡ 2 * 2 ^ (8 * size - 1)) where
  signed_again : (i : ℤ) → IsSigned size i → signed_read size (signed_write size i) ≡ i
  signed_again (pos v) h =
      let e = from_bytes-to_bytes size v (omega arith) in
      let small : leb (2 ^ (8 * size - 1)) v ≡ false = ground arith in rw (e, small) refl
  signed_again (negsuc n) h =
      let v = 2 ^ (8 * size) - suc n in
      let e = from_bytes-to_bytes size v (omega arith) in
      let large : leb (2 ^ (8 * size - 1)) v ≡ true = ground arith in
      let back : 2 ^ (8 * size) - 1 - v ≡ n = omega arith in rw (e, large, back) refl

  signed_written : (i : ℤ) → IsSigned size i → length (signed_write size i) ≡ size
  signed_written (pos v) h = length-to_bytes size v
  signed_written (negsuc n) h = length-to_bytes size (2 ^ (8 * size) - suc n)

  Faithful-signed_of : Faithful (signed size) (IsSigned size)
  Faithful-signed_of = record { written = signed_written; again = signed_again }

pub Faithful-signed :
    (size : ℕ) → (size ≡ 1) ⊎ ((size ≡ 2) ⊎ (size ≡ 4)) → Faithful (signed size) (IsSigned size)
Faithful-signed size (inl e) = Faithful-signed_of size (rw e refl) (rw e refl)
Faithful-signed size (inr (inl e)) = Faithful-signed_of size (rw e refl) (rw e refl)
Faithful-signed size (inr (inr e)) = Faithful-signed_of size (rw e refl) (rw e refl)
