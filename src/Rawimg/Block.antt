-- ===== src/Rawimg/Block.antt =====
-- What the pixel routines of one format promise of a block: an independent description of packed
-- pixels, by the digits of one number, which the routines of each format are shown to meet.
pub mod Written
use chdkptp_astro.Base.{
  ℕ, zero, suc, ◌+◌, ◌-◌, ◌*◌, ◌/◌, ◌%◌, ◌^◌, ◌≤◌, ◌<◌, List, [], ◌∷◌, ◌++◌, map, Option, none,
  some, get_elem?, get_or, set, take, drop, length, ◌≡◌, refl, ap, sym, ◌∙◌, bit_and, bit_or, arith,
  Option-cases,
}
use chdkptp_astro.Base.Partial.{◌>>=◌}
use chdkptp_astro.Rawimg.Bytes.{store8, merge8, IsBytes}
use chdkptp_astro.Rawimg.Digits.{value, AllBelow}

-- The bytes of little-endian 16-bit words, high byte first.
abbrev pub swap_pairs : List ℕ → List ℕ
swap_pairs [] = []
swap_pairs (a ∷ []) = a ∷ []
swap_pairs (a ∷ b ∷ rest) = b ∷ a ∷ swap_pairs rest

abbrev pub in_order : List ℕ → List ℕ
in_order bs = bs

-- A block of `bytes` bytes, most significant first after `order`, and its `pixels` pixels of `bpp`
-- bits are digits of the same number.
pub record Digits (bpp pixels bytes : ℕ) (order : List ℕ → List ℕ) (values addr : List ℕ)
    : Type 0 where
  pub count : length values ≡ pixels
  pub below : AllBelow (2 ^ bpp) values
  pub number : value (2 ^ bpp) 0 values ≡ value 256 0 (order (take bytes addr))

-- Every byte stays a byte, and nothing is written behind the block.
pub record Kept (bytes : ℕ) (addr after : List ℕ) : Type 0 where
  pub ok : IsBytes after
  pub size : length after ≡ length addr
  pub behind : drop bytes after ≡ drop bytes addr

module _ (bpp pixels bytes : ℕ) (order : List ℕ → List ℕ) where
  unfoldable pub IsReader : (ℕ → List ℕ → Option ℕ) → List ℕ → List ℕ → Type 0
  IsReader get values addr =
      Digits bpp pixels bytes order values addr
      × ((x : ℕ) → get x addr ≡ get_elem? values (x % pixels))

  unfoldable pub IsWriter : (ℕ → ℕ → List ℕ → Option (List ℕ)) → List ℕ → List ℕ → Type 0
  IsWriter put values addr =
      (x v : ℕ)
      → v < 2 ^ bpp
      → (after : List ℕ) × (put x v addr ≡ some after)
        × Kept bytes addr after
        × (value (2 ^ bpp) 0 (set values (x % pixels) v) ≡ value 256 0 (order (take bytes after)))

  -- The routines of a format read and write every block of bytes so.
  unfoldable pub Reads : (ℕ → List ℕ → Option ℕ) → Type 0
  Reads get =
      (addr : List ℕ)
      → IsBytes addr
      → bytes ≤ length addr
      → (values : List ℕ) × IsReader get values addr

  unfoldable pub Writes : (ℕ → ℕ → List ℕ → Option (List ℕ)) → Type 0
  Writes put =
      (addr : List ℕ)
      → IsBytes addr
      → bytes ≤ length addr
      → (values : List ℕ) × Digits bpp pixels bytes order values addr × IsWriter put values addr

-- A `switch` all of whose cases return a value.
pub get_or-some :
    (cases : List (Option ℕ)) (values : List ℕ) (i : ℕ) (d : Option ℕ)
    → cases ≡ map some values
    → i < length values
    → get_or cases i d ≡ get_elem? values i
get_or-some cases values i d e h = rw e (picked values i h)
  where
    picked :
        (values : List ℕ) (i : ℕ)
        → i < length values
        → get_or (map some values) i d ≡ get_elem? values i
    picked [] i h = absurd (omega arith)
    picked (v ∷ vs) zero h = refl
    picked (v ∷ vs) (suc i) h = picked vs i (omega arith)

-- A `switch` that writes, at the case that it takes.
abbrev pub WrittenAt :
    (bpp bytes : ℕ) → (List ℕ → List ℕ) → List ℕ → ℕ → ℕ → Option (List ℕ) → Type 0
WrittenAt bpp bytes order values i v result =
    (after : List ℕ) × (result ≡ some after)
    × (value (2 ^ bpp) 0 (set values i v) ≡ value 256 0 (order (take bytes after)))
