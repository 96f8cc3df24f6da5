-- ===== src/Rawimg/Bytes.antt =====
-- Memory as the pixel routines of rawimg.c use it: `p + n` is the rest of the array from byte n
-- on, and `none` is an access beyond its end, which C leaves undefined.
use chdkptp_astro.Base.{
  ℕ, zero, suc, ◌+◌, ◌*◌, ◌/◌, ◌%◌, ◌^◌, ◌≤◌, ◌<◌, bit_and, bit_or, List, [], ◌∷◌, ◌++◌, Option,
  none, some, get_elem?, get_or, take, drop, length, arith,
}
use chdkptp_astro.Base.Partial.{◌>>=◌}

-- `value << k` of a 32-bit unsigned value.
abbrev pub shl : ℕ → ℕ → ℕ
shl value k = value * 2 ^ k % 2 ^ 32

-- An expression in two bytes, `addr[i]` and `addr[j]`.
abbrev pub of_two : List ℕ → ℕ → ℕ → (ℕ → ℕ → ℕ) → Option ℕ
of_two addr i j f = get_elem? addr i >>= λ x. get_elem? addr j >>= λ y. some (f x y)

abbrev pub of_three : List ℕ → ℕ → ℕ → ℕ → (ℕ → ℕ → ℕ → ℕ) → Option ℕ
of_three addr i j k f = get_elem? addr i >>= λ x. of_two addr j k (f x)

-- `addr[i] = value`, which keeps the low 8 bits.
abbrev pub store8 : List ℕ → ℕ → ℕ → Option (List ℕ)
store8 [] i value = none
store8 (b ∷ bs) zero value = some (value % 256 ∷ bs)
store8 (b ∷ bs) (suc i) value = store8 bs i value >>= λ rest. some (b ∷ rest)

-- `addr[i] = (addr[i] & mask) | bits`.
abbrev pub merge8 : List ℕ → ℕ → ℕ → ℕ → Option (List ℕ)
merge8 addr i mask bits = get_elem? addr i >>= λ b. store8 addr i (bit_or (bit_and b mask) bits)

-- The offset of `p + y * row_bytes + (x / pixels) * bytes`, in 32-bit unsigned arithmetic.
abbrev pub block_offset : ℕ → ℕ → ℕ → ℕ → ℕ → ℕ
block_offset row_bytes x y pixels bytes = y * row_bytes % 2 ^ 32 + x / pixels * bytes % 2 ^ 32

-- A write through the pointer `p + off`.
abbrev pub update_at : ℕ → List ℕ → (List ℕ → Option (List ℕ)) → Option (List ℕ)
update_at off p f = f (drop off p) >>= λ addr. some (take off p ++ addr)

unfoldable pub IsBytes : List ℕ → Type 0
IsBytes bs = (i : ℕ) → get_or bs i 0 < 256

-- To prove `P` of arrays of at least `n` bytes, name the first `n` bytes.
unfoldable pub ForBytes : ℕ → (List ℕ → Type 0) → Type 0
ForBytes zero P = (rest : List ℕ) → P rest
ForBytes (suc n) P = (b : ℕ) → b < 256 → ForBytes n (λ addr. P (b ∷ addr))

pub for_bytes :
    (n : ℕ) (P : List ℕ → Type 0)
    → ForBytes n P
    → (addr : List ℕ) → IsBytes addr
    → n ≤ length addr
    → P addr
unfolding ForBytes IsBytes
for_bytes zero P f addr ok h = f addr
for_bytes (suc n) P f [] ok h = absurd (omega arith)
for_bytes (suc n) P f (b ∷ addr) ok h =
    for_bytes n (λ a. P (b ∷ a)) (f b (ok 0)) addr (λ i. ok (suc i)) (omega arith)

-- The same where `P` may use that the elements are bytes.
pub for_bytes_ok :
    (n : ℕ) (P : List ℕ → Type 0)
    → ForBytes n (λ addr. IsBytes addr → P addr)
    → (addr : List ℕ) → IsBytes addr
    → n ≤ length addr
    → P addr
for_bytes_ok n P f addr ok h = for_bytes n (λ a. IsBytes a → P a) f addr ok h ok
