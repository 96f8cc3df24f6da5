-- ===== src/Lbuf/Reverse.antt =====
-- `reverse_bytes` swaps the bytes of every 16-bit word.
use chdkptp_astro.Base.{
  ℕ, zero, suc, ◌+◌, ◌-◌, ◌%◌, ◌^◌, ◌<◌, ◌≤◌, List, [], ◌∷◌, ◌++◌, some, length, get_elem?, set,
  length-append, append_assoc, lt→ltb, le→not_ltb, ◌≡◌, refl, ap, ap₂, sym, ◌∙◌, arith,
}
use chdkptp_astro.Rawimg.Block.{swap_pairs}
use chdkptp_astro.Lbuf.{LBuf, returned, checked, swap_at, reverse_from, reverse_bytes}

-- Memory split at an index.
get-at :
    (front todo : List ℕ) (k : ℕ) → get_elem? (front ++ todo) (length front + k) ≡ get_elem? todo k
get-at [] todo k = ap (get_elem? todo) (omega arith)
get-at (x ∷ front) todo k =
    let e : suc (length front) + k ≡ suc (length front + k) = omega arith in
    rw e (get-at front todo k)

set-at :
    (front todo : List ℕ) (k v : ℕ)
    → set (front ++ todo) (length front + k) v ≡ front ++ set todo k v
set-at [] todo k v = ap (λ i. set todo i v) (omega arith)
set-at (x ∷ front) todo k v =
    let e : suc (length front) + k ≡ suc (length front + k) = omega arith in
    rw e (ap (◌∷◌ x) (set-at front todo k v))

swap_at-pair :
    (front rest : List ℕ) (a b : ℕ)
    → swap_at (length front) (front ++ a ∷ b ∷ rest) ≡ some (front ++ b ∷ a ∷ rest)
unfolding swap_at
swap_at-pair front rest a b =
    let todo = a ∷ b ∷ rest in
    let i = length front in
    let zeroth : i ≡ i + 0 = omega arith in
    let first : get_elem? (front ++ todo) i ≡ some a =
      ap (get_elem? (front ++ todo)) zeroth ∙ get-at front todo 0 in
    let stored : set (front ++ a ∷ a ∷ rest) i b ≡ front ++ b ∷ a ∷ rest =
      ap (λ k. set (front ++ a ∷ a ∷ rest) k b) zeroth ∙ set-at front (a ∷ a ∷ rest) 0 b in
    rw (get-at front todo 1, first, set-at front todo 1 a, stored) refl

reverse_from-swapped :
    (n limit : ℕ) (front todo : List ℕ)
    → length todo ≤ n
    → suc limit ≡ length front + length todo
    → length front + length todo < 2 ^ 31
    → reverse_from n (length front) limit (front ++ todo) ≡ some (front ++ swap_pairs todo)
unfolding reverse_from
reverse_from-swapped zero limit front [] h e small = refl
reverse_from-swapped zero limit front (a ∷ todo) h e small = absurd (omega arith)
reverse_from-swapped (suc n) limit front [] h e small =
    let stop = le→not_ltb (length front) limit (omega arith) in rw stop refl
reverse_from-swapped (suc n) limit front (a ∷ []) h e small =
    let stop = le→not_ltb (length front) limit (omega arith) in rw stop refl
reverse_from-swapped (suc n) limit front (a ∷ b ∷ todo) h e small =
    let go = lt→ltb (length front) limit (omega arith) in
    let front' = front ++ b ∷ a ∷ [] in
    let size : length front' ≡ length front + 2 = omega (arith, length-append front (b ∷ a ∷ [])) in
    let rest = reverse_from-swapped n limit front' todo (omega arith) (omega arith) (omega arith) in
    let no_overflow = lt→ltb (length front + 2) (2 ^ 31) (omega arith) in
    rw (go, swap_at-pair front todo a b, no_overflow)
      (ap₂ (λ i m. reverse_from n i limit m) (sym size) (sym (append_assoc front (b ∷ a ∷ []) todo))
        ∙ rest
        ∙ ap some (append_assoc front (b ∷ a ∷ []) (swap_pairs todo)))

pub length-swap_pairs : (bs : List ℕ) → length (swap_pairs bs) ≡ length bs
length-swap_pairs [] = refl
length-swap_pairs (a ∷ []) = refl
length-swap_pairs (a ∷ b ∷ rest) = ap (λ n. suc (suc n)) (length-swap_pairs rest)

swap_pairs_twice : (bs : List ℕ) → swap_pairs (swap_pairs bs) ≡ bs
swap_pairs_twice [] = refl
swap_pairs_twice (a ∷ []) = refl
swap_pairs_twice (a ∷ b ∷ rest) = ap (λ bs. a ∷ b ∷ bs) (swap_pairs_twice rest)

-- The buffer with other bytes.
abbrev pub with_bytes : LBuf → List ℕ → LBuf
with_bytes buf bytes = record { len = buf.len; flags = buf.flags; bytes = bytes }

pub reverse_bytes-swapped :
    (buf : LBuf)
    → length buf.bytes ≡ buf.len
    → 0 < buf.len
    → buf.len < 2 ^ 31
    → reverse_bytes buf ≡ returned (with_bytes buf (swap_pairs buf.bytes))
unfolding reverse_bytes
reverse_bytes-swapped buf same pos small =
    ap (λ m. checked m (with_bytes buf))
      (reverse_from-swapped (suc buf.len) ((buf.len + 2 ^ 32 - 1) % 2 ^ 32) [] buf.bytes
        (omega arith) (omega arith) (omega arith))

-- On a buffer of at least one byte and fewer than 2 ^ 31 bytes `reverse_bytes` ends within the buffer with the bytes of each
-- pair swapped, a last odd byte left alone, and a second call restores the buffer.
pub reverse_bytes_twice :
    (buf : LBuf)
    → length buf.bytes ≡ buf.len
    → 0 < buf.len
    → buf.len < 2 ^ 31
    → (reverse_bytes buf ≡ returned (with_bytes buf (swap_pairs buf.bytes)))
      × (reverse_bytes (with_bytes buf (swap_pairs buf.bytes)) ≡ returned buf)
reverse_bytes_twice buf same pos small = (
  reverse_bytes-swapped buf same pos small,
  reverse_bytes-swapped (with_bytes buf (swap_pairs buf.bytes)) (length-swap_pairs buf.bytes ∙ same)
        pos small
      ∙ ap (λ bs. returned (with_bytes buf bs)) (swap_pairs_twice buf.bytes),
)
