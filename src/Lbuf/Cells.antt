-- ===== src/Lbuf/Cells.antt =====
-- What `set_vals` writes `get_vals` reads.
pub mod Numbers
use chdkptp_astro.Base.{
  ℕ, zero, suc, ◌+◌, ◌-◌, ◌*◌, ◌/◌, ◌%◌, ◌^◌, ◌<◌, ◌≤◌, min, List, [], ◌∷◌, ◌++◌, Option, none,
  some, length, take, drop, length-append, length-take, length-drop, take-append_le, drop-append_le,
  take_all, drop_all, take-append-drop, append_assoc, take-add, drop-drop, bit_and, ltb, le→not_ltb,
  ◌==◌, not, Bool, true, false, if◌then◌else◌, ◌≡◌, refl, ap, ap₂, sym, ◌∙◌, arith,
}
use native.Mathlib.Nat.{suc-mul}
use chdkptp_astro.Base.Partial.{◌>>=◌}
use chdkptp_astro.Ptp.Endian.{store}
use chdkptp_astro.Ptp.Transport.Buffer.{write_at}
use chdkptp_astro.Lbuf.{
  LBuf, Cell, slice, read_cells, write_cells, get_vals, set_vals, get_from, set_from, clamp_count,
  Result, returned, raised, outside, checked, ℤ, pos, negsuc, or_default, fl_readonly,
  insufficient_stack, negative_offset, readonly_lbuf, to_bytes, from_bytes,
}

module _ {A : Type 0} (cell : Cell A) where
  -- What a cell's routines promise: a value in range takes the cell's size and is read back.
  pub record Faithful (IsValue : A → Type 0) : Type 0 where
    pub written : (v : A) → IsValue v → length (cell.write v) ≡ cell.size
    pub again : (v : A) → IsValue v → cell.read (cell.write v) ≡ v

pub data All {A : Type 0} (P : A → Type 0) : List A → Type 0 where
  no_more : All P []
  one_more : {v : A} {vs : List A} → P v → All P vs → All P (v ∷ vs)

-- A store within the array: what is before it, the stored bytes, and what is behind.
store-in :
    (off : ℕ) (bs base : List ℕ)
    → off + length bs ≤ length base
    → store off bs base ≡ some (write_at off bs base)
store-in off bs base h = let e = le→not_ltb (length base) (off + length bs) h in rw e refl

take-write_at :
    (off : ℕ) (bs base : List ℕ)
    → off + length bs ≤ length base
    → take (off + length bs) (write_at off bs base) ≡ take off base ++ bs
take-write_at off bs base h =
    let l = length-take off base in
    let l' = length-append (take off base) bs in
    ap (take (off + length bs))
      (sym (append_assoc (take off base) bs (drop (off + length bs) base)))
    ∙ take-append_le (off + length bs) (take off base ++ bs) (drop (off + length bs) base)
        (omega arith)
    ∙ take_all (off + length bs) (take off base ++ bs) (omega arith)

length-write_at :
    (off : ℕ) (bs base : List ℕ)
    → off + length bs ≤ length base
    → length (write_at off bs base) ≡ length base
length-write_at off bs base h = omega (
  arith,
  length-append (take off base) (bs ++ drop (off + length bs) base),
  length-append bs (drop (off + length bs) base),
  length-take off base,
  length-drop (off + length bs) base,
)

take-take : (n m : ℕ) (xs : List ℕ) → n ≤ m → m ≤ length xs → take n (take m xs) ≡ take n xs
take-take n m xs h k =
    let l = length-take m xs in
    sym (take-append_le n (take m xs) (drop m xs) (omega arith))
    ∙ ap (take n) (take-append-drop m xs)

drop-take : (n k : ℕ) (xs : List ℕ) → n ≤ length xs → drop n (take (n + k) xs) ≡ take k (drop n xs)
drop-take n k xs h =
    let l = length-take n xs in
    ap (drop n) (sym (take-add n k xs))
    ∙ drop-append_le n (take n xs) (take k (drop n xs)) (omega arith)
    ∙ ap (λ ys. ys ++ take k (drop n xs)) (drop_all n (take n xs) (omega arith))

at_least : (n k : ℕ) → 0 < n → k ≤ n * k
at_least zero k h = absurd (omega arith)
at_least (suc n) k h = omega (arith, suc-mul n k)

module _ {A : Type 0} (cell : Cell A) (IsValue : A → Type 0)
    (faithful : Faithful cell IsValue) where
  record Wrote (vs : List A) (off : ℕ) (bytes : List ℕ) : Type 0 where
    after : List ℕ
    run : write_cells cell vs off bytes ≡ some after
    size : length after ≡ length bytes
    front : take off after ≡ take off bytes
    got : read_cells cell (length vs) off after ≡ some vs

  -- A first cell, and the cells behind it.
  then_Wrote :
      (v : A) (vs : List A) (off : ℕ) (bytes : List ℕ)
      → IsValue v
      → off + cell.size ≤ length bytes
      → Wrote vs (off + cell.size) (write_at off (cell.write v) bytes)
      → Wrote (v ∷ vs) off bytes
  unfolding read_cells write_cells
  then_Wrote v vs off bytes ok h rest =
      let bs = cell.write v in
      let n = faithful.written v ok in
      let size = rest.size in
      let fits : off + length bs ≤ length bytes = omega arith in
      let one = write_at off bs bytes in
      let total = length-write_at off bs bytes fits in
      let l = length-take off bytes in
      let upto : take (off + cell.size) rest.after ≡ take off bytes ++ bs =
        rest.front ∙ ap (λ k. take (off + k) one) (sym n) ∙ take-write_at off bs bytes fits in
      let cell_bytes : take cell.size (drop off rest.after) ≡ bs =
        sym (drop-take off cell.size rest.after (omega arith))
        ∙ ap (drop off) upto
        ∙ drop-append_le off (take off bytes) bs (omega arith)
        ∙ ap (λ ys. ys ++ bs) (drop_all off (take off bytes) (omega arith)) in
      let inside = le→not_ltb (length rest.after) (off + cell.size) (omega arith) in
      record {
        after = rest.after;
        run =
            ap (λ m. m >>= write_cells cell vs (off + cell.size)) (store-in off bs bytes fits)
            ∙ rest.run;
        size = size ∙ total;
        front =
            sym (take-take off (off + cell.size) rest.after (omega arith) (omega arith))
            ∙ ap (take off) upto
            ∙ take-append_le off (take off bytes) bs (omega arith)
            ∙ take_all off (take off bytes) (omega arith);
        got = rw (inside, cell_bytes, rest.got, faithful.again v ok) refl;
      }

  write_cells-Wrote :
      (vs : List A) (off : ℕ) (bytes : List ℕ)
      → All IsValue vs
      → off + length vs * cell.size ≤ length bytes
      → Wrote vs off bytes
  unfolding read_cells write_cells
  write_cells-Wrote [] off bytes no_more h = record {
    after = bytes;
    run = refl;
    size = refl;
    front = refl;
    got = refl;
  }
  write_cells-Wrote (v ∷ vs) off bytes (one_more ok oks) h =
      let bs = cell.write v in
      let n = faithful.written v ok in
      let step : suc (length vs) * cell.size ≡ length vs * cell.size + cell.size =
        suc-mul (length vs) cell.size in
      let total = length-write_at off bs bytes (omega arith) in
      then_Wrote v vs off bytes ok (omega arith)
        (write_cells-Wrote vs (off + cell.size) (write_at off bs bytes) oks (omega arith))

  -- A buffer that may be written, of less than 2^31 bytes, and values in range that fit in it from
  -- an offset on: `set_vals` stores them all, and `get_vals` at the offset and their number returns
  -- them. The length of the buffer and the bytes in front of the offset do not change.
  pub get_vals-set_vals :
      (check_stack : ℕ → Bool) (buf : LBuf) (off : ℕ) (vs : List A)
      → 0 < cell.size
      → bit_and buf.flags fl_readonly ≡ 0
      → length buf.bytes ≡ buf.len
      → buf.len < 2 ^ 31
      → All IsValue vs
      → 0 < length vs
      → off + length vs * cell.size ≤ buf.len
      → check_stack (length vs) ≡ true
      → (buf' : LBuf) × (set_vals cell buf (some (pos off)) vs ≡ returned (length vs, buf'))
        × (get_vals cell check_stack buf' (some (pos off)) (some (pos (length vs))) ≡ returned vs)
        × (length buf'.bytes ≡ buf.len)
        × (take off buf'.bytes ≡ take off buf.bytes)
  unfolding set_vals get_vals set_from get_from clamp_count
  get_vals-set_vals check_stack buf off vs some_size writable same small oks some_value fits stack =
      let n = length vs in
      let w = write_cells-Wrote vs off buf.bytes oks (omega arith) in
      let one : cell.size ≤ n * cell.size = at_least n cell.size some_value in
      let off_ok = le→not_ltb ((buf.len + 2 ^ 32 - cell.size) % 2 ^ 32) off (omega arith) in
      let room_ok =
        le→not_ltb ((buf.len + 2 ^ 32 - off) % 2 ^ 32) (n * cell.size % 2 ^ 32) (omega arith) in
      let count_ok = le→not_ltb buf.len ((off + n * cell.size) % 2 ^ 32) (omega arith) in
      let all = take_all n vs (omega arith) in
      (
        record { len = buf.len; flags = buf.flags; bytes = w.after },
        rw (writable, off_ok, room_ok, all, w.run) refl,
        rw (off_ok, count_ok, stack, w.got) refl,
        w.size ∙ same,
        w.front,
      )
