-- ===== src/Lbuf.antt =====
-- lbuf.c and lbuf.h: byte buffers for Lua. The arguments of a call are what `luaL_optint` and the
-- like return for them; `none` is an argument that is left out. Sizes are 32-bit unsigned.
mod Tests
pub mod Cells
pub mod Reverse
pub mod Sub
use chdkptp_astro.Base.{
  ℕ, zero, suc, ◌+◌, ◌-◌, ◌*◌, ◌/◌, ◌%◌, ◌^◌, bit_and, List, [], ◌∷◌, ◌++◌, Option, none, some,
  length, take, drop, replicate, get_elem?, set, ltb, leb, ◌==◌, not, ◌||◌, Bool, if◌then◌else◌,
}
use chdkptp_astro.Base.Partial.{◌>>=◌}
use chdkptp_astro.Ptp.Endian.{store}

abbrev pub fl_free : ℕ
fl_free = 1

abbrev pub fl_readonly : ℕ
fl_readonly = 2

pub record LBuf : Type 0 where
  pub len : ℕ
  pub flags : ℕ
  pub bytes : List ℕ

pub data LuaError : Type 0 where
  malloc_failed : LuaError
  readonly_lbuf : LuaError
  negative_offset : LuaError
  insufficient_stack : LuaError

-- A call returns, raises an error, or accesses memory outside the buffer.
pub data Result (A : Type 0) : Type 0 where
  returned : A → Result A
  raised : LuaError → Result A
  outside : Result A

abbrev pub checked : {A B : Type 0} → Option A → (A → B) → Result B
checked none f = outside
checked (some a) f = returned (f a)

-- An int: `negsuc n` is -(n + 1).
pub data ℤ : Type 0 where
  pos : ℕ → ℤ
  negsuc : ℕ → ℤ

unfoldable pub lbuf_create : List ℕ → ℕ → ℕ → LBuf
lbuf_create bytes len flags = record { len = len; flags = flags; bytes = bytes }

-- `n` bytes from `off` on.
abbrev pub slice : ℕ → ℕ → List ℕ → Option (List ℕ)
slice off n bytes = if ltb (length bytes) (off + n) then none else some (take n (drop off bytes))

-- `get_index_arg`: the sum is unsigned, and its value as an int is negative from 2^31 on.
unfoldable pub index_arg : ℕ → ℤ → ℕ
index_arg len (pos v) = v
index_arg len (negsuc n) =
    let val = (len + (2 ^ 32 - suc n) + 1) % 2 ^ 32 in if leb (2 ^ 31) val then 0 else val

abbrev pub or_default : Option ℤ → ℕ → ℤ
or_default none d = pos d
or_default (some v) d = v

-- Between 1-based `start` and `end`: the offset and the number of bytes; `none` where
-- `!buf->len || end < start`.
abbrev pub between : ℕ → ℕ → ℕ → Option (ℕ × ℕ)
between len start end =
    if (len == 0) || ltb end start
    then none
    else (let first = if ltb 0 start then start - 1 else start in some (first, end - first))

abbrev pub span : ℕ → ℕ → ℕ → Option (ℕ × ℕ)
span len start end = between len start (if ltb len end then len else end)

abbrev pub string_of : LBuf → Option (ℕ × ℕ) → Result (List ℕ)
string_of buf none = returned []
string_of buf (some s) = checked (slice s.0 s.1 buf.bytes) (λ bytes. bytes)

unfoldable pub lbuf_string : LBuf → Option ℤ → Option ℤ → Result (List ℕ)
lbuf_string buf i j =
    string_of buf
      (span buf.len (index_arg buf.len (or_default i 1)) (index_arg buf.len (or_default j buf.len)))

-- `malloc` tells for which sizes there is memory.
abbrev pub sub_of : (ℕ → Bool) → LBuf → Option (ℕ × ℕ) → Result LBuf
sub_of malloc buf none = returned (lbuf_create [] 0 0)
sub_of malloc buf (some s) =
    if malloc s.1
    then checked (slice s.0 s.1 buf.bytes) (λ bytes. lbuf_create bytes s.1 fl_free)
    else raised malloc_failed

unfoldable pub lbuf_sub : (ℕ → Bool) → LBuf → Option ℤ → Option ℤ → Result LBuf
lbuf_sub malloc buf i j =
    sub_of malloc buf
      (span buf.len (index_arg buf.len (or_default i 1)) (index_arg buf.len (or_default j buf.len)))

-- The result `none` is nil.
abbrev pub bytes_of : (ℕ → Bool) → LBuf → Option (ℕ × ℕ) → Result (Option (List ℕ))
bytes_of check_stack buf none = returned none
bytes_of check_stack buf (some s) =
    if check_stack s.1 then checked (slice s.0 s.1 buf.bytes) some else raised insufficient_stack

unfoldable pub lbuf_byte : (ℕ → Bool) → LBuf → Option ℤ → Option ℤ → Result (Option (List ℕ))
lbuf_byte check_stack buf i j =
    let start = index_arg buf.len (or_default i 1) in
    bytes_of check_stack buf (span buf.len start (index_arg buf.len (or_default j start)))

-- `lbuf.new` of a string, or of a size.
pub data NewArg : Type 0 where
  string : List ℕ → NewArg
  size_of : ℕ → NewArg

abbrev pub new_bytes : NewArg → List ℕ
new_bytes (string s) = s
new_bytes (size_of n) = replicate n 0

unfoldable pub lbuf_new : (ℕ → Bool) → NewArg → Result LBuf
lbuf_new malloc arg =
    let len = length (new_bytes arg) in
    if len == 0
    then returned (lbuf_create [] 0 0)
    else (if malloc len
        then returned (lbuf_create (new_bytes arg) (len % 2 ^ 32) fl_free)
        else raised malloc_failed)

-- `lbuf_reverse_bytes`, on a count of steps: `len - 1` is unsigned, and `i` is an `int`, whose
-- overflow is undefined.
unfoldable pub swap_at : ℕ → List ℕ → Option (List ℕ)
swap_at i bytes =
    get_elem? bytes (i + 1) >>= λ t. get_elem? bytes i >>= λ b. some (set (set bytes (i + 1) b) i t)

unfoldable pub reverse_from : ℕ → ℕ → ℕ → List ℕ → Option (List ℕ)
reverse_from zero i limit bytes = some bytes
reverse_from (suc n) i limit bytes =
    let again = λ (bytes : List ℕ). reverse_from n (i + 2) limit bytes in
    if ltb i limit
    then (swap_at i bytes >>= λ bytes. if ltb (i + 2) (2 ^ 31) then again bytes else none)
    else some bytes

unfoldable pub reverse_bytes : LBuf → Result LBuf
reverse_bytes buf =
    checked (reverse_from (suc buf.len) 0 ((buf.len + 2 ^ 32 - 1) % 2 ^ 32) buf.bytes)
      (λ bytes. record { len = buf.len; flags = buf.flags; bytes = bytes })

-- One element of a buffer: its size, and how it is read and written in memory.
pub record Cell (A : Type 0) : Type 0 where
  pub size : ℕ
  pub read : List ℕ → A
  pub write : A → List ℕ

module _ {A : Type 0} (cell : Cell A) where
  -- The loops over elements.
  unfoldable pub read_cells : ℕ → ℕ → List ℕ → Option (List A)
  read_cells zero off bytes = some []
  read_cells (suc n) off bytes = slice off cell.size bytes >>= λ bs.
      read_cells n (off + cell.size) bytes >>= λ rest. some (cell.read bs ∷ rest)

  unfoldable pub write_cells : List A → ℕ → List ℕ → Option (List ℕ)
  write_cells [] off bytes = some bytes
  write_cells (v ∷ vs) off bytes =
      store off (cell.write v) bytes >>= write_cells vs (off + cell.size)

  -- The count that `get_vals` reads for its argument.
  unfoldable pub clamp_count : ℕ → ℕ → ℤ → ℕ
  clamp_count len off (negsuc n) = (len + 2 ^ 32 - off) % 2 ^ 32 / cell.size
  clamp_count len off (pos count) =
      if ltb len ((off + count * cell.size) % 2 ^ 32)
      then (len + 2 ^ 32 - off) % 2 ^ 32 / cell.size
      else count

  -- `check_stack` is `lua_checkstack`.
  unfoldable pub get_from : (ℕ → Bool) → LBuf → ℕ → ℤ → Result (List A)
  get_from check_stack buf off count =
      if ltb ((buf.len + 2 ^ 32 - cell.size) % 2 ^ 32) off
      then returned []
      else (let n = clamp_count buf.len off count in
          if check_stack n
          then checked (read_cells n off buf.bytes) (λ vs. vs)
          else raised insufficient_stack)

  unfoldable pub get_vals : (ℕ → Bool) → LBuf → Option ℤ → Option ℤ → Result (List A)
  get_vals check_stack buf off count = elim (or_default off 0) [
    | negsuc n ↦ raised negative_offset
    | pos off ↦ get_from check_stack buf off (or_default count 1)
  ]

  -- The number of elements set, and the buffer.
  unfoldable pub set_from : LBuf → ℕ → List A → Result (ℕ × LBuf)
  set_from buf off vals =
      if ltb ((buf.len + 2 ^ 32 - cell.size) % 2 ^ 32) off
      then returned (0, buf)
      else (let room = (buf.len + 2 ^ 32 - off) % 2 ^ 32 in
          let count =
            if ltb room (length vals * cell.size % 2 ^ 32) then room / cell.size else length vals in
          checked (write_cells (take count vals) off buf.bytes)
            (λ bytes. (count, record { len = buf.len; flags = buf.flags; bytes = bytes })))

  unfoldable pub set_vals : LBuf → Option ℤ → List A → Result (ℕ × LBuf)
  set_vals buf off vals =
      if not (bit_and buf.flags fl_readonly == 0)
      then raised readonly_lbuf
      else elim (or_default off 0) [
        | negsuc n ↦ raised negative_offset
        | pos off ↦ set_from buf off vals
      ]

-- A number in `n` bytes of a little-endian host, and the number of bytes.
abbrev pub to_bytes : ℕ → ℕ → List ℕ
to_bytes zero v = []
to_bytes (suc n) v = v % 256 ∷ to_bytes n (v / 256)

abbrev pub from_bytes : List ℕ → ℕ
from_bytes [] = 0
from_bytes (b ∷ bs) = b + 256 * from_bytes bs

-- The elements of the `get_u` and `set_u` methods.
abbrev pub unsigned : ℕ → Cell ℕ
unsigned size = record { size = size; read = from_bytes; write = to_bytes size }

-- The elements of the `get_i` and `set_i` methods, in two's complement.
abbrev pub signed_read : ℕ → List ℕ → ℤ
signed_read size bs =
    let v = from_bytes bs in
    if leb (2 ^ (8 * size - 1)) v then negsuc (2 ^ (8 * size) - 1 - v) else pos v

abbrev pub signed_write : ℕ → ℤ → List ℕ
signed_write size (pos v) = to_bytes size v
signed_write size (negsuc n) = to_bytes size (2 ^ (8 * size) - suc n)

abbrev pub signed : ℕ → Cell ℤ
signed size = record { size = size; read = signed_read size; write = signed_write size }
