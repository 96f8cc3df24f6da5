-- ===== src/Lbuf/Tests.antt =====
-- A concrete buffer, and the theorems about buffers at it.
use chdkptp_astro.Base.{List, [], ◌∷◌, none, some, length, take, true, ◌≡◌, inl, inr, refl, arith}
use chdkptp_astro.Lbuf.{
  LBuf, ℤ, pos, negsuc, signed, get_vals, set_vals, lbuf_string, reverse_bytes, returned,
}
use chdkptp_astro.Lbuf.Cells.{no_more, one_more, get_vals-set_vals}
use chdkptp_astro.Lbuf.Cells.Numbers.{Faithful-signed, IsSigned}
use chdkptp_astro.Lbuf.Reverse.{with_bytes, reverse_bytes_twice}
use chdkptp_astro.Lbuf.Sub.{lbuf_string-positions}

abbrev five : LBuf
five = record { len = 5; flags = 1; bytes = 10 ∷ 20 ∷ 30 ∷ 40 ∷ 50 ∷ [] }

abbrev two_numbers : List ℤ
two_numbers = pos 300 ∷ negsuc 1 ∷ []

get_vals-set_vals_example :
    (buf' : LBuf) × (set_vals (signed 2) five (some (pos 1)) two_numbers ≡ returned (2, buf'))
    × (get_vals (signed 2) (λ n. true) buf' (some (pos 1)) (some (pos 2)) ≡ returned two_numbers)
    × (length buf'.bytes ≡ 5)
    × (take 1 buf'.bytes ≡ 10 ∷ [])
get_vals-set_vals_example =
    get_vals-set_vals (signed 2) (IsSigned 2) (Faithful-signed 2 (inr (inl refl))) (λ n. true) five
      1 two_numbers (omega arith) refl refl (omega arith)
      (one_more (omega arith) (one_more (omega arith) no_more)) (omega arith) (omega arith) refl

reverse_bytes_twice_example :
    (reverse_bytes five ≡ returned (with_bytes five (20 ∷ 10 ∷ 40 ∷ 30 ∷ 50 ∷ [])))
    × (reverse_bytes (with_bytes five (20 ∷ 10 ∷ 40 ∷ 30 ∷ 50 ∷ [])) ≡ returned five)
reverse_bytes_twice_example = reverse_bytes_twice five refl (omega arith) (omega arith)

lbuf_string-positions_example :
    lbuf_string five (some (negsuc 2)) none ≡ returned (30 ∷ 40 ∷ 50 ∷ [])
lbuf_string-positions_example =
    lbuf_string-positions five refl (some (negsuc 2)) none (omega arith) (omega arith) (omega arith)
