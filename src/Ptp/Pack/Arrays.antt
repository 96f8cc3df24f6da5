-- ===== src/Ptp/Pack/Arrays.antt =====
-- `ptp_unpack_uint32_t_array` and `ptp_unpack_uint16_t_array` (ptp-pack.c), with the two datasets
-- that are one array: object handles and storage ids.
pub mod Laws
use chdkptp_astro.Base.{ℕ, zero, suc, ◌+◌, ◌*◌, ◌%◌, ◌^◌, List, [], ◌∷◌, Option, none, some, length}
use chdkptp_astro.Base.Partial.{◌>>=◌}
use chdkptp_astro.Ptp.Endian.{dtoh16a, dtoh32a}

-- `while (n>i)` with `n` rounds left, from element `i` on.
pub unpack_words32 : ℕ → List ℕ → ℕ → ℕ → ℕ → Option (List ℕ)
unpack_words32 order base offset i zero = some []
unpack_words32 order base offset i (suc n) = dtoh32a order base (offset + 4 * (i + 1)) >>= λ w.
    unpack_words32 order base offset (i + 1) n >>= λ ws. some (w ∷ ws)

pub unpack_words16 : ℕ → List ℕ → ℕ → ℕ → ℕ → Option (List ℕ)
unpack_words16 order base offset i zero = some []
unpack_words16 order base offset i (suc n) = dtoh16a order base (offset + 2 * (i + 2)) >>= λ w.
    unpack_words16 order base offset (i + 1) n >>= λ ws. some (w ∷ ws)

-- The array; the count that is returned is its length. `offset` is a `uint16_t`.
unfoldable pub unpack_uint32_array : ℕ → List ℕ → ℕ → Option (List ℕ)
unpack_uint32_array order base offset =
    dtoh32a order base (offset % 2 ^ 16) >>= unpack_words32 order base (offset % 2 ^ 16) 0

unfoldable pub unpack_uint16_array : ℕ → List ℕ → ℕ → Option (List ℕ)
unpack_uint16_array order base offset =
    dtoh32a order base (offset % 2 ^ 16) >>= unpack_words16 order base (offset % 2 ^ 16) 0

-- PTP_oh and PTP_sids are 0.
unfoldable pub unpack_oh : ℕ → List ℕ → Option (List ℕ)
unpack_oh order base = unpack_uint32_array order base 0

unfoldable pub unpack_sids : ℕ → List ℕ → Option (List ℕ)
unpack_sids order base = unpack_uint32_array order base 0
