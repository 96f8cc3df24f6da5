-- ===== src/Ptp/Pack/Text.antt =====
-- `ptp_unpack_string` and `ptp_pack_string` (ptp-pack.c). A C string is the list of its
-- characters, as bytes, without the terminator; a buffer is the list of its bytes.
pub mod RoundTrip
use chdkptp_astro.Base.{
  ℕ, zero, suc, ◌+◌, ◌-◌, ◌*◌, ◌%◌, ◌^◌, min, List, [], ◌∷◌, ◌++◌, Option, none, some, ltb, ◌==◌,
  if◌then◌else◌, length, set, take, replicate,
}
use chdkptp_astro.Base.Partial.{◌>>=◌}
use chdkptp_astro.Ptp.Endian.{dtoh8a, dtoh16a, htod16a, store}

-- PTP_MAXSTRLEN.
abbrev pub maxstrlen : ℕ
maxstrlen = 255

-- `string`, which is NULL for an empty string, and `*len`.
pub record Unpacked : Type 0 where
  pub string : Option (List ℕ)
  pub len : ℕ

-- `n` rounds of the loop from `i` on: `string[i]=(char)dtoh16a(&data[offset+i*2+1])`.
pub unpack_chars : ℕ → List ℕ → ℕ → ℕ → ℕ → Option (List ℕ)
unpack_chars order base offset i zero = some []
unpack_chars order base offset i (suc n) = dtoh16a order base (offset + i * 2 + 1) >>= λ w.
    unpack_chars order base offset (i + 1) n >>= λ cs. some ((w % 256) ∷ cs)

-- `offset` is a `uint16_t` and `*len` a `uint8_t`.
unfoldable pub unpack_string : ℕ → List ℕ → ℕ → Option Unpacked
unpack_string order base offset = dtoh8a base (offset % 2 ^ 16) >>= λ len.
    if len == 0
    then some (record { string = none; len = len })
    else unpack_chars order base (offset % 2 ^ 16) 0 (min len maxstrlen) >>= λ cs. some (record {
      string = some (set (cs ++ replicate (len - maxstrlen) 0) (len - 1) 0);
      len = len;
    })

-- `(uint16_t)string[i]`: a `char` is signed.
abbrev pub widen : ℕ → ℕ
widen c = if ltb c 128 then c else c + 0xff00

-- `htod16a(&data[offset+i*2+1],(uint16_t)string[i])` for the characters from `i` on.
pub pack_chars : ℕ → ℕ → ℕ → List ℕ → List ℕ → Option (List ℕ)
pack_chars order offset i [] base = some base
pack_chars order offset i (c ∷ cs) base =
    store (offset + i * 2 + 1) (htod16a order (widen c)) base >>= pack_chars order offset (i + 1) cs

-- The buffer after the call, and `*len`, the length cut to a `uint8_t`.
unfoldable pub pack_string : ℕ → List ℕ → List ℕ → ℕ → Option (List ℕ × ℕ)
pack_string order string base offset =
    let len = length string % 256 in
    store (offset % 2 ^ 16) (((len + 1) % 256) ∷ []) base
    >>= pack_chars order (offset % 2 ^ 16) 0 (take (min len maxstrlen) string)
    >>= λ out. some (out, len)
