-- ===== src/Ptp/Endian.antt =====
-- libptp-endian.h and the `htod`/`dtoh` functions at the top of ptp-pack.c. As the header has it,
-- the host is little-endian: its `htole`/`letoh` macros are the identity, and `htons`, `htonl` and
-- their inverses swap bytes. Memory is a list of bytes.
pub mod Laws
use chdkptp_astro.Base.{
  ℕ, ◌+◌, ◌*◌, ◌/◌, ◌%◌, List, [], ◌∷◌, Option, none, some, ltb, ◌==◌, if◌then◌else◌, length,
  get_elem?,
}
use chdkptp_astro.Base.Partial.{◌>>=◌}
use chdkptp_astro.Ptp.Transport.Buffer.{write_at}

-- PTP_DL_LE. Every other value of `params->byteorder` is taken for big-endian.
abbrev pub dl_le : ℕ
dl_le = 0x0f

abbrev pub swap16 : ℕ → ℕ
swap16 x = x % 256 * 256 + x / 256 % 256

abbrev pub swap32 : ℕ → ℕ
swap32 x =
    x % 256 * 0x1000000 + x / 256 % 256 * 0x10000 + x / 0x10000 % 256 * 256 + x / 0x1000000 % 256

-- `*(uint16_t *)(a) = x` and `*(uint32_t *)(a) = x` on the host.
abbrev pub bytes16 : ℕ → List ℕ
bytes16 x = (x % 256) ∷ (x / 256 % 256) ∷ []

abbrev pub bytes32 : ℕ → List ℕ
bytes32 x = (x % 256) ∷ (x / 256 % 256) ∷ (x / 0x10000 % 256) ∷ (x / 0x1000000 % 256) ∷ []

unfoldable pub htod16 : ℕ → ℕ → ℕ
htod16 order x = if order == dl_le then x else swap16 x

unfoldable pub htod32 : ℕ → ℕ → ℕ
htod32 order x = if order == dl_le then x else swap32 x

unfoldable pub dtoh16 : ℕ → ℕ → ℕ
dtoh16 order x = if order == dl_le then x else swap16 x

unfoldable pub dtoh32 : ℕ → ℕ → ℕ
dtoh32 order x = if order == dl_le then x else swap32 x

-- The bytes that `htod16a` and `htod32a` store.
abbrev pub htod16a : ℕ → ℕ → List ℕ
htod16a order x = bytes16 (htod16 order x)

abbrev pub htod32a : ℕ → ℕ → List ℕ
htod32a order x = bytes32 (htod32 order x)

-- A store at an offset of an array; `none` is a store beyond its end.
abbrev pub store : ℕ → List ℕ → List ℕ → Option (List ℕ)
store off bs base =
    if ltb (length base) (off + length bs) then none else some (write_at off bs base)

abbrev pub load16 : List ℕ → ℕ → Option ℕ
load16 base off = get_elem? base off >>= λ a. get_elem? base (off + 1) >>= λ b. some (a + 256 * b)

abbrev pub load32 : List ℕ → ℕ → Option ℕ
load32 base off = get_elem? base off >>= λ a. get_elem? base (off + 1) >>= λ b.
    get_elem? base (off + 2) >>= λ c.
    get_elem? base (off + 3) >>= λ d. some (a + 256 * b + 0x10000 * c + 0x1000000 * d)

unfoldable pub dtoh8a : List ℕ → ℕ → Option ℕ
dtoh8a base off = get_elem? base off

unfoldable pub dtoh16a : ℕ → List ℕ → ℕ → Option ℕ
dtoh16a order base off = load16 base off >>= λ x. some (dtoh16 order x)

unfoldable pub dtoh32a : ℕ → List ℕ → ℕ → Option ℕ
dtoh32a order base off = load32 base off >>= λ x. some (dtoh32 order x)
