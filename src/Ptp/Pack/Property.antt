-- ===== src/Ptp/Pack/Property.antt =====
-- Device property values and descriptions (ptp.h, ptp-pack.c): `ptp_unpack_DPV`, `ptp_pack_DPV` and
-- `ptp_unpack_DPD`.
pub mod RoundTrip
use chdkptp_astro.Base.{
  ℕ, zero, suc, ◌+◌, ◌*◌, ◌%◌, ◌^◌, List, [], ◌∷◌, ◌++◌, Bool, Option, none, some, ◌==◌, ◌||◌,
  if◌then◌else◌, length, replicate,
}
use chdkptp_astro.Base.Partial.{◌>>=◌}
use chdkptp_astro.Ptp.Endian.{dtoh8a, dtoh16a, dtoh32a, htod16a, htod32a}
use chdkptp_astro.Ptp.Pack.Text.{Unpacked, unpack_string, pack_string}

-- PTP_DTC_STR, PTP_DPFF_Range and PTP_DPFF_Enumeration.
abbrev pub dtc_str : ℕ
dtc_str = 0xffff

abbrev pub form_range : ℕ
form_range = 1

abbrev pub form_enumeration : ℕ
form_enumeration = 2

-- What a `void *` of a property points to. The bits of a number do not tell its sign.
pub data Value : Type 0 where
  number : ℕ → Value
  text : Option (List ℕ) → Value

-- `sizeof` the type of an integer property: PTP_DTC_INT8 and PTP_DTC_UINT8, those of 16 and those
-- of 32 bits. The others are not implemented, 0.
abbrev pub width : ℕ → ℕ
width datatype =
    if datatype == 1 || datatype == 2
    then 1
    else if datatype == 3 || datatype == 4
    then 2
    else if datatype == 5 || datatype == 6
    then 4
    else 0

-- `CTVAL` and `CTVA` at an offset, by the size of the type.
unfoldable pub read_number : ℕ → List ℕ → ℕ → ℕ → Option Value
read_number order base size off =
    if size == 1
    then (dtoh8a base off >>= λ x. some (number x))
    else if size == 2
    then (dtoh16a order base off >>= λ x. some (number x))
    else (dtoh32a order base off >>= λ x. some (number x))

-- `*value` for a type that is not implemented stays what it was, `none` inside.
unfoldable pub unpack_dpv : ℕ → List ℕ → ℕ → Option (Option Value)
unpack_dpv order base datatype =
    if datatype == dtc_str
    then (unpack_string order base 0 >>= λ u. some (some (text u.string)))
    else if width datatype == 0
    then some none
    else (read_number order base (width datatype) 0 >>= λ v. some (some v))

-- The stored bytes, with a C string without its terminator.
unfoldable pub pack_dpv_text : ℕ → List ℕ → Option (List ℕ)
pack_dpv_text order string =
    pack_string order string (replicate (length string * 2 + 3) 0) 0 >>= λ r. some r.0

unfoldable pub pack_dpv_number : ℕ → ℕ → ℕ → List ℕ
pack_dpv_number order x datatype =
    if width datatype == 1
    then x % 256 ∷ []
    else if width datatype == 2
    then htod16a order (x % 2 ^ 16)
    else if width datatype == 4
    then htod32a order (x % 2 ^ 32)
    else []

pub record Defaults : Type 0 where
  pub factory_default : Option Value
  pub current : Option Value
  pub totallen : ℕ

-- The first `switch` of `ptp_unpack_DPD`.
unfoldable pub unpack_defaults : ℕ → List ℕ → ℕ → Option Defaults
unpack_defaults order base datatype =
    if datatype == dtc_str
    then (do
      factory ← unpack_string order base 5
      let totallen = factory.len * 2 + 1
      current ← unpack_string order base (5 + totallen)
      some (record {
        factory_default = some (text factory.string);
        current = some (text current.string);
        totallen = totallen + (current.len * 2 + 1);
      }))
    else if width datatype == 0
    then some (record { factory_default = none; current = none; totallen = 0 })
    else (do
      factory ← read_number order base (width datatype) 5
      current ← read_number order base (width datatype) (5 + width datatype)
      some (record {
        factory_default = some factory;
        current = some current;
        totallen = width datatype + width datatype;
      }))

-- `MCTVA`: `n` numbers one behind the other from `off` on.
pub unpack_numbers : ℕ → List ℕ → ℕ → ℕ → ℕ → Option (List Value)
unpack_numbers order base size off zero = some []
unpack_numbers order base size off (suc n) = read_number order base size off >>= λ v.
    unpack_numbers order base size (off + size) n >>= λ vs. some (v ∷ vs)

pub unpack_texts : ℕ → List ℕ → ℕ → ℕ → Option (List Value)
unpack_texts order base off zero = some []
unpack_texts order base off (suc n) = unpack_string order base off >>= λ u.
    unpack_texts order base (off + (u.len * 2 + 1)) n >>= λ vs. some (text (u.string) ∷ vs)

-- `FormFlag` and `FORM`; the three values of a range are its minimum, maximum and step, and nothing
-- is stored for a type that is not an integer. `NumberOfValues` is kept beside the values.
pub data Form : Type 0 where
  no_form : Form
  range : List Value → Form
  enumeration : ℕ → List Value → Form
  other_form : ℕ → Form

unfoldable pub unpack_range : ℕ → List ℕ → ℕ → ℕ → Option Form
unpack_range order base datatype off =
    if width datatype == 0
    then some (range [])
    else unpack_numbers order base (width datatype) off 3 >>= λ vs. some (range vs)

unfoldable pub unpack_enumeration : ℕ → List ℕ → ℕ → ℕ → Option Form
unpack_enumeration order base datatype off = dtoh16a order base off >>= λ n.
    if datatype == dtc_str
    then (unpack_texts order base (off + 2) n >>= λ vs. some (enumeration n vs))
    else if width datatype == 0
    then some (enumeration n [])
    else (unpack_numbers order base (width datatype) (off + 2) n >>= λ vs. some (enumeration n vs))

unfoldable pub unpack_form : ℕ → List ℕ → ℕ → ℕ → Option Form
unpack_form order base datatype totallen =
    if totallen == 0
    then some no_form
    else dtoh8a base (5 + totallen) >>= λ flag.
        if flag == form_range
        then unpack_range order base datatype (5 + (totallen + 1))
        else if flag == form_enumeration
        then unpack_enumeration order base datatype (5 + (totallen + 1))
        else if flag == 0
        then some no_form
        else some (other_form flag)

pub record PropDesc : Type 0 where
  pub property_code : ℕ
  pub data_type : ℕ
  pub get_set : ℕ
  pub factory_default_value : Option Value
  pub current_value : Option Value
  pub form : Form

unfoldable pub unpack_dpd : ℕ → List ℕ → Option PropDesc
unpack_dpd order base = do
  code ← dtoh16a order base 0
  datatype ← dtoh16a order base 2
  get_set ← dtoh8a base 4
  defaults ← unpack_defaults order base datatype
  form ← unpack_form order base datatype defaults.totallen
  some (record {
    property_code = code;
    data_type = datatype;
    get_set = get_set;
    factory_default_value = defaults.factory_default;
    current_value = defaults.current;
    form = form;
  })
