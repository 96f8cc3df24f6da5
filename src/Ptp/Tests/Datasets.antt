-- ===== src/Ptp/Tests/Datasets.antt =====
-- Strings, arrays and datasets on concrete inputs.
use chdkptp_astro.Base.{none, ℕ, ◌^◌, ◌<◌, List, [], ◌∷◌, ◌++◌, ◌≡◌, some, length, replicate, arith}
use chdkptp_astro.Ptp.Endian.{htod32a}
use chdkptp_astro.Ptp.Pack.Text.{pack_string, unpack_string}
use chdkptp_astro.Ptp.Pack.Text.RoundTrip.{unpack_string-pack_string, encode}
use chdkptp_astro.Ptp.Pack.Arrays.{unpack_uint32_array}
use chdkptp_astro.Ptp.Pack.Arrays.Laws.{words32, words16, unpack_uint32_array-words32}
use chdkptp_astro.Ptp.Pack.DeviceInfo.{unpack_di}
use chdkptp_astro.Ptp.Pack.DeviceInfo.Layout.{
  Description, IsDescription, wire, described, unpack_di-wire,
}
use chdkptp_astro.Ptp.Pack.ObjectInfo.{Fixed, pack_oi, unpack_oi}
use chdkptp_astro.Ptp.Pack.ObjectInfo.RoundTrip.{unpack_oi-pack_oi}
use chdkptp_astro.Ptp.Pack.Property.{
  text, number, dtc_str, unpack_dpv, pack_dpv_text, pack_dpv_number,
}
use chdkptp_astro.Ptp.Pack.Property.RoundTrip.{unpack_dpv-pack_dpv_text, unpack_dpv-pack_dpv_number}

-- "Hé" behind two other bytes, big-endian.
unpack_string-pack_string_example :
    (out : List ℕ) × (pack_string 0xf0 (0x48 ∷ 0xe9 ∷ []) (7 ∷ 7 ∷ replicate 7 0) 2 ≡ some (out, 2))
    × (unpack_string 0xf0 out 2 ≡ some (record { string = some (0x48 ∷ 0xe9 ∷ 0 ∷ []); len = 3 }))
unpack_string-pack_string_example =
    unpack_string-pack_string 0xf0 (0x48 ∷ 0xe9 ∷ []) (7 ∷ 7 ∷ []) (replicate 7 0) (omega arith)
      (omega arith) (omega arith) (omega arith)

unpack_uint32_array-words32_example :
    unpack_uint32_array 0x0f
      (5 ∷ (htod32a 0x0f 2 ++ (words32 0x0f (0xdeadbeef ∷ 3 ∷ []) ++ 1 ∷ [])))
      1
    ≡ some (0xdeadbeef ∷ 3 ∷ [])
unpack_uint32_array-words32_example =
    unpack_uint32_array-words32 0x0f (0xdeadbeef ∷ 3 ∷ []) (5 ∷ []) (1 ∷ []) (omega arith)
      (omega arith) (omega arith)

abbrev pub camera : Description
camera = record {
  standard_version = 100;
  vendor_extension_id = 0x0b;
  vendor_extension_version = 100;
  vendor_extension_desc = [];
  functional_mode = 0;
  operations = 0x1001 ∷ 0x1002 ∷ 0x9999 ∷ [];
  events = 0x4004 ∷ [];
  properties = [];
  captures = 0x3801 ∷ [];
  images = 0x3801 ∷ 0x3802 ∷ [];
  manufacturer = 0x43 ∷ 0x61 ∷ [];
  model = 0x44 ∷ [];
  device_version = 0x31 ∷ 0x2d ∷ 0x36 ∷ [];
  serial_number = [];
}

pub camera-IsDescription : IsDescription camera
camera-IsDescription = omega arith

pub camera-fits : length (wire 0x0f camera) < 2 ^ 16
unfolding words16 encode
camera-fits = omega arith

unpack_di-wire_example : unpack_di 0x0f (wire 0x0f camera) ≡ some (described camera)
unpack_di-wire_example = unpack_di-wire 0x0f camera camera-IsDescription camera-fits

abbrev photo : Fixed
photo = record {
  storage_id = 0x10001;
  object_format = 0x3801;
  protection_status = 0;
  object_compressed_size = 0x123456;
  thumb_format = 0x3808;
  thumb_compressed_size = 4000;
  thumb_pix_width = 160;
  thumb_pix_height = 120;
  image_pix_width = 4000;
  image_pix_height = 3000;
  image_bit_depth = 24;
  parent_object = 7;
  association_type = 0;
  association_desc = 0;
  sequence_number = 0xffffffff;
}

-- "a.b", and a calendar that knows no date.
unpack_oi-pack_oi_example :
    (out : List ℕ) × (pack_oi 0xf0 photo (0x61 ∷ 0x2e ∷ 0x62 ∷ []) ≡ some (out, length out))
    × (unpack_oi (record { atoi = λ s. 0; mktime = λ tm. (0, tm) }) 0xf0 out
        ≡ some (record {
          fixed = photo;
          filename = some (0x61 ∷ 0x2e ∷ 0x62 ∷ 0 ∷ []);
          capture_date = none;
          modification_date = none;
        }))
unpack_oi-pack_oi_example =
    unpack_oi-pack_oi (record { atoi = λ s. 0; mktime = λ tm. (0, tm) }) 0xf0 photo
      (0x61 ∷ 0x2e ∷ 0x62 ∷ []) (omega arith) (omega arith) (omega arith)

unpack_dpv-pack_dpv_text_example :
    (out : List ℕ) × (pack_dpv_text 0x0f (0x61 ∷ 0xe9 ∷ []) ≡ some out)
    × (unpack_dpv 0x0f out dtc_str ≡ some (some (text (some (0x61 ∷ 0xe9 ∷ 0 ∷ [])))))
unpack_dpv-pack_dpv_text_example =
    unpack_dpv-pack_dpv_text 0x0f (0x61 ∷ 0xe9 ∷ []) (omega arith) (omega arith)

unpack_dpv-pack_dpv_number_example :
    unpack_dpv 0xf0 (pack_dpv_number 0xf0 0x8001 4) 4 ≡ some (some (number 0x8001))
unpack_dpv-pack_dpv_number_example =
    unpack_dpv-pack_dpv_number 0xf0 0x8001 4 (omega arith) (omega arith)
