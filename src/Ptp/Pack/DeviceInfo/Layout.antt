-- ===== src/Ptp/Pack/DeviceInfo/Layout.antt =====
-- The DeviceInfo dataset as the PTP standard lays it out, and that `ptp_unpack_DI` reads it.
use chdkptp_astro.Base.{
  ℕ, ◌+◌, ◌*◌, ◌^◌, ◌<◌, ◌≡◌, refl, List, ◌++◌, some, length, arith, length-append,
}
use chdkptp_astro.Ptp.Endian.{htod16a, htod32a}
use chdkptp_astro.Ptp.Pack.Located.{
  At, At-whole, At-first, At-rest, dtoh16a-At, dtoh32a-At, wire_string, unpacked, unpacked_end,
  unpack_string-At,
}
use chdkptp_astro.Ptp.Pack.DeviceInfo.{DeviceInfo, unpack_di}
use chdkptp_astro.Ptp.Pack.DeviceInfo.Fields.{
  IsString, IsArray16, length-wire_lists, wire_names, wire_lists, unpack_names-At, unpack_lists-At,
}

-- What a camera says of itself: the strings as texts.
pub record Description : Type 0 where
  pub standard_version : ℕ
  pub vendor_extension_id : ℕ
  pub vendor_extension_version : ℕ
  pub vendor_extension_desc : List ℕ
  pub functional_mode : ℕ
  pub operations : List ℕ
  pub events : List ℕ
  pub properties : List ℕ
  pub captures : List ℕ
  pub images : List ℕ
  pub manufacturer : List ℕ
  pub model : List ℕ
  pub device_version : List ℕ
  pub serial_number : List ℕ

pub record IsDescription (d : Description) : Type 0 where
  pub standard_version : d.standard_version < 2 ^ 16
  pub vendor_extension_id : d.vendor_extension_id < 2 ^ 32
  pub vendor_extension_version : d.vendor_extension_version < 2 ^ 16
  pub vendor_extension_desc : IsString d.vendor_extension_desc
  pub functional_mode : d.functional_mode < 2 ^ 16
  pub operations : IsArray16 d.operations
  pub events : IsArray16 d.events
  pub properties : IsArray16 d.properties
  pub captures : IsArray16 d.captures
  pub images : IsArray16 d.images
  pub manufacturer : IsString d.manufacturer
  pub model : IsString d.model
  pub device_version : IsString d.device_version
  pub serial_number : IsString d.serial_number

abbrev wire_tail : ℕ → Description → List ℕ
wire_tail order d =
    wire_lists order d.operations d.events d.properties d.captures d.images
    ++ wire_names order d.manufacturer d.model d.device_version d.serial_number

abbrev pub wire : ℕ → Description → List ℕ
wire order d =
    htod16a order d.standard_version
    ++ (htod32a order d.vendor_extension_id
        ++ (htod16a order d.vendor_extension_version
            ++ (wire_string order d.vendor_extension_desc
                ++ (htod16a order d.functional_mode ++ wire_tail order d))))

-- The structure that should come of it.
abbrev pub described : Description → DeviceInfo
described d = record {
  standard_version = d.standard_version;
  vendor_extension_id = d.vendor_extension_id;
  vendor_extension_version = d.vendor_extension_version;
  vendor_extension_desc = (unpacked d.vendor_extension_desc).string;
  functional_mode = d.functional_mode;
  operations_supported = d.operations;
  events_supported = d.events;
  device_properties_supported = d.properties;
  capture_formats = d.captures;
  image_formats = d.images;
  manufacturer = (unpacked d.manufacturer).string;
  model = (unpacked d.model).string;
  device_version = (unpacked d.device_version).string;
  serial_number = (unpacked d.serial_number).string;
}

unpack_di-At :
    {base : List ℕ} (order : ℕ) (d : Description)
    → At base 0 (wire order d)
    → IsDescription d
    → length (wire order d) < 2 ^ 16
    → unpack_di order base ≡ some (described d)
unfolding unpack_di
unpack_di-At {base} order d p v near =
    let e1 = htod16a order d.standard_version in
    let e2 = htod32a order d.vendor_extension_id in
    let e3 = htod16a order d.vendor_extension_version in
    let e4 = wire_string order d.vendor_extension_desc in
    let e5 = htod16a order d.functional_mode in
    let e6 = wire_lists order d.operations d.events d.properties d.captures d.images in
    let e7 = wire_names order d.manufacturer d.model d.device_version d.serial_number in
    let total = (unpacked d.vendor_extension_desc).len * 2 + 1 in
    let desc = unpacked_end order d.vendor_extension_desc in
    let lists = length-wire_lists order d.operations d.events d.properties d.captures d.images in
    let l4 = length-append e4 (e5 ++ (e6 ++ e7)) in
    let l6 = length-append e6 e7 in
    let p2 = At-rest e1 (e2 ++ (e3 ++ (e4 ++ (e5 ++ (e6 ++ e7))))) 2 p refl in
    let p3 = At-rest e2 (e3 ++ (e4 ++ (e5 ++ (e6 ++ e7)))) 6 p2 refl in
    let p4 = At-rest e3 (e4 ++ (e5 ++ (e6 ++ e7))) 8 p3 refl in
    let p5 = At-rest e4 (e5 ++ (e6 ++ e7)) (8 + total) p4 (omega arith) in
    let p6 = At-rest e5 (e6 ++ e7) (10 + total) p5 (omega arith) in
    let p7 =
      At-rest e6 e7
        (10
          + (total
              + length d.operations * 2
              + 4
              + length d.events * 2
              + 4
              + length d.properties * 2
              + 4
              + length d.captures * 2
              + 4
              + length d.images * 2
              + 4))
        p6 (omega arith) in
    rw
      (
        dtoh16a-At order d.standard_version
            (At-first e1 (e2 ++ (e3 ++ (e4 ++ (e5 ++ (e6 ++ e7))))) p) v.standard_version,
        dtoh32a-At order d.vendor_extension_id (At-first e2 (e3 ++ (e4 ++ (e5 ++ (e6 ++ e7)))) p2)
            v.vendor_extension_id,
        dtoh16a-At order d.vendor_extension_version (At-first e3 (e4 ++ (e5 ++ (e6 ++ e7))) p3)
            v.vendor_extension_version,
        unpack_string-At order d.vendor_extension_desc (At-first e4 (e5 ++ (e6 ++ e7)) p4)
            (omega arith) v.vendor_extension_desc.0 v.vendor_extension_desc.1,
        dtoh16a-At order d.functional_mode (At-first e5 (e6 ++ e7) p5) v.functional_mode,
        unpack_lists-At order total d.operations d.events d.properties d.captures d.images
            (At-first e6 e7 p6) (omega arith) v.operations v.events v.properties v.captures
            v.images,
        unpack_names-At order
            (total
              + length d.operations * 2
              + 4
              + length d.events * 2
              + 4
              + length d.properties * 2
              + 4
              + length d.captures * 2
              + 4
              + length d.images * 2
              + 4)
            d.manufacturer d.model d.device_version d.serial_number p7 (omega arith) v.manufacturer
            v.model v.device_version v.serial_number,
      )
      refl

-- A DeviceInfo dataset whose fields fit their types and that is shorter than 64 KiB, laid out in
-- either byte order, unpacks to what it says.
pub unpack_di-wire :
    (order : ℕ) (d : Description)
    → IsDescription d
    → length (wire order d) < 2 ^ 16
    → unpack_di order (wire order d) ≡ some (described d)
unpack_di-wire order d v near = unpack_di-At order d (At-whole (wire order d)) v near
