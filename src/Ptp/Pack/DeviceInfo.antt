-- ===== src/Ptp/Pack/DeviceInfo.antt =====
-- `PTPDeviceInfo` (ptp.h) and `ptp_unpack_DI` (ptp-pack.c).
mod Fields
pub mod Layout
use chdkptp_astro.Base.{ℕ, ◌+◌, ◌*◌, List, Option, none, some, length}
use chdkptp_astro.Base.Partial.{◌>>=◌}
use chdkptp_astro.Ptp.Endian.{dtoh16a, dtoh32a}
use chdkptp_astro.Ptp.Pack.Text.{Unpacked, unpack_string}
use chdkptp_astro.Ptp.Pack.Arrays.{unpack_uint16_array}

-- The counts of the arrays (`OperationsSupported_len` and so on) are the lengths of the lists. A
-- string is the buffer that was allocated for it, or NULL.
pub record DeviceInfo : Type 0 where
  pub standard_version : ℕ
  pub vendor_extension_id : ℕ
  pub vendor_extension_version : ℕ
  pub vendor_extension_desc : Option (List ℕ)
  pub functional_mode : ℕ
  pub operations_supported : List ℕ
  pub events_supported : List ℕ
  pub device_properties_supported : List ℕ
  pub capture_formats : List ℕ
  pub image_formats : List ℕ
  pub manufacturer : Option (List ℕ)
  pub model : Option (List ℕ)
  pub device_version : Option (List ℕ)
  pub serial_number : Option (List ℕ)

-- The four strings at the end, from `offset` on.
pub record Names : Type 0 where
  pub manufacturer : Option (List ℕ)
  pub model : Option (List ℕ)
  pub device_version : Option (List ℕ)
  pub serial_number : Option (List ℕ)

pub unpack_names : ℕ → List ℕ → ℕ → Option Names
unpack_names order base totallen = do
  manufacturer ← unpack_string order base (10 + totallen)
  let after_manufacturer = totallen + (manufacturer.len * 2 + 1)
  model ← unpack_string order base (10 + after_manufacturer)
  let after_model = after_manufacturer + (model.len * 2 + 1)
  device_version ← unpack_string order base (10 + after_model)
  let after_version = after_model + (device_version.len * 2 + 1)
  serial_number ← unpack_string order base (10 + after_version)
  some (record {
    manufacturer = manufacturer.string;
    model = model.string;
    device_version = device_version.string;
    serial_number = serial_number.string;
  })

-- The five arrays, and the `totallen` behind them.
pub record Lists : Type 0 where
  pub operations_supported : List ℕ
  pub events_supported : List ℕ
  pub device_properties_supported : List ℕ
  pub capture_formats : List ℕ
  pub image_formats : List ℕ
  pub totallen : ℕ

pub unpack_lists : ℕ → List ℕ → ℕ → Option Lists
unpack_lists order base totallen = do
  operations ← unpack_uint16_array order base (10 + totallen)
  let after_operations = totallen + length operations * 2 + 4
  events ← unpack_uint16_array order base (10 + after_operations)
  let after_events = after_operations + length events * 2 + 4
  properties ← unpack_uint16_array order base (10 + after_events)
  let after_properties = after_events + length properties * 2 + 4
  captures ← unpack_uint16_array order base (10 + after_properties)
  let after_captures = after_properties + length captures * 2 + 4
  images ← unpack_uint16_array order base (10 + after_captures)
  some (record {
    operations_supported = operations;
    events_supported = events;
    device_properties_supported = properties;
    capture_formats = captures;
    image_formats = images;
    totallen = after_captures + length images * 2 + 4;
  })

-- The fields stand at PTP_di_StandardVersion = 0, VendorExtensionID = 2,
-- VendorExtensionVersion = 6, VendorExtensionDesc = FunctionalMode = 8 and
-- OperationsSupported = 10; the last two move by `totallen`.
unfoldable pub unpack_di : ℕ → List ℕ → Option DeviceInfo
unpack_di order base = do
  standard_version ← dtoh16a order base 0
  vendor_extension_id ← dtoh32a order base 2
  vendor_extension_version ← dtoh16a order base 6
  desc ← unpack_string order base 8
  let totallen = desc.len * 2 + 1
  functional_mode ← dtoh16a order base (8 + totallen)
  lists ← unpack_lists order base totallen
  names ← unpack_names order base lists.totallen
  some (record {
    standard_version = standard_version;
    vendor_extension_id = vendor_extension_id;
    vendor_extension_version = vendor_extension_version;
    vendor_extension_desc = desc.string;
    functional_mode = functional_mode;
    operations_supported = lists.operations_supported;
    events_supported = lists.events_supported;
    device_properties_supported = lists.device_properties_supported;
    capture_formats = lists.capture_formats;
    image_formats = lists.image_formats;
    manufacturer = names.manufacturer;
    model = names.model;
    device_version = names.device_version;
    serial_number = names.serial_number;
  })
