-- ===== src/Ptp/Pack/StorageInfo.antt =====
-- `PTPStorageInfo` (ptp.h) and `ptp_unpack_SI` (ptp-pack.c).
use chdkptp_astro.Base.{ℕ, ◌+◌, ◌*◌, List, Option, some}
use chdkptp_astro.Base.Partial.{◌>>=◌}
use chdkptp_astro.Ptp.Endian.{dtoh16a, dtoh32a}
use chdkptp_astro.Ptp.Pack.Text.{unpack_string}

-- `MaxCapability` and `FreeSpaceInBytes` are not read.
pub record StorageInfo : Type 0 where
  pub storage_type : ℕ
  pub filesystem_type : ℕ
  pub access_capability : ℕ
  pub free_space_in_images : ℕ
  pub storage_description : Option (List ℕ)
  pub volume_label : Option (List ℕ)

unfoldable pub unpack_si : ℕ → List ℕ → Option StorageInfo
unpack_si order base = do
  storage_type ← dtoh16a order base 0
  filesystem_type ← dtoh16a order base 2
  access_capability ← dtoh16a order base 4
  free_space_in_images ← dtoh32a order base 22
  description ← unpack_string order base 26
  label ← unpack_string order base (26 + description.len * 2 + 1)
  some (record {
    storage_type = storage_type;
    filesystem_type = filesystem_type;
    access_capability = access_capability;
    free_space_in_images = free_space_in_images;
    storage_description = description.string;
    volume_label = label.string;
  })
