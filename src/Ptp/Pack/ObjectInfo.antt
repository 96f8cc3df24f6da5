-- ===== src/Ptp/Pack/ObjectInfo.antt =====
-- `PTPObjectInfo` (ptp.h), `ptp_pack_OI` and `ptp_unpack_OI` (ptp-pack.c).
pub mod RoundTrip
use chdkptp_astro.Base.{
  ℕ, ◌+◌, ◌-◌, ◌*◌, ◌%◌, ◌^◌, List, [], ◌++◌, Option, none, some, ltb, if◌then◌else◌, length, take,
  drop, replicate,
}
use chdkptp_astro.Base.Partial.{◌>>=◌}
use chdkptp_astro.Ptp.Endian.{dtoh16a, dtoh32a, htod16a, htod32a}
use chdkptp_astro.Ptp.Pack.Text.{Unpacked, unpack_string, pack_string}

-- The fields of fixed size, which stand one behind the other in the first 52 bytes of the dataset.
pub record Fixed : Type 0 where
  pub storage_id : ℕ
  pub object_format : ℕ
  pub protection_status : ℕ
  pub object_compressed_size : ℕ
  pub thumb_format : ℕ
  pub thumb_compressed_size : ℕ
  pub thumb_pix_width : ℕ
  pub thumb_pix_height : ℕ
  pub image_pix_width : ℕ
  pub image_pix_height : ℕ
  pub image_bit_depth : ℕ
  pub parent_object : ℕ
  pub association_type : ℕ
  pub association_desc : ℕ
  pub sequence_number : ℕ

-- A date that the code does not set is `none`.
pub record ObjectInfo : Type 0 where
  pub fixed : Fixed
  pub filename : Option (List ℕ)
  pub capture_date : Option ℕ
  pub modification_date : Option ℕ

-- `struct tm`; negative values are those of a 32 bit `int`.
pub record Tm : Type 0 where
  pub year : ℕ
  pub mon : ℕ
  pub mday : ℕ
  pub hour : ℕ
  pub min : ℕ
  pub sec : ℕ
  pub isdst : ℕ

-- `atoi` and `mktime` of the C library; `mktime` also puts the fields of its argument in order.
pub record Calendar : Type 0 where
  pub atoi : List ℕ → ℕ
  pub mktime : Tm → ℕ × Tm

unfoldable pub unpack_oi_fixed : ℕ → List ℕ → Option Fixed
unpack_oi_fixed order base = do
  storage_id ← dtoh32a order base 0
  object_format ← dtoh16a order base 4
  protection_status ← dtoh16a order base 6
  object_compressed_size ← dtoh32a order base 8
  thumb_format ← dtoh16a order base 12
  thumb_compressed_size ← dtoh32a order base 14
  thumb_pix_width ← dtoh32a order base 18
  thumb_pix_height ← dtoh32a order base 22
  image_pix_width ← dtoh32a order base 26
  image_pix_height ← dtoh32a order base 30
  image_bit_depth ← dtoh32a order base 34
  parent_object ← dtoh32a order base 38
  association_type ← dtoh16a order base 42
  association_desc ← dtoh32a order base 44
  sequence_number ← dtoh32a order base 48
  some (record {
    storage_id = storage_id;
    object_format = object_format;
    protection_status = protection_status;
    object_compressed_size = object_compressed_size;
    thumb_format = thumb_format;
    thumb_compressed_size = thumb_compressed_size;
    thumb_pix_width = thumb_pix_width;
    thumb_pix_height = thumb_pix_height;
    image_pix_width = image_pix_width;
    image_pix_height = image_pix_height;
    image_bit_depth = image_bit_depth;
    parent_object = parent_object;
    association_type = association_type;
    association_desc = association_desc;
    sequence_number = sequence_number;
  })

abbrev cleared_tm : Tm
cleared_tm = record { year = 0; mon = 0; mday = 0; hour = 0; min = 0; sec = 0; isdst = 0 }

module _ (calendar : Calendar) where
  -- `strncpy (tmp, date + at, n); … atoi (tmp)`.
  digits : List ℕ → ℕ → ℕ → ℕ
  digits date at n = calendar.atoi (take n (drop at date))

  abbrev minus : ℕ → ℕ → ℕ
  minus x y = (x + 2 ^ 32 - y) % 2 ^ 32

  -- A date of more than 15 characters, the terminator included; `tm` goes on to the next date.
  pub read_date : Unpacked → Tm → Option ℕ × Tm
  read_date unpacked tm = elim unpacked.string [
    | none ↦ (none, tm)
    | some date ↦
        if ltb 15 unpacked.len
        then (let (time, tm') = calendar.mktime (record tm {
          year = minus (digits date 0 4) 1900;
          mon = minus (digits date 4 2) 1;
          mday = digits date 6 2;
          hour = digits date 9 2;
          min = digits date 11 2;
          sec = digits date 13 2;
        }) in
            (some time, tm'))
        else (none, tm)
  ]

  unfoldable pub unpack_oi : ℕ → List ℕ → Option ObjectInfo
  unpack_oi order base = do
    fixed ← unpack_oi_fixed order base
    filename ← unpack_string order base 52
    captured ← unpack_string order base (52 + filename.len * 2 + 1)
    let (capture_date, tm) = read_date captured cleared_tm
    modified ← unpack_string order base (52 + filename.len * 2 + captured.len * 2 + 2)
    some (record {
      fixed = fixed;
      filename = filename.string;
      capture_date = capture_date;
      modification_date = (read_date modified tm).0;
    })

-- The stores of `ptp_pack_OI` in front of the file name.
abbrev pub fixed_bytes : ℕ → Fixed → List ℕ
fixed_bytes order f =
    htod32a order f.storage_id
    ++ (htod16a order f.object_format
        ++ (htod16a order f.protection_status
            ++ (htod32a order f.object_compressed_size
                ++ (htod16a order f.thumb_format
                    ++ (htod32a order f.thumb_compressed_size
                        ++ (htod32a order f.thumb_pix_width
                            ++ (htod32a order f.thumb_pix_height
                                ++ (htod32a order f.image_pix_width
                                    ++ (htod32a order f.image_pix_height
                                        ++ (htod32a order f.image_bit_depth
                                            ++ (htod32a order f.parent_object
                                                ++ (htod16a order f.association_type
                                                    ++ (htod32a order f.association_desc
                                                        ++ htod32a order
                                                            f.sequence_number)))))))))))))

-- The dataset in its buffer, and the size that is returned. The file name is a C string, without
-- its terminator here.
unfoldable pub pack_oi : ℕ → Fixed → List ℕ → Option (List ℕ × ℕ)
pack_oi order fixed filename =
    pack_string order filename
      (fixed_bytes order fixed ++ replicate (1 + (length filename + 1) * 2 + 4) 0) 52
    >>= λ r. some (r.0, 53 + (r.1 + 1) * 2 + (0 + 1) * 4)
