-- ===== src/Rawimg/Image/Convert.antt =====
-- `rawimg_lua_convert`: the image with its pixels in another format. The new lbuf is not the one of
-- the image.
pub mod Converted
pub mod Shifts
pub mod Obtained
use chdkptp_astro.Base.{
  ℕ, ◌+◌, ◌-◌, ◌*◌, ◌/◌, ◌%◌, ◌^◌, List, Option, none, some, length, ltb, ◌==◌, not, if◌then◌else◌,
}
use chdkptp_astro.Base.Partial.{◌>>=◌}
use chdkptp_astro.Base.Loops.{for_loop}
use chdkptp_astro.Rawimg.Bytes.{shl}
use chdkptp_astro.Rawimg.Format.{RawFormat, find_format}
use chdkptp_astro.Rawimg.Image.{RawImage, pixel_at, put_at}

-- The sign of `shift`: 0 and above is a shift to the right.
pub data Shift : Type 0 where
  right : ℕ → Shift
  left : ℕ → Shift

abbrev pub to_left : ℕ → Shift
to_left n = if n == 0 then right 0 else left n

-- `valupmod` and `valdownmod` are 1 for "shift".
unfoldable pub choose_shift : ℕ → ℕ → ℕ → ℕ → Shift
choose_shift old_bpp bpp valupmod valdownmod =
    if ltb bpp old_bpp
    then (if valdownmod == 1 then right (old_bpp - bpp) else right 0)
    else (if valupmod == 1 then to_left (bpp - old_bpp) else right 0)

unfoldable pub shift_value : Shift → ℕ → ℕ
shift_value (right n) v = v / 2 ^ n
shift_value (left n) v = shl v n

pub data ConvertError : Type 0 where
  unknown_format : ConvertError
  lbuf_size_mismatched : ConvertError

-- The memory of the result: what `malloc` returns, or the lbuf of the options.
pub data Destination : Type 0 where
  allocated : List ℕ → Destination
  supplied : List ℕ → Destination

pub data Outcome : Type 0 where
  refused : ConvertError → Outcome
  undefined : Outcome
  converted : RawImage → List ℕ → Outcome

unfoldable pub convert_pixel :
    RawImage → List ℕ → RawImage → Shift → ℕ → ℕ → List ℕ → Option (List ℕ)
convert_pixel img mem newimg shift y x dest =
    pixel_at img mem x y >>= λ v. put_at newimg dest x y (shift_value shift v)

unfoldable pub convert_pixels : RawImage → List ℕ → RawImage → Shift → List ℕ → Option (List ℕ)
convert_pixels img mem newimg shift dest =
    for_loop (λ y. for_loop (convert_pixel img mem newimg shift y) 0 img.width) 0 img.height dest

abbrev pub outcome_of : RawImage → Option (List ℕ) → Outcome
outcome_of newimg none = undefined
outcome_of newimg (some dest) = converted newimg dest

-- `black_level >> shift`: a negative shift is undefined in C.
unfoldable pub shift_black : Shift → ℕ → Option ℕ
shift_black (right n) level = some (level / 2 ^ n)
shift_black (left n) level = none

unfoldable pub new_image : RawImage → RawFormat → ℕ → ℕ → RawImage
new_image img fmt bpp black = record {
  fmt = fmt;
  row_bytes = img.width * bpp % 2 ^ 32 / 8;
  width = img.width;
  height = img.height;
  cfa_pattern = img.cfa_pattern;
  active_top = img.active_top;
  active_left = img.active_left;
  active_bottom = img.active_bottom;
  active_right = img.active_right;
  black_level = black;
  data_start = 0;
}

unfoldable pub convert_to : RawImage → List ℕ → Shift → ℕ → Destination → RawImage → Outcome
convert_to img mem shift new_size (allocated dest) newimg =
    outcome_of newimg (convert_pixels img mem newimg shift dest)
convert_to img mem shift new_size (supplied dest) newimg =
    if not (length dest == new_size)
    then refused lbuf_size_mismatched
    else outcome_of newimg (convert_pixels img mem newimg shift dest)

abbrev pub convert_black :
    RawImage → List ℕ → ℕ → Shift → Destination → RawFormat → Option ℕ → Outcome
convert_black img mem bpp shift dest fmt none = undefined
convert_black img mem bpp shift dest fmt (some black) =
    convert_to img mem shift (img.width * img.height * bpp % 2 ^ 32 / 8) dest
      (new_image img fmt bpp black)

abbrev pub convert_found : RawImage → List ℕ → ℕ → Shift → Destination → Option RawFormat → Outcome
convert_found img mem bpp shift dest none = refused unknown_format
convert_found img mem bpp shift dest (some fmt) =
    convert_black img mem bpp shift dest fmt (shift_black shift img.black_level)

unfoldable pub convert : RawImage → List ℕ → ℕ → ℕ → ℕ → ℕ → Destination → Outcome
convert img mem bpp endian valupmod valdownmod dest =
    convert_found img mem bpp (choose_shift img.fmt.bpp bpp valupmod valdownmod) dest
      (find_format bpp endian)
