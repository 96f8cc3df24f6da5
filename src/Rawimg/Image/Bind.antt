-- ===== src/Rawimg/Image/Bind.antt =====
-- `rawimg_lua_bind_lbuf`: the image of a specification, or the error that the code raises.
use chdkptp_astro.Base.{
  ℕ, ◌+◌, ◌*◌, ◌/◌, ◌%◌, ◌^◌, List, [], ◌∷◌, Option, none, some, length, ltb, leb, ◌==◌, not,
  if◌then◌else◌,
}
use chdkptp_astro.Rawimg.Format.{RawFormat, find_format}
use chdkptp_astro.Rawimg.Image.{RawImage}

-- The four numbers of an area; in that order in the specification's table.
pub record Area : Type 0 where
  pub top : ℕ
  pub left : ℕ
  pub bottom : ℕ
  pub right : ℕ

pub record ImageSpec : Type 0 where
  pub data_offset : ℕ
  pub width : ℕ
  pub height : ℕ
  pub bpp : ℕ
  pub endian : ℕ
  pub black_level : ℕ
  pub cfa_pattern : Option (List ℕ)
  pub active_area : Option Area

-- The messages of the errors.
pub data BindError : Type 0 where
  unknown_cfa_pattern : BindError
  active_top_bottom : BindError
  active_left_right : BindError
  active_right_width : BindError
  active_bottom_height : BindError
  unknown_format : BindError
  width_not_multiple : BindError
  size_larger_than_data : BindError

pub data Bound : Type 0 where
  refused : BindError → Bound
  bound : RawImage → Bound

abbrev pub bind_size : ImageSpec → ℕ → List ℕ → Area → RawFormat → Bound
bind_size spec len cfa area fmt =
    let row_bytes = spec.width * fmt.bpp % 2 ^ 32 / 8 in
    if not (spec.width % fmt.block_pixels == 0)
    then refused width_not_multiple
    else (if ltb len ((spec.data_offset + row_bytes * spec.height) % 2 ^ 32)
        then refused size_larger_than_data
        else bound (record {
          fmt = fmt;
          row_bytes = row_bytes;
          width = spec.width;
          height = spec.height;
          cfa_pattern = cfa;
          active_top = area.top;
          active_left = area.left;
          active_bottom = area.bottom;
          active_right = area.right;
          black_level = spec.black_level;
          data_start = spec.data_offset;
        }))

abbrev pub bind_found : ImageSpec → ℕ → List ℕ → Area → Option RawFormat → Bound
bind_found spec len cfa area none = refused unknown_format
bind_found spec len cfa area (some fmt) = bind_size spec len cfa area fmt

abbrev pub bind_format : ImageSpec → ℕ → List ℕ → Area → Bound
bind_format spec len cfa area = bind_found spec len cfa area (find_format spec.bpp spec.endian)

abbrev pub bind_bottom : ImageSpec → ℕ → List ℕ → Area → Bound
bind_bottom spec len cfa area =
    if ltb spec.height area.bottom
    then refused active_bottom_height
    else bind_format spec len cfa area

-- The test of the right side compares the left one with the width.
abbrev pub bind_right : ImageSpec → ℕ → List ℕ → Area → Bound
bind_right spec len cfa area =
    if ltb spec.width area.left then refused active_right_width else bind_bottom spec len cfa area

abbrev pub bind_left : ImageSpec → ℕ → List ℕ → Area → Bound
bind_left spec len cfa area =
    if leb area.right area.left then refused active_left_right else bind_right spec len cfa area

abbrev pub bind_area : ImageSpec → ℕ → List ℕ → Option Area → Bound
bind_area spec len cfa (some area) =
    if leb area.bottom area.top then refused active_top_bottom else bind_left spec len cfa area
bind_area spec len cfa none =
    bind_format spec len cfa
      (record { top = 0; left = 0; bottom = spec.height; right = spec.width })

abbrev pub bind_cfa : ImageSpec → ℕ → Option (List ℕ) → Bound
bind_cfa spec len none = bind_area spec len (0 ∷ 0 ∷ 0 ∷ 0 ∷ []) spec.active_area
bind_cfa spec len (some cfa) =
    if not (length cfa == 4)
    then refused unknown_cfa_pattern
    else bind_area spec len cfa spec.active_area

-- `len` is the size of the lbuf.
unfoldable pub bind_lbuf : ImageSpec → ℕ → Bound
bind_lbuf spec len = bind_cfa spec len spec.cfa_pattern
