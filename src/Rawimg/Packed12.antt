-- ===== src/Rawimg/Packed12.antt =====
-- The routines of rawimg.c for 12 bits per pixel. A `switch` is the list of its cases.
pub mod LittleEndian
pub mod BigEndian
use chdkptp_astro.Base.{
  ℕ, ◌*◌, ◌/◌, ◌%◌, bit_and, bit_or, List, [], ◌∷◌, Option, some, get_or, drop, ◌==◌, if◌then◌else◌,
}
use chdkptp_astro.Base.Partial.{◌>>=◌}
use chdkptp_astro.Rawimg.Bytes.{shl, of_two, of_three, store8, merge8, block_offset, update_at}

abbrev pub get_cases_12l : List ℕ → List (Option ℕ)
get_cases_12l addr =
    of_two addr 1 0 (λ h l. bit_or (h * 16) (l / 16))
    ∷ of_two addr 0 3 (λ h l. bit_or (bit_and h 0x0F * 256) l)
    ∷ of_two addr 2 5 (λ h l. bit_or (h * 16) (l / 16))
    ∷ of_two addr 5 4 (λ h l. bit_or (bit_and h 0x0F * 256) l)
    ∷ []

abbrev pub set_cases_12l : ℕ → List ℕ → List (Option (List ℕ))
set_cases_12l value addr =
    (merge8 addr 0 0x0F (shl value 4) >>= (λ addr. store8 addr 1 (value / 16)))
    ∷ (merge8 addr 0 0xF0 (value / 256) >>= (λ addr. store8 addr 3 value))
    ∷ (store8 addr 2 (value / 16) >>= (λ addr. merge8 addr 5 0x0F (shl value 4)))
    ∷ (store8 addr 4 value >>= (λ addr. merge8 addr 5 0xF0 (value / 256)))
    ∷ []

unfoldable pub get_12l : ℕ → List ℕ → Option ℕ
get_12l x addr = get_or (get_cases_12l addr) (bit_and x 3) (some 0)

unfoldable pub set_12l : ℕ → ℕ → List ℕ → Option (List ℕ)
set_12l x value addr = get_or (set_cases_12l value addr) (bit_and x 3) (some addr)

unfoldable pub raw_get_pixel_12l : List ℕ → ℕ → ℕ → ℕ → Option ℕ
raw_get_pixel_12l p row_bytes x y = get_12l x (drop (block_offset row_bytes x y 4 6) p)

unfoldable pub raw_set_pixel_12l : List ℕ → ℕ → ℕ → ℕ → ℕ → Option (List ℕ)
raw_set_pixel_12l p row_bytes x y value =
    update_at (block_offset row_bytes x y 4 6) p (set_12l x value)

abbrev pub get_cases_12b : List ℕ → List (Option ℕ)
get_cases_12b addr =
    of_two addr 0 1 (λ h l. bit_or (h * 16) (l / 16))
    ∷ of_two addr 1 2 (λ h l. bit_or (bit_and h 0x0F * 256) l)
    ∷ []

abbrev pub set_cases_12b : ℕ → List ℕ → List (Option (List ℕ))
set_cases_12b value addr =
    (store8 addr 0 (value / 16 % 256) >>= (λ addr. merge8 addr 1 0x0F (shl value 4 % 256)))
    ∷ (merge8 addr 1 0xF0 (value / 256 % 256) >>= (λ addr. store8 addr 2 (value % 256)))
    ∷ []

unfoldable pub get_12b : ℕ → List ℕ → Option ℕ
get_12b x addr =
    if bit_and x 1 == 0
    then get_or (get_cases_12b addr) 0 (some 0)
    else get_or (get_cases_12b addr) 1 (some 0)

unfoldable pub set_12b : ℕ → ℕ → List ℕ → Option (List ℕ)
set_12b x value addr = get_or (set_cases_12b value addr) (bit_and x 1) (some addr)

unfoldable pub raw_get_pixel_12b : List ℕ → ℕ → ℕ → ℕ → Option ℕ
raw_get_pixel_12b p row_bytes x y = get_12b x (drop (block_offset row_bytes x y 2 3) p)

unfoldable pub raw_set_pixel_12b : List ℕ → ℕ → ℕ → ℕ → ℕ → Option (List ℕ)
raw_set_pixel_12b p row_bytes x y value =
    update_at (block_offset row_bytes x y 2 3) p (set_12b x value)
