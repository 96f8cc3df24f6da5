-- ===== src/Rawimg/Packed10.antt =====
-- The routines of rawimg.c for 10 bits per pixel. A `switch` is the list of its cases.
pub mod LittleEndian
pub mod BigEndian
use chdkptp_astro.Base.{
  ℕ, ◌*◌, ◌/◌, ◌%◌, bit_and, bit_or, List, [], ◌∷◌, Option, some, get_or, drop, ◌==◌, if◌then◌else◌,
}
use chdkptp_astro.Base.Partial.{◌>>=◌}
use chdkptp_astro.Rawimg.Bytes.{shl, of_two, of_three, store8, merge8, block_offset, update_at}

abbrev pub get_cases_10l : List ℕ → List (Option ℕ)
get_cases_10l addr =
    of_two addr 1 0 (λ h l. bit_or (bit_and 0x3fc (h * 4)) (l / 64))
    ∷ of_two addr 0 3 (λ h l. bit_or (bit_and 0x3f0 (h * 16)) (l / 16))
    ∷ of_two addr 3 2 (λ h l. bit_or (bit_and 0x3c0 (h * 64)) (l / 4))
    ∷ of_two addr 2 5 (λ h l. bit_or (bit_and 0x300 (h * 256)) l)
    ∷ of_two addr 4 7 (λ h l. bit_or (bit_and 0x3fc (h * 4)) (l / 64))
    ∷ of_two addr 7 6 (λ h l. bit_or (bit_and 0x3f0 (h * 16)) (l / 16))
    ∷ of_two addr 6 9 (λ h l. bit_or (bit_and 0x3c0 (h * 64)) (l / 4))
    ∷ of_two addr 9 8 (λ h l. bit_or (bit_and 0x300 (h * 256)) l)
    ∷ []

abbrev pub set_cases_10l : ℕ → List ℕ → List (Option (List ℕ))
set_cases_10l value addr =
    (merge8 addr 0 0x3F (shl value 6) >>= (λ addr. store8 addr 1 (value / 4)))
    ∷ (merge8 addr 0 0xC0 (value / 16) >>= (λ addr. merge8 addr 3 0x0F (shl value 4)))
    ∷ (merge8 addr 2 0x03 (shl value 2) >>= (λ addr. merge8 addr 3 0xF0 (value / 64)))
    ∷ (merge8 addr 2 0xFC (value / 256) >>= (λ addr. store8 addr 5 value))
    ∷ (store8 addr 4 (value / 4) >>= (λ addr. merge8 addr 7 0x3F (shl value 6)))
    ∷ (merge8 addr 6 0x0F (shl value 4) >>= (λ addr. merge8 addr 7 0xC0 (value / 16)))
    ∷ (merge8 addr 6 0xF0 (value / 64) >>= (λ addr. merge8 addr 9 0x03 (shl value 2)))
    ∷ (store8 addr 8 value >>= (λ addr. merge8 addr 9 0xFC (value / 256)))
    ∷ []

unfoldable pub get_10l : ℕ → List ℕ → Option ℕ
get_10l x addr = get_or (get_cases_10l addr) (bit_and x 7) (some 0)

unfoldable pub set_10l : ℕ → ℕ → List ℕ → Option (List ℕ)
set_10l x value addr = get_or (set_cases_10l value addr) (bit_and x 7) (some addr)

unfoldable pub raw_get_pixel_10l : List ℕ → ℕ → ℕ → ℕ → Option ℕ
raw_get_pixel_10l p row_bytes x y = get_10l x (drop (block_offset row_bytes x y 8 10) p)

unfoldable pub raw_set_pixel_10l : List ℕ → ℕ → ℕ → ℕ → ℕ → Option (List ℕ)
raw_set_pixel_10l p row_bytes x y value =
    update_at (block_offset row_bytes x y 8 10) p (set_10l x value)

abbrev pub get_cases_10b : List ℕ → List (Option ℕ)
get_cases_10b addr =
    of_two addr 0 1 (λ h l. bit_or (bit_and 0x3fc (h * 4)) (l / 64))
    ∷ of_two addr 1 2 (λ h l. bit_or (bit_and 0x3f0 (h * 16)) (l / 16))
    ∷ of_two addr 2 3 (λ h l. bit_or (bit_and 0x3c0 (h * 64)) (l / 4))
    ∷ of_two addr 3 4 (λ h l. bit_or (bit_and 0x300 (h * 256)) l)
    ∷ []

abbrev pub set_cases_10b : ℕ → List ℕ → List (Option (List ℕ))
set_cases_10b value addr =
    (store8 addr 0 (value / 4) >>= (λ addr. merge8 addr 1 0x3F (shl value 6)))
    ∷ (merge8 addr 1 0xC0 (value / 16) >>= (λ addr. merge8 addr 2 0x0F (shl value 4)))
    ∷ (merge8 addr 3 0x03 (shl value 2) >>= (λ addr. merge8 addr 2 0xF0 (value / 64)))
    ∷ (merge8 addr 3 0xFC (value / 256) >>= (λ addr. store8 addr 4 value))
    ∷ []

unfoldable pub get_10b : ℕ → List ℕ → Option ℕ
get_10b x addr = get_or (get_cases_10b addr) (bit_and x 3) (some 0)

unfoldable pub set_10b : ℕ → ℕ → List ℕ → Option (List ℕ)
set_10b x value addr = get_or (set_cases_10b value addr) (bit_and x 3) (some addr)

unfoldable pub raw_get_pixel_10b : List ℕ → ℕ → ℕ → ℕ → Option ℕ
raw_get_pixel_10b p row_bytes x y = get_10b x (drop (block_offset row_bytes x y 4 5) p)

unfoldable pub raw_set_pixel_10b : List ℕ → ℕ → ℕ → ℕ → ℕ → Option (List ℕ)
raw_set_pixel_10b p row_bytes x y value =
    update_at (block_offset row_bytes x y 4 5) p (set_10b x value)
