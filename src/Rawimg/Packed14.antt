-- ===== src/Rawimg/Packed14.antt =====
-- The routines of rawimg.c for 14 bits per pixel. A `switch` is the list of its cases.
pub mod LittleEndian
pub mod BigEndian
use chdkptp_astro.Base.{
  ℕ, ◌*◌, ◌/◌, ◌%◌, bit_and, bit_or, List, [], ◌∷◌, Option, some, get_or, drop, ◌==◌, if◌then◌else◌,
}
use chdkptp_astro.Base.Partial.{◌>>=◌}
use chdkptp_astro.Rawimg.Bytes.{shl, of_two, of_three, store8, merge8, block_offset, update_at}

abbrev pub get_cases_14l : List ℕ → List (Option ℕ)
get_cases_14l addr =
    of_two addr 1 0 (λ h l. bit_or (h * 64) (l / 4))
    ∷ of_three addr 0 3 2 (λ h m l. bit_or (bit_or (bit_and h 0x03 * 4096) (m * 16)) (l / 16))
    ∷ of_three addr 2 5 4 (λ h m l. bit_or (bit_or (bit_and h 0x0F * 1024) (m * 4)) (l / 64))
    ∷ of_two addr 4 7 (λ h l. bit_or (bit_and h 0x3F * 256) l)
    ∷ of_two addr 6 9 (λ h l. bit_or (h * 64) (l / 4))
    ∷ of_three addr 9 8 11 (λ h m l. bit_or (bit_or (bit_and h 0x03 * 4096) (m * 16)) (l / 16))
    ∷ of_three addr 11 10 13 (λ h m l. bit_or (bit_or (bit_and h 0x0F * 1024) (m * 4)) (l / 64))
    ∷ of_two addr 13 12 (λ h l. bit_or (bit_and h 0x3F * 256) l)
    ∷ []

abbrev pub set_cases_14l : ℕ → List ℕ → List (Option (List ℕ))
set_cases_14l value addr =
    (merge8 addr 0 0x03 (shl value 2) >>= (λ addr. store8 addr 1 (value / 64)))
    ∷ (merge8 addr 0 0xFC (value / 4096)
        >>= (λ addr. merge8 addr 2 0x0F (shl value 4))
        >>= (λ addr. store8 addr 3 (value / 16)))
    ∷ (merge8 addr 2 0xF0 (value / 1024)
        >>= (λ addr. merge8 addr 4 0x3F (shl value 6))
        >>= (λ addr. store8 addr 5 (value / 4)))
    ∷ (merge8 addr 4 0xC0 (value / 256) >>= (λ addr. store8 addr 7 value))
    ∷ (store8 addr 6 (value / 64) >>= (λ addr. merge8 addr 9 0x03 (shl value 2)))
    ∷ (store8 addr 8 (value / 16)
        >>= (λ addr. merge8 addr 9 0xFC (value / 4096))
        >>= (λ addr. merge8 addr 11 0x0F (shl value 4)))
    ∷ (store8 addr 10 (value / 4)
        >>= (λ addr. merge8 addr 11 0xF0 (value / 1024))
        >>= (λ addr. merge8 addr 13 0x3F (shl value 6)))
    ∷ (store8 addr 12 value >>= (λ addr. merge8 addr 13 0xC0 (value / 256)))
    ∷ []

unfoldable pub get_14l : ℕ → List ℕ → Option ℕ
get_14l x addr = get_or (get_cases_14l addr) (x % 8) (some 0)

unfoldable pub set_14l : ℕ → ℕ → List ℕ → Option (List ℕ)
set_14l x value addr = get_or (set_cases_14l value addr) (x % 8) (some addr)

unfoldable pub raw_get_pixel_14l : List ℕ → ℕ → ℕ → ℕ → Option ℕ
raw_get_pixel_14l p row_bytes x y = get_14l x (drop (block_offset row_bytes x y 8 14) p)

unfoldable pub raw_set_pixel_14l : List ℕ → ℕ → ℕ → ℕ → ℕ → Option (List ℕ)
raw_set_pixel_14l p row_bytes x y value =
    update_at (block_offset row_bytes x y 8 14) p (set_14l x value)

abbrev pub get_cases_14b : List ℕ → List (Option ℕ)
get_cases_14b addr =
    of_two addr 0 1 (λ h l. bit_or (h * 64) (l / 4))
    ∷ of_three addr 1 2 3 (λ h m l. bit_or (bit_or (bit_and h 0x03 * 4096) (m * 16)) (l / 16))
    ∷ of_three addr 3 4 5 (λ h m l. bit_or (bit_or (bit_and h 0x0F * 1024) (m * 4)) (l / 64))
    ∷ of_two addr 5 6 (λ h l. bit_or (bit_and h 0x3F * 256) l)
    ∷ []

abbrev pub set_cases_14b : ℕ → List ℕ → List (Option (List ℕ))
set_cases_14b value addr =
    (merge8 addr 1 0x03 (shl value 2) >>= (λ addr. store8 addr 0 (value / 64)))
    ∷ (merge8 addr 1 0xFC (value / 4096)
        >>= (λ addr. merge8 addr 3 0x0F (shl value 4))
        >>= (λ addr. store8 addr 2 (value / 16)))
    ∷ (merge8 addr 3 0xF0 (value / 1024)
        >>= (λ addr. merge8 addr 5 0x3F (shl value 6))
        >>= (λ addr. store8 addr 4 (value / 4)))
    ∷ (merge8 addr 5 0xC0 (value / 256) >>= (λ addr. store8 addr 6 value))
    ∷ []

unfoldable pub get_14b : ℕ → List ℕ → Option ℕ
get_14b x addr = get_or (get_cases_14b addr) (x % 4) (some 0)

unfoldable pub set_14b : ℕ → ℕ → List ℕ → Option (List ℕ)
set_14b x value addr = get_or (set_cases_14b value addr) (x % 8) (some addr)

unfoldable pub raw_get_pixel_14b : List ℕ → ℕ → ℕ → ℕ → Option ℕ
raw_get_pixel_14b p row_bytes x y = get_14b x (drop (block_offset row_bytes x y 4 7) p)

unfoldable pub raw_set_pixel_14b : List ℕ → ℕ → ℕ → ℕ → ℕ → Option (List ℕ)
raw_set_pixel_14b p row_bytes x y value =
    update_at (block_offset row_bytes x y 4 7) p (set_14b x value)
