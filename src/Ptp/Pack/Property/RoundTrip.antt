-- ===== src/Ptp/Pack/Property/RoundTrip.antt =====
-- Property values survive packing.
use chdkptp_astro.Base.{
  ℕ, ◌+◌, ◌*◌, ◌%◌, ◌^◌, ◌<◌, ◌≤◌, ◌≡◌, refl, List, [], ◌∷◌, ◌++◌, some, length, replicate, arith,
  length-replicate, ◌⊎◌, inl, inr, ◌==◌, false, subst,
}
use chdkptp_astro.Ptp.Endian.{htod16a, htod32a}
use chdkptp_astro.Ptp.Pack.Text.{maxstrlen}
use chdkptp_astro.Ptp.Pack.Text.RoundTrip.{IsText, unpack_string-pack_string}
use chdkptp_astro.Ptp.Pack.Located.{At-whole, dtoh8a-At, dtoh16a-At, dtoh32a-At}
use chdkptp_astro.Ptp.Pack.Property.{
  number, text, dtc_str, width, read_number, unpack_dpv, pack_dpv_text, pack_dpv_number,
}

-- A string of at most 254 characters that `ptp_pack_DPV` packed is unpacked by `ptp_unpack_DPV` to
-- the string with its terminator.
pub unpack_dpv-pack_dpv_text :
    (order : ℕ) (string : List ℕ)
    → length string < maxstrlen
    → IsText string
    → (out : List ℕ) × (pack_dpv_text order string ≡ some out)
      × (unpack_dpv order out dtc_str ≡ some (some (text (some (string ++ 0 ∷ [])))))
unfolding pack_dpv_text unpack_dpv
unpack_dpv-pack_dpv_text order string short t =
    let n = length string in
    let zeros : List ℕ = replicate (n * 2 + 3) 0 in
    let room : 2 * n + 3 ≤ length zeros = omega (arith, length-replicate {A = ℕ} (n * 2 + 3) 0) in
    let (out, packed, back) =
      unpack_string-pack_string order string [] zeros (omega arith) short t room in
    (out, (rw packed refl), (rw back refl))

-- The number of values of an integer type.
abbrev pub capacity : ℕ → ℕ
capacity datatype = 2 ^ (8 * width datatype)

width-cases :
    (datatype : ℕ)
    → (width datatype ≡ 0) ⊎ (width datatype ≡ 1) ⊎ (width datatype ≡ 2) ⊎ (width datatype ≡ 4)
width-cases datatype = ground arith

-- A number that fits the integer type of its property is unpacked by `ptp_unpack_DPV` from the
-- bytes that `ptp_pack_DPV` packed, in either byte order.
pub unpack_dpv-pack_dpv_number :
    (order x datatype : ℕ)
    → 0 < width datatype
    → x < capacity datatype
    → unpack_dpv order (pack_dpv_number order x datatype) datatype ≡ some (some (number x))
unfolding unpack_dpv pack_dpv_number read_number
unpack_dpv-pack_dpv_number order x datatype known small =
    let not_str : (datatype == dtc_str) ≡ false = ground arith in
    elim (width-cases datatype) [
      | inl e ↦ absurd (omega arith)
      | inr (inl e) ↦
          let b : x < 2 ^ 8 = subst (λ w. x < 2 ^ (8 * w)) e small in
          let low : x % 256 ≡ x = omega arith in
          rw (not_str, e, low, dtoh8a-At x (At-whole (x ∷ []))) refl
      | inr (inr (inl e)) ↦
          let b : x < 2 ^ 16 = subst (λ w. x < 2 ^ (8 * w)) e small in
          let low : x % 2 ^ 16 ≡ x = omega arith in
          rw (not_str, e, low, dtoh16a-At order x (At-whole (htod16a order x)) b) refl
      | inr (inr (inr e)) ↦
          let b : x < 2 ^ 32 = subst (λ w. x < 2 ^ (8 * w)) e small in
          let low : x % 2 ^ 32 ≡ x = omega arith in
          rw (not_str, e, low, dtoh32a-At order x (At-whole (htod32a order x)) b) refl
    ]
