-- ===== src/Rawimg/Digits.antt =====
-- Numbers from their digits, most significant first, and that the digits are unique.
use chdkptp_astro.Base.{
  ℕ, suc, ◌+◌, ◌*◌, ◌/◌, ◌<◌, List, [], ◌∷◌, length, get_or, ◌≡◌, refl, ap, ap₂, ◌∙◌, sym, arith,
}
use native.Mathlib.Nat.{mul-add-div_right, div-eq_of_lt}

abbrev pub value : ℕ → ℕ → List ℕ → ℕ
value base acc [] = acc
value base acc (d ∷ ds) = value base (acc * base + d) ds

abbrev pub AllBelow : ℕ → List ℕ → Type 0
AllBelow base ds = (i : ℕ) → i < length ds → get_or ds i 0 < base

quotient : (base q d : ℕ) → d < base → (q * base + d) / base ≡ q
quotient base q d h = mul-add-div_right (omega arith) q d ∙ omega (arith, div-eq_of_lt h)

pub digits_unique :
    (base acc acc' : ℕ) (ds es : List ℕ)
    → AllBelow base ds
    → AllBelow base es
    → length ds ≡ length es
    → value base acc ds ≡ value base acc' es
    → (acc ≡ acc') × (ds ≡ es)
digits_unique base acc acc' [] [] h k l e = (e, refl)
digits_unique base acc acc' [] (x ∷ es) h k l e = absurd (omega arith)
digits_unique base acc acc' (d ∷ ds) [] h k l e = absurd (omega arith)
digits_unique base acc acc' (d ∷ ds) (x ∷ es) h k l e =
    let rest =
      digits_unique base (acc * base + d) (acc' * base + x) ds es (λ i m. h (suc i) (omega arith))
        (λ i m. k (suc i) (omega arith)) (omega arith) e in
    let top : acc ≡ acc' =
      sym (quotient base acc d (h 0 (omega arith)))
      ∙ ap (λ n. n / base) rest.0
      ∙ quotient base acc' x (k 0 (omega arith)) in
    let low : d ≡ x = omega (arith, rest.0, ap (λ (n : ℕ). n * base) top) in
    (top, ap₂ ◌∷◌ low rest.1)
