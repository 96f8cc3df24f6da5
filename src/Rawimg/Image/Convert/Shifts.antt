-- ===== src/Rawimg/Image/Convert/Shifts.antt =====
-- A shifted pixel fits the depth that it is shifted for.
use chdkptp_astro.Base.{
  ℕ, zero, suc, ◌+◌, ◌-◌, ◌*◌, ◌/◌, ◌^◌, ◌<◌, ◌≤◌, ltb, not_ltb→le, ◌==◌, ◌≡◌, refl, ap, sym, ◌∙◌,
  arith, if-ind, three_ways, inl, inr,
}
use native.Mathlib.Nat.{
  div-lt_iff_lt-mul, one-le-pow, pow-suc, mul_assoc, pow-le-pow_right, div-one,
}
use chdkptp_astro.Rawimg.Image.Convert.{right, to_left, choose_shift}

two-pow-add : (a b : ℕ) → 2 ^ (a + b) ≡ 2 ^ a * 2 ^ b
two-pow-add a zero = omega (arith, ap (λ n. 2 ^ n) (zero_right a))
  where
    zero_right : (a : ℕ) → a + 0 ≡ a
    zero_right a = omega arith
two-pow-add a (suc b) =
    let e : a + suc b ≡ suc (a + b) = omega arith in
    ap (λ n. 2 ^ n) e
    ∙ pow-suc 2 (a + b)
    ∙ ap (λ n. n * 2) (two-pow-add a b)
    ∙ mul_assoc (2 ^ a) (2 ^ b) 2
    ∙ ap (λ n. 2 ^ a * n) (sym (pow-suc 2 b))

right_fits : (a b v : ℕ) → b ≤ a → v < 2 ^ a → v / 2 ^ (a - b) < 2 ^ b
right_fits a b v h l =
    let e : b + (a - b) ≡ a = omega arith in
    let p = ap (λ n. 2 ^ n) e in
    (div-lt_iff_lt-mul (one-le-pow (a - b) 2 (omega arith))).1
      (omega (arith, two-pow-add b (a - b), p))

unshifted_fits : (a b v : ℕ) → a ≤ b → v < 2 ^ a → v / 2 ^ (a - b) < 2 ^ b
unshifted_fits a b v h l =
    let p = pow-le-pow_right two_pos h in
    let e : a - b ≡ 0 = omega arith in rw e (omega (arith, div-one v, p))
  where
    two_pos : 0 < 2
    two_pos = omega arith

-- A value of `a` bits, shifted for `b` bits, fits them.
pub shifted_fits : (a b v : ℕ) → v < 2 ^ a → v / 2 ^ (a - b) < 2 ^ b
shifted_fits a b v l = elim (three_ways a b) [
  | inl lt ↦ unshifted_fits a b v (omega arith) l
  | inr (inl e) ↦ unshifted_fits a b v (omega arith) l
  | inr (inr gt) ↦ right_fits a b v (omega arith) l
]

-- With `valdownmod` set and no `valupmod` for a greater depth, the shift is to the right, by as many
-- bits as the depth shrinks.
pub choose_shift-right : (a b up : ℕ) → (a < b → ¬ up ≡ 1) → choose_shift a b up 1 ≡ right (a - b)
unfolding choose_shift
choose_shift-right a b up h =
    if-ind (λ s. s ≡ right (a - b)) (ltb b a) (right (a - b)) _ (λ lower. refl)
      λ upper.
        let le = not_ltb→le b a upper in
        let same : a - b ≡ 0 = omega arith in
        if-ind (λ s. s ≡ right (a - b)) (up == 1) (to_left (b - a)) (right 0)
          (λ on.
            let one : up ≡ 1 = ground arith in
            let equal : b - a ≡ 0 = elim (three_ways a b) [
              | inl lt ↦ absurd (h lt one)
              | inr (inl e) ↦ omega arith
              | inr (inr gt) ↦ omega arith
            ] in
            rw (equal, same) refl)
          (λ off. rw same refl)
