-- ===== src/Base/Loops.antt =====
-- `for (i = from; i < to; i++)` over a state, where a step may fail, and its rule of invariants.
use Prim.Native.Nat.{ℕ, zero, suc, ◌+◌, ◌-◌, ◌≤◌, ◌<◌}
use mathlib.Core.Path.{◌≡◌, refl, ap, ◌∙◌, subst}
use mathlib.Core.Option.{Option, some}
use native.Mathlib.Omega.{arith}
use chdkptp_astro.Base.Partial.{◌>>=◌}

module _ {S : Type 0} (body : ℕ → S → Option S) where
  unfoldable pub steps : ℕ → ℕ → S → Option S
  steps zero i s = some s
  steps (suc n) i s = body i s >>= steps n (suc i)

  unfoldable pub for_loop : ℕ → ℕ → S → Option S
  for_loop from to s = steps (to - from) from s

  -- A loop whose steps keep an invariant ends, and the invariant holds at the end.
  module _ (Inv : ℕ → S → Type 0) (to : ℕ)
      (keep : (i : ℕ) (s : S)
        → i < to
        → Inv i s
        → (s' : S) × (body i s ≡ some s') × Inv (suc i) s') where
    steps-inv :
        (n i : ℕ) (s : S)
        → i + n ≤ to
        → Inv i s
        → (s' : S) × (steps n i s ≡ some s') × Inv (i + n) s'
    unfolding steps
    steps-inv zero i s h inv =
        let e : i ≡ i + 0 = omega arith in (s, refl, subst (λ j. Inv j s) e inv)
    steps-inv (suc n) i s h inv =
        let one = keep i s (omega arith) inv in
        let rest = steps-inv n (suc i) one.0 (omega arith) one.2 in
        let e : suc i + n ≡ i + suc n = omega arith in
        (rest.0, ap (λ m. m >>= steps n (suc i)) one.1 ∙ rest.1, subst (λ j. Inv j rest.0) e rest.2)

    pub for_loop-inv :
        (from : ℕ) (s : S)
        → from ≤ to
        → Inv from s
        → (s' : S) × (for_loop from to s ≡ some s') × Inv to s'
    unfolding for_loop
    for_loop-inv from s h inv =
        let r = steps-inv (to - from) from s (omega arith) inv in
        let e : from + (to - from) ≡ to = omega arith in (r.0, r.1, subst (λ j. Inv j r.0) e r.2)
