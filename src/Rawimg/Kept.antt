-- ===== src/Rawimg/Kept.antt =====
-- Stores within a block keep the bytes behind it, the length, and that every element is a byte.
use chdkptp_astro.Base.{
  ℕ, zero, suc, ◌<◌, List, [], ◌∷◌, Option, none, some, get_elem?, ◌≡◌, refl, ap, ◌∙◌, bit_and,
  bit_or, arith, Option-cases, subst, inl, inr,
}
use chdkptp_astro.Base.Partial.{◌>>=◌}
use chdkptp_astro.Rawimg.Bytes.{store8, merge8, IsBytes}
use chdkptp_astro.Rawimg.Block.{Kept}

abbrev pub Keeps : ℕ → List ℕ → Option (List ℕ) → Type 0
Keeps bytes addr result = (after : List ℕ) → result ≡ some after → Kept bytes addr after

some-eq : {A : Type 0} {a b : A} → some a ≡ some b → a ≡ b
some-eq {a = a} e = ap (λ o. elim o [ none ↦ a | some x ↦ x ]) e

absurd-none : {A B : Type 0} {a : A} → none ≡ some a → B
absurd-none e = cc

pub cons-IsBytes : (b : ℕ) (bs : List ℕ) → b < 256 → IsBytes bs → IsBytes (b ∷ bs)
unfolding IsBytes
cons-IsBytes b bs h ok zero = h
cons-IsBytes b bs h ok (suc i) = ok i

pub tail-IsBytes : (b : ℕ) (bs : List ℕ) → IsBytes (b ∷ bs) → IsBytes bs
unfolding IsBytes
tail-IsBytes b bs ok i = ok (suc i)

pub Keeps-refl : (bytes : ℕ) (addr : List ℕ) → IsBytes addr → Keeps bytes addr (some addr)
Keeps-refl bytes addr ok after e =
    subst (Kept bytes addr) (some-eq e) (record { ok = ok; size = refl; behind = refl })

pub Keeps->>= :
    (bytes : ℕ) (addr : List ℕ) (m : Option (List ℕ)) (f : List ℕ → Option (List ℕ))
    → Keeps bytes addr m
    → ((a : List ℕ) → IsBytes a → Keeps bytes a (f a))
    → Keeps bytes addr (m >>= f)
Keeps->>= bytes addr none f h k after e = absurd-none e
Keeps->>= bytes addr (some a) f h k after e =
    let first = h a refl in
    let second = k a first.ok after e in
    record {
      ok = second.ok;
      size = second.size ∙ first.size;
      behind = second.behind ∙ first.behind;
    }

under_cons :
    (bytes b : ℕ) (bs : List ℕ) (r : Option (List ℕ))
    → b < 256
    → Keeps bytes bs r
    → Keeps (suc bytes) (b ∷ bs) (r >>= λ rest. some (b ∷ rest))
under_cons bytes b bs none l h after e = absurd-none e
under_cons bytes b bs (some rest) l h after e =
    let k = h rest refl in
    subst (Kept (suc bytes) (b ∷ bs)) (some-eq e)
      (record { ok = cons-IsBytes b rest l k.ok; size = ap suc k.size; behind = k.behind })

pub Keeps-store8 :
    (bytes : ℕ) (addr : List ℕ) (i v : ℕ)
    → i < bytes
    → IsBytes addr
    → Keeps bytes addr (store8 addr i v)
unfolding IsBytes
Keeps-store8 bytes [] i v h ok after e = absurd-none e
Keeps-store8 zero (b ∷ bs) i v h ok after e = absurd (omega arith)
Keeps-store8 (suc bytes) (b ∷ bs) zero v h ok after e =
    subst (Kept (suc bytes) (b ∷ bs)) (some-eq e) (record {
      ok = cons-IsBytes _ bs (omega arith) (tail-IsBytes b bs ok);
      size = refl;
      behind = refl;
    })
Keeps-store8 (suc bytes) (b ∷ bs) (suc i) v h ok after e =
    under_cons bytes b bs (store8 bs i v) (ok 0)
      (Keeps-store8 bytes bs i v (omega arith) (tail-IsBytes b bs ok)) after e

pub Keeps-merge8 :
    (bytes : ℕ) (addr : List ℕ) (i mask bits : ℕ)
    → i < bytes
    → IsBytes addr
    → Keeps bytes addr (merge8 addr i mask bits)
Keeps-merge8 bytes addr i mask bits h ok = elim (Option-cases (get_elem? addr i)) [
  | inl o ↦ rw o (λ after e. absurd-none e)
  | inr (b, o) ↦ rw o (Keeps-store8 bytes addr i (bit_or (bit_and b mask) bits) h ok)
]

module _ (bytes : ℕ) (addr : List ℕ) (i : ℕ) where
  pub then_store8 :
      (v : ℕ) (m : Option (List ℕ))
      → i < bytes
      → Keeps bytes addr m
      → Keeps bytes addr (m >>= λ a. store8 a i v)
  then_store8 v m h k =
      Keeps->>= bytes addr m (λ a. store8 a i v) k (λ a ok. Keeps-store8 bytes a i v h ok)

  pub then_merge8 :
      (mask bits : ℕ) (m : Option (List ℕ))
      → i < bytes
      → Keeps bytes addr m
      → Keeps bytes addr (m >>= λ a. merge8 a i mask bits)
  then_merge8 mask bits m h k =
      Keeps->>= bytes addr m (λ a. merge8 a i mask bits) k
        (λ a ok. Keeps-merge8 bytes a i mask bits h ok)
