-- ===== src/Ptp/Endian/Laws.antt =====
-- Reading back what was stored, in either byte order and in the presence of other data.
use chdkptp_astro.Base.{
  ℕ, suc, ◌+◌, ◌*◌, ◌<◌, ◌^◌, List, [], ◌∷◌, ◌++◌, ◌≡◌, refl, ap, arith, ◌/◌, ◌%◌, some, ◌==◌,
  Bool-cases, inl, inr, length, get_elem?,
}
use chdkptp_astro.Ptp.Endian.{
  htod16, htod32, dtoh16, dtoh32, htod16a, htod32a, dtoh16a, dtoh32a, bytes16, bytes32, load16,
  load32, dl_le,
}

pub dtoh16-htod16 : (order x : ℕ) → x < 2 ^ 16 → dtoh16 order (htod16 order x) ≡ x
unfolding dtoh16 htod16
dtoh16-htod16 order x h = elim (Bool-cases (order == dl_le)) [
  | inl e ↦ rw e
  | inr e ↦ rw e (omega arith)
]

pub dtoh32-htod32 : (order x : ℕ) → x < 2 ^ 32 → dtoh32 order (htod32 order x) ≡ x
unfolding dtoh32 htod32
dtoh32-htod32 order x h = elim (Bool-cases (order == dl_le)) [
  | inl e ↦ rw e
  | inr e ↦ rw e (omega arith)
]

pub htod16-lt : (order x : ℕ) → x < 2 ^ 16 → htod16 order x < 2 ^ 16
unfolding htod16
htod16-lt order x h = ground arith

pub htod32-lt : (order x : ℕ) → x < 2 ^ 32 → htod32 order x < 2 ^ 32
unfolding htod32
htod32-lt order x h = ground arith

-- An access behind a prefix is an access to what follows it.
pub get_elem?-append :
    (xs ys : List ℕ) (i : ℕ) → get_elem? (xs ++ ys) (length xs + i) ≡ get_elem? ys i
get_elem?-append [] ys i = let e : 0 + i ≡ i = omega arith in rw e
get_elem?-append (x ∷ xs) ys i =
    let e : suc (length xs) + i ≡ suc (length xs + i) = omega arith in
    rw e (get_elem?-append xs ys i)

pub get_elem?-append_self : (xs ys : List ℕ) (y : ℕ) → get_elem? (xs ++ y ∷ ys) (length xs) ≡ some y
get_elem?-append_self [] ys y = refl
get_elem?-append_self (x ∷ xs) ys y = get_elem?-append_self xs ys y

load16-bytes16 :
    (x : ℕ) (xs ys : List ℕ) → x < 2 ^ 16 → load16 (xs ++ (bytes16 x ++ ys)) (length xs) ≡ some x
load16-bytes16 x xs ys h =
    let rest = bytes16 x ++ ys in
    rw (get_elem?-append_self xs ((x / 256 % 256) ∷ ys) (x % 256), get_elem?-append xs rest 1)
      (ap some (omega arith))

load32-bytes32 :
    (x : ℕ) (xs ys : List ℕ) → x < 2 ^ 32 → load32 (xs ++ (bytes32 x ++ ys)) (length xs) ≡ some x
load32-bytes32 x xs ys h =
    let rest = bytes32 x ++ ys in
    rw
      (
        get_elem?-append_self xs
            ((x / 256 % 256) ∷ (x / 0x10000 % 256) ∷ (x / 0x1000000 % 256) ∷ ys) (x % 256),
        get_elem?-append xs rest 1,
        get_elem?-append xs rest 2,
        get_elem?-append xs rest 3,
      )
      (ap some (omega arith))

pub dtoh16a-htod16a :
    (order x : ℕ) (xs ys : List ℕ)
    → x < 2 ^ 16
    → dtoh16a order (xs ++ (htod16a order x ++ ys)) (length xs) ≡ some x
unfolding dtoh16a
dtoh16a-htod16a order x xs ys h =
    rw (load16-bytes16 (htod16 order x) xs ys (htod16-lt order x h))
      (ap some (dtoh16-htod16 order x h))

pub dtoh32a-htod32a :
    (order x : ℕ) (xs ys : List ℕ)
    → x < 2 ^ 32
    → dtoh32a order (xs ++ (htod32a order x ++ ys)) (length xs) ≡ some x
unfolding dtoh32a
dtoh32a-htod32a order x xs ys h =
    rw (load32-bytes32 (htod32 order x) xs ys (htod32-lt order x h))
      (ap some (dtoh32-htod32 order x h))

pub dtoh16a-cells :
    (order a b : ℕ) (xs ys : List ℕ)
    → dtoh16a order (xs ++ a ∷ b ∷ ys) (length xs) ≡ some (dtoh16 order (a + 256 * b))
unfolding dtoh16a
dtoh16a-cells order a b xs ys =
    rw (get_elem?-append_self xs (b ∷ ys) a, get_elem?-append xs (a ∷ b ∷ ys) 1)
