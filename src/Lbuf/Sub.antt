-- ===== src/Lbuf/Sub.antt =====
-- `lbuf:string` is Lua's `string.sub`.
use chdkptp_astro.Base.{
  ℕ, zero, suc, ◌+◌, ◌-◌, ◌^◌, ◌<◌, ◌≤◌, List, [], ◌∷◌, Option, none, length, take, drop, take_all,
  length-drop, take-nil, drop-nil, eq-nil_of_length, three_ways, ltb, leb, le→not_ltb, not_ltb→le,
  ◌==◌, ◌&&◌, ◌||◌, true, false, if◌then◌else◌, if-ind, ◌≡◌, ◌⊎◌, inl, inr, refl, ap, ap₂, sym, ◌∙◌,
  arith,
}
use chdkptp_astro.Lbuf.{
  LBuf, ℤ, pos, negsuc, or_default, index_arg, slice, between, span, string_of, lbuf_string,
  returned, checked,
}

-- The bytes at the 1-based positions from `lo` to `hi`, of which the first is at `k`.
abbrev pub positions : ℕ → ℕ → ℕ → List ℕ → List ℕ
positions lo hi k [] = []
positions lo hi k (b ∷ bs) =
    let rest = positions lo hi (suc k) bs in if leb lo k && leb k hi then b ∷ rest else rest

-- A negative position counts from the end, and is 0 before the start.
abbrev pub position : ℕ → ℤ → ℕ
position len (pos v) = v
position len (negsuc n) = len - n

abbrev pub IsInt : ℤ → Type 0
IsInt (pos v) = v < 2 ^ 31
IsInt (negsuc n) = n < 2 ^ 31

index_arg-position :
    (len : ℕ) (i : ℤ) → IsInt i → len < 2 ^ 31 - 1 → index_arg len i ≡ position len i
unfolding index_arg
index_arg-position len (pos v) h l = refl
index_arg-position len (negsuc n) h l = ground arith

positions-from : (lo hi k : ℕ) (bs : List ℕ) → lo ≤ k → positions lo hi k bs ≡ take (suc hi - k) bs
positions-from lo hi k [] h = sym (take-nil (suc hi - k))
positions-from lo hi k (b ∷ bs) h =
    let rest = positions-from lo hi (suc k) bs (omega arith) in
    let low : leb lo k ≡ true = ground arith in
    rw low (
      if-ind (λ r. r ≡ take (suc hi - k) (b ∷ bs)) (leb k hi) _ _
        (λ in_range.
          let le : k ≤ hi = ground arith in
          let e : suc hi - k ≡ suc (suc hi - suc k) = omega arith in rw e (ap (◌∷◌ b) rest))
        (λ behind.
          let gt : hi < k = ground arith in
          let e : suc hi - k ≡ 0 = omega arith in
          let e' : suc hi - suc k ≡ 0 = omega arith in rw e (rest ∙ ap (λ n. take n bs) e')))

positions-skip :
    (lo hi k : ℕ) (bs : List ℕ)
    → k ≤ lo
    → positions lo hi k bs ≡ positions lo hi lo (drop (lo - k) bs)
positions-skip lo hi k [] h = ap (positions lo hi lo) (sym (drop-nil (lo - k)))
positions-skip lo hi k (b ∷ bs) h = elim (three_ways k lo) [
  | inr (inr gt) ↦ absurd (omega arith)
  | inr (inl e) ↦
      let none_left : lo - k ≡ 0 = omega arith in
      ap (λ j. positions lo hi j (b ∷ bs)) e
      ∙ ap (λ n. positions lo hi lo (drop n (b ∷ bs))) (sym none_left)
  | inl lt ↦
      let low : leb lo k ≡ false = ground arith in
      let one : lo - k ≡ suc (lo - suc k) = omega arith in
      rw (low, one) (positions-skip lo hi (suc k) bs (omega arith))
]

-- The bytes at positions, as a slice.
positions-slice :
    (lo hi : ℕ) (bs : List ℕ)
    → ((lo ≡ 0) × (positions lo hi 1 bs ≡ take hi bs))
      ⊎ ((0 < lo) × (positions lo hi 1 bs ≡ take (suc hi - lo) (drop (lo - 1) bs)))
positions-slice zero hi bs =
    let e : suc hi - 1 ≡ hi = omega arith in
    inl (refl, positions-from 0 hi 1 bs (omega arith) ∙ ap (λ n. take n bs) e)
positions-slice (suc lo) hi bs = inr (
  omega arith,
  positions-skip (suc lo) hi 1 bs (omega arith)
      ∙ positions-from (suc lo) hi (suc lo) (drop (suc lo - 1) bs) (omega arith),
)

take-past : (n m : ℕ) (bs : List ℕ) → length bs ≤ n → length bs ≤ m → take n bs ≡ take m bs
take-past n m bs h k = take_all n bs h ∙ sym (take_all m bs k)

-- Positions behind the end have no byte.
positions-past :
    (lo hi : ℕ) (bs : List ℕ)
    → length bs < hi
    → positions lo hi 1 bs ≡ positions lo (length bs) 1 bs
positions-past lo hi bs h = elim (positions-slice lo hi bs) [
  | inl (z, e) ↦ elim (positions-slice lo (length bs) bs) [
    | inl (z', e') ↦ e ∙ take-past hi (length bs) bs (omega arith) (omega arith) ∙ sym e'
    | inr (p, e') ↦ absurd (omega arith)
  ]
  | inr (p, e) ↦ elim (positions-slice lo (length bs) bs) [
    | inl (z', e') ↦ absurd (omega arith)
    | inr (p', e') ↦
        let l = length-drop (lo - 1) bs in
        e
        ∙ take-past (suc hi - lo) (suc (length bs) - lo) (drop (lo - 1) bs) (omega arith)
            (omega arith)
        ∙ sym e'
  ]
]

module _ (buf : LBuf) (same : length buf.bytes ≡ buf.len) where
  slice-inside :
      (off n : ℕ)
      → off + n ≤ buf.len
      → checked (slice off n buf.bytes) (λ bytes. bytes) ≡ returned (take n (drop off buf.bytes))
  slice-inside off n h =
      let inside = le→not_ltb (length buf.bytes) (off + n) (omega arith) in rw inside refl

  nothing-between :
      (lo end : ℕ) → ((buf.len == 0) || ltb end lo) ≡ true → [] ≡ positions lo end 1 buf.bytes
  nothing-between lo end h = elim (positions-slice lo end buf.bytes) [
    | inl (z, e) ↦
        let no_bytes : buf.len ≡ 0 = ground arith in
        let none_there = eq-nil_of_length buf.bytes (omega arith) in
        sym (e ∙ ap (take end) none_there ∙ take-nil end)
    | inr (p, e) ↦
        let l = length-drop (lo - 1) buf.bytes in
        let short : (suc end - lo ≡ 0) ⊎ (length (drop (lo - 1) buf.bytes) ≡ 0) = ground arith in
        sym (
          e ∙ elim short [
            | inl z ↦ ap (λ n. take n (drop (lo - 1) buf.bytes)) z
            | inr z ↦ ap (take (suc end - lo)) (eq-nil_of_length _ z) ∙ take-nil (suc end - lo)
          ])
  ]

  string_of-between :
      (lo end : ℕ)
      → end ≤ buf.len
      → string_of buf (between buf.len lo end) ≡ returned (positions lo end 1 buf.bytes)
  string_of-between lo end h =
      if-ind (λ o. string_of buf o ≡ returned (positions lo end 1 buf.bytes))
        ((buf.len == 0) || ltb end lo) none _ (λ empty. ap returned (nothing-between lo end empty))
        (λ some_bytes.
          let ordered : lo ≤ end = ground arith in
          elim (positions-slice lo end buf.bytes) [
            | inl (z, e) ↦
                let first : ltb 0 lo ≡ false = ground arith in
                let n : end - lo ≡ end = omega arith in
                rw (first, n)
                  (slice-inside lo end (omega arith)
                    ∙ ap returned (ap (λ a. take end (drop a buf.bytes)) z ∙ sym e))
            | inr (p, e) ↦
                let first : ltb 0 lo ≡ true = ground arith in
                let n : end - (lo - 1) ≡ suc end - lo = omega arith in
                rw (first, n)
                  (slice-inside (lo - 1) (suc end - lo) (omega arith) ∙ ap returned (sym e))
          ])

  string_of-span :
      (lo hi : ℕ) → string_of buf (span buf.len lo hi) ≡ returned (positions lo hi 1 buf.bytes)
  string_of-span lo hi =
      if-ind
        (λ end. string_of buf (between buf.len lo end) ≡ returned (positions lo hi 1 buf.bytes))
        (ltb buf.len hi) buf.len hi
        (λ past.
          let h : length buf.bytes < hi = ground arith in
          string_of-between lo buf.len (omega arith)
          ∙ ap returned (
              ap (λ n. positions lo n 1 buf.bytes) (sym same)
              ∙ sym (positions-past lo hi buf.bytes h)))
        (λ within. string_of-between lo hi (not_ltb→le buf.len hi within))

  -- A buffer of less than 2^31 - 1 bytes, and int arguments or none: `string` returns, without an
  -- access outside the buffer, the bytes from position `i`, by default 1, to position `j`, by
  -- default the length, where a negative position counts from the end.
  pub lbuf_string-positions :
      (i j : Option ℤ)
      → IsInt (or_default i 1)
      → IsInt (or_default j buf.len)
      → buf.len < 2 ^ 31 - 1
      → lbuf_string buf i j
        ≡ returned (
            positions
              (position buf.len (or_default i 1))
              (position buf.len (or_default j buf.len))
              1
              buf.bytes)
  unfolding lbuf_string
  lbuf_string-positions i j hi hj small =
      ap₂ (λ a b. string_of buf (span buf.len a b))
        (index_arg-position buf.len (or_default i 1) hi small)
        (index_arg-position buf.len (or_default j buf.len) hj small)
      ∙ string_of-span (position buf.len (or_default i 1)) (position buf.len (or_default j buf.len))
