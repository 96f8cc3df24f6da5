-- ===== src/Ptp/Pack/Text/RoundTrip.antt =====
-- A packed string unpacks to itself, in either byte order.
use chdkptp_astro.Base.{
  ℕ, suc, ◌+◌, ◌-◌, ◌*◌, ◌%◌, ◌^◌, ◌≤◌, ◌<◌, ◌≡◌, refl, sym, ap, ◌∙◌, min, List, [], ◌∷◌, ◌++◌,
  some, ◌==◌, length, set, take, drop, arith, append_assoc, append-nil, length-append, length-drop,
  take_all, take-append_le, drop-drop, le→not_ltb, false,
}
use chdkptp_astro.Ptp.Endian.{dtoh8a, dtoh16a, dtoh16, htod16a, store}
use chdkptp_astro.Ptp.Endian.Laws.{dtoh16a-htod16a, dtoh16a-cells, get_elem?-append_self}
use chdkptp_astro.Ptp.Pack.Text.{
  unpack_chars, unpack_string, widen, pack_chars, pack_string, maxstrlen,
}

abbrev pub IsText : List ℕ → Type 0
IsText [] = Unit
IsText (c ∷ cs) = (c < 256) × IsText cs

-- The characters as they stand in a dataset.
unfoldable pub encode : ℕ → List ℕ → List ℕ
encode order [] = []
encode order (c ∷ cs) = htod16a order (widen c) ++ encode order cs

pub length-encode : (order : ℕ) (cs : List ℕ) → length (encode order cs) ≡ 2 * length cs
unfolding encode
length-encode order [] = omega arith
length-encode order (c ∷ cs) = omega (arith, length-encode order cs)

drop-append : (xs ys : List ℕ) (n : ℕ) → drop (length xs + n) (xs ++ ys) ≡ drop n ys
drop-append [] ys n = let e : 0 + n ≡ n = omega arith in rw e
drop-append (x ∷ xs) ys n =
    let e : suc (length xs) + n ≡ suc (length xs + n) = omega arith in rw e (drop-append xs ys n)

take-append : (xs ys : List ℕ) → take (length xs) (xs ++ ys) ≡ xs
take-append xs ys =
    take-append_le (length xs) xs ys (omega arith) ∙ take_all (length xs) xs (omega arith)

-- A store behind a prefix replaces the first bytes of what follows it.
pub store-append :
    (xs bs ys : List ℕ)
    → length bs ≤ length ys
    → store (length xs) bs (xs ++ ys) ≡ some (xs ++ (bs ++ drop (length bs) ys))
store-append xs bs ys h =
    let n : length (xs ++ ys) ≡ length xs + length ys = length-append xs ys in
    rw
      (
        le→not_ltb (length (xs ++ ys)) (length xs + length bs) (omega arith),
        take-append xs ys,
        drop-append xs ys (length bs),
      )
      refl

pub pack_chars-encode :
    (order offset i : ℕ) (cs xs ys : List ℕ)
    → length xs ≡ offset + i * 2 + 1
    → 2 * length cs ≤ length ys
    → pack_chars order offset i cs (xs ++ ys)
      ≡ some (xs ++ (encode order cs ++ drop (2 * length cs) ys))
unfolding pack_chars encode
pack_chars-encode order offset i [] xs ys e h = refl
pack_chars-encode order offset i (c ∷ cs) xs ys e h =
    let bs = htod16a order (widen c) in
    let here : store (offset + i * 2 + 1) bs (xs ++ ys) ≡ some (xs ++ (bs ++ drop 2 ys)) =
      rw (← e) (store-append xs bs ys (omega arith)) in
    let n : length (xs ++ bs) ≡ length xs + 2 = length-append xs bs in
    let m : length (drop 2 ys) ≡ length ys - 2 = length-drop 2 ys in
    let k : 2 + 2 * length cs ≡ 2 * suc (length cs) = omega arith in
    rw here (
      ap (pack_chars order offset (i + 1) cs) (sym (append_assoc xs bs (drop 2 ys)))
      ∙ pack_chars-encode order offset (i + 1) cs (xs ++ bs) (drop 2 ys) (omega arith) (omega arith)
      ∙ ap some (
          append_assoc xs bs (encode order cs ++ drop (2 * length cs) (drop 2 ys))
          ∙ ap (λ z. xs ++ (bs ++ (encode order cs ++ z)))
              (drop-drop 2 (2 * length cs) ys ∙ ap (λ j. drop j ys) k)))

unpack_chars-encode :
    (order offset i : ℕ) (cs xs ys : List ℕ) (a b : ℕ)
    → length xs ≡ offset + i * 2 + 1
    → IsText cs
    → unpack_chars order (xs ++ (encode order cs ++ a ∷ b ∷ ys)) offset i (length cs + 1)
      ≡ some (cs ++ (dtoh16 order (a + 256 * b) % 256) ∷ [])
unfolding unpack_chars encode
unpack_chars-encode order offset i [] xs ys a b e t =
    let here : dtoh16a order (xs ++ a ∷ b ∷ ys) (offset + i * 2 + 1)
        ≡ some (dtoh16 order (a + 256 * b)) =
      rw (← e) (dtoh16a-cells order a b xs ys) in
    rw here
unpack_chars-encode order offset i (c ∷ cs) xs ys a b e t =
    let bs = htod16a order (widen c) in
    let rest = encode order cs ++ a ∷ b ∷ ys in
    let here : dtoh16a order (xs ++ (bs ++ rest)) (offset + i * 2 + 1) ≡ some (widen c) =
      rw (← e) (dtoh16a-htod16a order (widen c) xs rest (ground arith)) in
    let n : length (xs ++ bs) ≡ length xs + 2 = length-append xs bs in
    let k : suc (length cs) + 1 ≡ suc (length cs + 1) = omega arith in
    let low : widen c % 256 ≡ c = ground arith in
    let tail : unpack_chars order (xs ++ (bs ++ rest)) offset (i + 1) (length cs + 1)
        ≡ some (cs ++ (dtoh16 order (a + 256 * b) % 256) ∷ []) =
      ap (λ z. unpack_chars order z offset (i + 1) (length cs + 1)) (sym (append_assoc xs bs rest))
      ∙ unpack_chars-encode order offset (i + 1) cs (xs ++ bs) ys a b (omega arith) t.1 in
    rw (k, here, tail, low)

-- A string as it stands in a dataset: a count that takes in the terminator, and the characters.
abbrev pub field : ℕ → List ℕ → List ℕ
field order s = (length s + 1) ∷ encode order s

-- Packing a string of at most 254 characters stores its field at `offset` and changes nothing else.
pub pack_string-field :
    (order : ℕ) (s xs ys : List ℕ)
    → length xs < 2 ^ 16
    → length s < maxstrlen
    → 2 * length s + 1 ≤ length ys
    → pack_string order s (xs ++ ys) (length xs)
      ≡ some (xs ++ (field order s ++ drop (2 * length s + 1) ys), length s)
unfolding pack_string
pack_string-field order s xs ys small short room =
    let n = length s in
    let lowered : n % 256 ≡ n = omega arith in
    let count : (n + 1) % 256 ≡ n + 1 = omega arith in
    let offset : length xs % 2 ^ 16 ≡ length xs = omega arith in
    let all : take (min n maxstrlen) s ≡ s = take_all (min n maxstrlen) s (omega arith) in
    let one : length (xs ++ (n + 1) ∷ []) ≡ length xs + 1 = length-append xs ((n + 1) ∷ []) in
    let m : length (drop 1 ys) ≡ length ys - 1 = length-drop 1 ys in
    let k : 1 + 2 * n ≡ 2 * n + 1 = omega arith in
    rw
      (
        lowered,
        count,
        offset,
        all,
        store-append xs ((n + 1) ∷ []) ys (omega arith),
        ← append_assoc xs ((n + 1) ∷ []) (drop 1 ys),
        pack_chars-encode order (length xs) 0 s (xs ++ (n + 1) ∷ []) (drop 1 ys) (omega arith)
            (omega arith),
        append_assoc xs ((n + 1) ∷ []) (encode order s ++ drop (2 * n) (drop 1 ys)),
        drop-drop 1 (2 * n) ys,
        k,
      )
      refl

set_last : (s : List ℕ) (v w : ℕ) → set (s ++ v ∷ []) (length s) w ≡ s ++ w ∷ []
set_last [] v w = refl
set_last (c ∷ s) v w = ap (◌∷◌ c) (set_last s v w)

-- A string field with room for the terminator behind it unpacks to the string and its terminator,
-- and `*len` counts both.
pub unpack_string-field :
    (order : ℕ) (s xs ys : List ℕ)
    → length xs < 2 ^ 16
    → length s < maxstrlen
    → IsText s
    → 2 ≤ length ys
    → unpack_string order (xs ++ (field order s ++ ys)) (length xs)
      ≡ some (record { string = some (s ++ 0 ∷ []); len = length s + 1 })
unpack_string-field order s xs [] small short t room = absurd (omega arith)
unpack_string-field order s xs (a ∷ []) small short t room = absurd (omega arith)
unpack_string-field order s xs (a ∷ b ∷ ys) small short t room =
    unfold unpack_string dtoh8a in
    (let n = length s in
      let offset : length xs % 2 ^ 16 ≡ length xs = omega arith in
      let count : min (n + 1) maxstrlen ≡ n + 1 = omega arith in
      let some_left : (n + 1 == 0) ≡ false = ground arith in
      let pad : n + 1 - maxstrlen ≡ 0 = omega arith in
      let last : n + 1 - 1 ≡ n = omega arith in
      let one : length (xs ++ (n + 1) ∷ []) ≡ length xs + 1 = length-append xs ((n + 1) ∷ []) in
      let w = dtoh16 order (a + 256 * b) % 256 in
      let chars : unpack_chars order (xs ++ (field order s ++ a ∷ b ∷ ys)) (length xs) 0 (n + 1)
          ≡ some (s ++ w ∷ []) =
        ap (λ z. unpack_chars order z (length xs) 0 (n + 1))
          (sym (append_assoc xs ((n + 1) ∷ []) (encode order s ++ a ∷ b ∷ ys)))
        ∙ unpack_chars-encode order (length xs) 0 s (xs ++ (n + 1) ∷ []) ys a b (omega arith) t in
      rw
        (
          offset,
          get_elem?-append_self xs (encode order s ++ a ∷ b ∷ ys) (n + 1),
          some_left,
          count,
          chars,
          pad,
          append-nil (s ++ w ∷ []),
          last,
          set_last s w 0,
        )
        refl)

-- A string of at most 254 characters that `ptp_pack_string` stored in the first 64 KiB of a
-- buffer, with room for the string and its terminator, is unpacked by `ptp_unpack_string` to the
-- string and its terminator, in either byte order.
pub unpack_string-pack_string :
    (order : ℕ) (s xs ys : List ℕ)
    → length xs < 2 ^ 16
    → length s < maxstrlen
    → IsText s
    → 2 * length s + 3 ≤ length ys
    → (out : List ℕ) × (pack_string order s (xs ++ ys) (length xs) ≡ some (out, length s))
      × (unpack_string order out (length xs)
          ≡ some (record { string = some (s ++ 0 ∷ []); len = length s + 1 }))
unpack_string-pack_string order s xs ys small short t room =
    let rest = drop (2 * length s + 1) ys in
    let m : length rest ≡ length ys - (2 * length s + 1) = length-drop (2 * length s + 1) ys in
    (
      xs ++ (field order s ++ rest),
      pack_string-field order s xs ys small short (omega arith),
      unpack_string-field order s xs rest small short t (omega arith),
    )
