-- ===== src/Ptp/Pack/Arrays/Laws.antt =====
-- The arrays of a dataset against their layout: a 32 bit count and the elements.
use chdkptp_astro.Base.{
  ℕ, ◌+◌, ◌*◌, ◌%◌, ◌^◌, ◌<◌, ◌≡◌, refl, sym, ap, ◌∙◌, List, [], ◌∷◌, ◌++◌, some, length, arith,
  append_assoc, length-append,
}
use chdkptp_astro.Ptp.Endian.{dtoh16a, dtoh32a, htod16a, htod32a}
use chdkptp_astro.Ptp.Endian.Laws.{dtoh16a-htod16a, dtoh32a-htod32a}
use chdkptp_astro.Ptp.Pack.Arrays.{
  unpack_words32, unpack_words16, unpack_uint32_array, unpack_uint16_array,
}

abbrev pub AllBelow : ℕ → List ℕ → Type 0
AllBelow k [] = Unit
AllBelow k (w ∷ ws) = (w < k) × AllBelow k ws

unfoldable pub words32 : ℕ → List ℕ → List ℕ
words32 order [] = []
words32 order (w ∷ ws) = htod32a order w ++ words32 order ws

unfoldable pub words16 : ℕ → List ℕ → List ℕ
words16 order [] = []
words16 order (w ∷ ws) = htod16a order w ++ words16 order ws

pub length-words32 : (order : ℕ) (ws : List ℕ) → length (words32 order ws) ≡ 4 * length ws
unfolding words32
length-words32 order [] = omega arith
length-words32 order (w ∷ ws) = omega (arith, length-words32 order ws)

pub length-words16 : (order : ℕ) (ws : List ℕ) → length (words16 order ws) ≡ 2 * length ws
unfolding words16
length-words16 order [] = omega arith
length-words16 order (w ∷ ws) = omega (arith, length-words16 order ws)

unpack_words32-words32 :
    (order offset i : ℕ) (ws xs ys : List ℕ)
    → length xs ≡ offset + 4 * (i + 1)
    → AllBelow (2 ^ 32) ws
    → unpack_words32 order (xs ++ (words32 order ws ++ ys)) offset i (length ws) ≡ some ws
unfolding unpack_words32 words32
unpack_words32-words32 order offset i [] xs ys e small = refl
unpack_words32-words32 order offset i (w ∷ ws) xs ys e small =
    let bs = htod32a order w in
    let rest = words32 order ws ++ ys in
    let here : dtoh32a order (xs ++ (bs ++ rest)) (offset + 4 * (i + 1)) ≡ some w =
      rw (← e) (dtoh32a-htod32a order w xs rest small.0) in
    let n : length (xs ++ bs) ≡ length xs + 4 = length-append xs bs in
    let tail : unpack_words32 order (xs ++ (bs ++ rest)) offset (i + 1) (length ws) ≡ some ws =
      ap (λ z. unpack_words32 order z offset (i + 1) (length ws)) (sym (append_assoc xs bs rest))
      ∙ unpack_words32-words32 order offset (i + 1) ws (xs ++ bs) ys (omega arith) small.1 in
    rw (here, tail)

unpack_words16-words16 :
    (order offset i : ℕ) (ws xs ys : List ℕ)
    → length xs ≡ offset + 2 * (i + 2)
    → AllBelow (2 ^ 16) ws
    → unpack_words16 order (xs ++ (words16 order ws ++ ys)) offset i (length ws) ≡ some ws
unfolding unpack_words16 words16
unpack_words16-words16 order offset i [] xs ys e small = refl
unpack_words16-words16 order offset i (w ∷ ws) xs ys e small =
    let bs = htod16a order w in
    let rest = words16 order ws ++ ys in
    let here : dtoh16a order (xs ++ (bs ++ rest)) (offset + 2 * (i + 2)) ≡ some w =
      rw (← e) (dtoh16a-htod16a order w xs rest small.0) in
    let n : length (xs ++ bs) ≡ length xs + 2 = length-append xs bs in
    let tail : unpack_words16 order (xs ++ (bs ++ rest)) offset (i + 1) (length ws) ≡ some ws =
      ap (λ z. unpack_words16 order z offset (i + 1) (length ws)) (sym (append_assoc xs bs rest))
      ∙ unpack_words16-words16 order offset (i + 1) ws (xs ++ bs) ys (omega arith) small.1 in
    rw (here, tail)

-- An array field, a 32 bit count and that many 32 bit elements, unpacks to the elements, in
-- either byte order and wherever it stands in the first 64 KiB of the data.
pub unpack_uint32_array-words32 :
    (order : ℕ) (ws xs ys : List ℕ)
    → length xs < 2 ^ 16
    → length ws < 2 ^ 32
    → AllBelow (2 ^ 32) ws
    → unpack_uint32_array order
        (xs ++ (htod32a order (length ws) ++ (words32 order ws ++ ys)))
        (length xs)
      ≡ some ws
unfolding unpack_uint32_array
unpack_uint32_array-words32 order ws xs ys near few small =
    let offset : length xs % 2 ^ 16 ≡ length xs = omega arith in
    let count = htod32a order (length ws) in
    let n : length (xs ++ count) ≡ length xs + 4 = length-append xs count in
    rw (offset, dtoh32a-htod32a order (length ws) xs (words32 order ws ++ ys) few)
      (ap (λ z. unpack_words32 order z (length xs) 0 (length ws))
          (sym (append_assoc xs count (words32 order ws ++ ys)))
        ∙ unpack_words32-words32 order (length xs) 0 ws (xs ++ count) ys (omega arith) small)

pub unpack_uint16_array-words16 :
    (order : ℕ) (ws xs ys : List ℕ)
    → length xs < 2 ^ 16
    → length ws < 2 ^ 32
    → AllBelow (2 ^ 16) ws
    → unpack_uint16_array order
        (xs ++ (htod32a order (length ws) ++ (words16 order ws ++ ys)))
        (length xs)
      ≡ some ws
unfolding unpack_uint16_array
unpack_uint16_array-words16 order ws xs ys near few small =
    let offset : length xs % 2 ^ 16 ≡ length xs = omega arith in
    let count = htod32a order (length ws) in
    let n : length (xs ++ count) ≡ length xs + 4 = length-append xs count in
    rw (offset, dtoh32a-htod32a order (length ws) xs (words16 order ws ++ ys) few)
      (ap (λ z. unpack_words16 order z (length xs) 0 (length ws))
          (sym (append_assoc xs count (words16 order ws ++ ys)))
        ∙ unpack_words16-words16 order (length xs) 0 ws (xs ++ count) ys (omega arith) small)
