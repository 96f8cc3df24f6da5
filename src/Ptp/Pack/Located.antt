-- ===== src/Ptp/Pack/Located.antt =====
-- Where a field stands in a dataset, and what the readers of ptp-pack.c find there.
use chdkptp_astro.Base.{
  ℕ, suc, ◌+◌, ◌*◌, ◌%◌, ◌^◌, ◌<◌, ◌≡◌, refl, sym, ap, ◌∙◌, List, [], ◌∷◌, ◌++◌, none, some, length,
  arith, append_assoc, append-nil, length-append,
}
use chdkptp_astro.Ptp.Endian.{dtoh8a, dtoh16a, dtoh32a, htod16a, htod32a}
use chdkptp_astro.Ptp.Endian.Laws.{dtoh16a-htod16a, dtoh32a-htod32a, get_elem?-append_self}
use chdkptp_astro.Ptp.Pack.Text.{Unpacked, unpack_string, maxstrlen}
use chdkptp_astro.Ptp.Pack.Text.RoundTrip.{IsText, encode, length-encode, unpack_string-field}
use chdkptp_astro.Ptp.Pack.Arrays.{unpack_uint16_array, unpack_uint32_array}
use chdkptp_astro.Ptp.Pack.Arrays.Laws.{
  AllBelow, length-words16, words16, words32, unpack_uint16_array-words16,
  unpack_uint32_array-words32,
}

-- The bytes `bs` stand in `base` at `off`.
pub record At (base : List ℕ) (off : ℕ) (bs : List ℕ) : Type 0 where
  pub before : List ℕ
  pub after : List ℕ
  pub whole : base ≡ before ++ (bs ++ after)
  pub offset : length before ≡ off

pub At-whole : (base : List ℕ) → At base 0 base
At-whole base = record { before = []; after = []; whole = sym (append-nil base); offset = refl }

pub At-first : {base : List ℕ} {off : ℕ} (us bs : List ℕ) → At base off (us ++ bs) → At base off us
At-first us bs p = record {
  before = p.before;
  after = bs ++ p.after;
  whole = p.whole ∙ ap (◌++◌ p.before) (append_assoc us bs p.after);
  offset = p.offset;
}

pub At-rest :
    {base : List ℕ} {off : ℕ} (us bs : List ℕ) (next : ℕ)
    → At base off (us ++ bs)
    → off + length us ≡ next
    → At base next bs
At-rest us bs next p e = record {
  before = p.before ++ us;
  after = p.after;
  whole =
      p.whole
      ∙ ap (◌++◌ p.before) (append_assoc us bs p.after)
      ∙ sym (append_assoc p.before us (bs ++ p.after));
  offset = omega (arith, length-append {0} p.before us, p.offset);
}

-- The value of `f` at `off` is what it is behind the prefix `before`.
read-At :
    {A : Type 0} (f : List ℕ → ℕ → A) {base : List ℕ} {off : ℕ} {bs : List ℕ} (p : At base off bs)
    → f base off ≡ f (p.before ++ (bs ++ p.after)) (length p.before)
read-At f {bs} p = rw (p.whole, ← p.offset)

pub dtoh8a-At : {base : List ℕ} {off : ℕ} (x : ℕ) → At base off (x ∷ []) → dtoh8a base off ≡ some x
unfolding dtoh8a
dtoh8a-At x p = read-At dtoh8a p ∙ get_elem?-append_self p.before p.after x

pub dtoh16a-At :
    {base : List ℕ} {off : ℕ} (order x : ℕ)
    → At base off (htod16a order x)
    → x < 2 ^ 16
    → dtoh16a order base off ≡ some x
dtoh16a-At order x p h = read-At (dtoh16a order) p ∙ dtoh16a-htod16a order x p.before p.after h

pub dtoh32a-At :
    {base : List ℕ} {off : ℕ} (order x : ℕ)
    → At base off (htod32a order x)
    → x < 2 ^ 32
    → dtoh32a order base off ≡ some x
dtoh32a-At order x p h = read-At (dtoh32a order) p ∙ dtoh32a-htod32a order x p.before p.after h

-- A string of the protocol: the count of 16 bit characters with the terminator, and the
-- characters; an empty string is the count 0 alone.
abbrev pub wire_len : List ℕ → ℕ
wire_len [] = 0
wire_len (c ∷ cs) = length cs + 2

abbrev pub wire_string : ℕ → List ℕ → List ℕ
wire_string order [] = 0 ∷ []
wire_string order (c ∷ cs) = (length cs + 2) ∷ (encode order (c ∷ cs) ++ 0 ∷ 0 ∷ [])

-- What `ptp_unpack_string` makes of it.
abbrev pub unpacked : List ℕ → Unpacked
unpacked [] = record { string = none; len = 0 }
unpacked (c ∷ cs) = record { string = some (c ∷ (cs ++ 0 ∷ [])); len = length cs + 2 }

pub length-wire_string :
    (order : ℕ) (s : List ℕ) → length (wire_string order s) ≡ 2 * wire_len s + 1
length-wire_string order [] = omega arith
length-wire_string order (c ∷ cs) =
    omega
      (arith, length-append {0} (encode order (c ∷ cs)) (0 ∷ 0 ∷ []), length-encode order (c ∷ cs))

-- The code moves on by `len*2+1`.
pub unpacked_end :
    (order : ℕ) (s : List ℕ) → length (wire_string order s) ≡ (unpacked s).len * 2 + 1
unpacked_end order [] = omega arith
unpacked_end order (c ∷ cs) = omega (arith, length-wire_string order (c ∷ cs))

unpack_string_empty :
    (order : ℕ) (xs ys : List ℕ)
    → length xs < 2 ^ 16
    → unpack_string order (xs ++ 0 ∷ ys) (length xs) ≡ some (record { string = none; len = 0 })
unfolding unpack_string dtoh8a
unpack_string_empty order xs ys near =
    let e : length xs % 2 ^ 16 ≡ length xs = omega arith in rw (e, get_elem?-append_self xs ys 0)

unpack_string_full :
    (order c : ℕ) (cs xs ys : List ℕ)
    → length xs < 2 ^ 16
    → length cs + 1 < maxstrlen
    → IsText (c ∷ cs)
    → unpack_string order (xs ++ (wire_string order (c ∷ cs) ++ ys)) (length xs)
      ≡ some (unpacked (c ∷ cs))
unpack_string_full order c cs xs ys near short t =
    let n : length cs + 2 ≡ suc (length cs) + 1 = omega arith in
    rw
      (
        append_assoc (encode order (c ∷ cs)) (0 ∷ 0 ∷ []) ys,
        n,
        unpack_string-field order (c ∷ cs) xs (0 ∷ 0 ∷ ys) near (omega arith) t (omega arith),
      )
      refl

pub unpack_string-At :
    {base : List ℕ} {off : ℕ} (order : ℕ) (s : List ℕ)
    → At base off (wire_string order s)
    → off < 2 ^ 16
    → length s < maxstrlen
    → IsText s
    → unpack_string order base off ≡ some (unpacked s)
unpack_string-At order [] p near short t =
    read-At (unpack_string order) p
    ∙ unpack_string_empty order p.before p.after (omega (arith, p.offset))
unpack_string-At order (c ∷ cs) p near short t =
    read-At (unpack_string order) p
    ∙ unpack_string_full order c cs p.before p.after (omega (arith, p.offset)) (omega arith) t

-- An array of the protocol: the 32 bit count of its elements, and the elements.
abbrev pub wire_array16 : ℕ → List ℕ → List ℕ
wire_array16 order ws = htod32a order (length ws) ++ words16 order ws

abbrev pub wire_array32 : ℕ → List ℕ → List ℕ
wire_array32 order ws = htod32a order (length ws) ++ words32 order ws

pub length-wire_array16 :
    (order : ℕ) (ws : List ℕ) → length (wire_array16 order ws) ≡ 4 + 2 * length ws
length-wire_array16 order ws = omega (arith, length-words16 order ws)

pub unpack_uint16_array-At :
    {base : List ℕ} {off : ℕ} (order : ℕ) (ws : List ℕ)
    → At base off (wire_array16 order ws)
    → off < 2 ^ 16
    → length ws < 2 ^ 32
    → AllBelow (2 ^ 16) ws
    → unpack_uint16_array order base off ≡ some ws
unpack_uint16_array-At order ws p near few small =
    read-At (unpack_uint16_array order) p
    ∙ unpack_uint16_array-words16 order ws p.before p.after (omega (arith, p.offset)) few small

pub unpack_uint32_array-At :
    {base : List ℕ} {off : ℕ} (order : ℕ) (ws : List ℕ)
    → At base off (wire_array32 order ws)
    → off < 2 ^ 16
    → length ws < 2 ^ 32
    → AllBelow (2 ^ 32) ws
    → unpack_uint32_array order base off ≡ some ws
unpack_uint32_array-At order ws p near few small =
    read-At (unpack_uint32_array order) p
    ∙ unpack_uint32_array-words32 order ws p.before p.after (omega (arith, p.offset)) few small
