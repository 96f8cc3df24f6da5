-- ===== src/Rawimg/Format/Table/Small.antt =====
-- The layouts of the formats with pixels of whole bytes.
use chdkptp_astro.Base.{ℕ, ◌+◌, ◌*◌, ◌/◌, ◌%◌, ◌^◌, ◌<◌, ◌≤◌, drop, ◌≡◌, refl, ap, ◌∙◌, arith}
use chdkptp_astro.Base.Partial.{◌>>=◌}
use chdkptp_astro.Rawimg.Bytes.{update_at, store8}
use chdkptp_astro.Rawimg.Block.{in_order, swap_pairs}
use chdkptp_astro.Rawimg.Pointers.{get_elem?-drop, store8-drop, update_at-twice}
use chdkptp_astro.Rawimg.Format.{RawFormat, fmt_def_single, endian_l, endian_b}
use chdkptp_astro.Rawimg.Format.Layout.{byte_order, Layout, Writer}
use chdkptp_astro.Rawimg.Whole.{
  raw_get_pixel_8l, raw_set_pixel_8l, raw_get_pixel_16l, raw_set_pixel_16l, raw_get_pixel_16b,
  raw_set_pixel_16b, word_offset,
}
use chdkptp_astro.Rawimg.Whole.Blocks.{
  get_8, set_8, get_16l, set_16l, get_16b, set_16b, get_8-Reads, set_8-Writes, get_16l-Reads,
  set_16l-Writes, get_16b-Reads, set_16b-Writes,
}

abbrev pub format_8l : RawFormat
format_8l = fmt_def_single 8 endian_l 1 raw_get_pixel_8l raw_set_pixel_8l

abbrev pub format_16l : RawFormat
format_16l = fmt_def_single 16 endian_l 2 raw_get_pixel_16l raw_set_pixel_16l

abbrev pub format_16b : RawFormat
format_16b = fmt_def_single 16 endian_b 2 raw_get_pixel_16b raw_set_pixel_16b

unfoldable pub Layout_8l : Layout format_8l
unfolding raw_get_pixel_8l byte_order
Layout_8l = record {
  order = swap_pairs;
  ordered = refl;
  get = get_8;
  some_pixel = omega arith;
  some_byte = omega arith;
  same_bits = refl;
  reads = get_8-Reads;
  located = λ p r x y h.
      let e : (y * r + x) % 2 ^ 32 ≡ y * r + x / 1 * 1 + 0 = omega arith in
      rw e (get_elem?-drop (y * r + x / 1 * 1) 0 p);
}

pub Writer-8l : Writer format_8l Layout_8l
unfolding raw_set_pixel_8l Layout_8l
Writer-8l = record {
  put = set_8;
  writes = set_8-Writes;
  stored = λ p r x y v h.
      let e : (y * r + x) % 2 ^ 32 ≡ y * r + x / 1 * 1 + 0 = omega arith in
      rw e (store8-drop (y * r + x / 1 * 1) 0 v p);
}

pub word_offset-eq-block_start :
    (r x y len : ℕ)
    → y * r + x / 1 * 2 + 2 ≤ len
    → len < 2 ^ 32
    → word_offset r x y ≡ y * r + x / 1 * 2
word_offset-eq-block_start r x y len h l = omega arith

unfoldable pub Layout_16l : Layout format_16l
unfolding raw_get_pixel_16l byte_order
Layout_16l = record {
  order = swap_pairs;
  ordered = refl;
  get = get_16l;
  some_pixel = omega arith;
  some_byte = omega arith;
  same_bits = refl;
  reads = get_16l-Reads;
  located =
      λ p r x y h. ap (λ a. get_16l x (drop a p)) (word_offset-eq-block_start r x y _ h.0 h.1);
}

pub Writer-16l : Writer format_16l Layout_16l
unfolding raw_set_pixel_16l Layout_16l
Writer-16l = record {
  put = set_16l;
  writes = set_16l-Writes;
  stored = λ p r x y v h.
      ap (λ a. update_at a p (set_16l x v)) (word_offset-eq-block_start r x y _ h.0 h.1);
}

module _ (r x y len : ℕ) (h : y * r + x / 1 * 2 + 2 ≤ len) (l : len < 2 ^ 32) where
  pub first_index : (y * r + x * 2) % 2 ^ 32 ≡ y * r + x / 1 * 2 + 0
  first_index = omega arith

  pub second_index : (y * r + x * 2 + 1) % 2 ^ 32 ≡ y * r + x / 1 * 2 + 1
  second_index = omega arith

unfoldable pub Layout_16b : Layout format_16b
unfolding raw_get_pixel_16b byte_order
Layout_16b = record {
  order = in_order;
  ordered = refl;
  get = get_16b;
  some_pixel = omega arith;
  some_byte = omega arith;
  same_bits = refl;
  reads = get_16b-Reads;
  located = λ p r x y h.
      let a = y * r + x / 1 * 2 in
      rw
        (
          first_index r x y _ h.0 h.1,
          second_index r x y _ h.0 h.1,
          get_elem?-drop a 0 p,
          get_elem?-drop a 1 p,
        )
        refl;
}

pub Writer-16b : Writer format_16b Layout_16b
unfolding raw_set_pixel_16b Layout_16b
Writer-16b = record {
  put = set_16b;
  writes = set_16b-Writes;
  stored = λ p r x y v h.
      let a = y * r + x / 1 * 2 in
      rw (first_index r x y _ h.0 h.1, second_index r x y _ h.0 h.1, store8-drop a 0 (v / 256) p)
        (ap (λ g. update_at a p (λ addr. store8 addr 0 (v / 256)) >>= g)
            (λ i q. store8-drop a 1 v q i)
          ∙ update_at-twice a p (λ addr. store8 addr 0 (v / 256)) (λ addr. store8 addr 1 v)
              (omega arith));
}
