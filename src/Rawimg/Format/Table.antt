-- ===== src/Rawimg/Format/Table.antt =====
-- Every format of the table has a layout, and all but the big-endian one of 14 bits a writer.
pub mod Small
pub mod Search
use chdkptp_astro.Base.{
  ℕ, zero, suc, ◌+◌, ◌*◌, ◌/◌, ◌%◌, ◌^◌, ◌<◌, ◌≤◌, List, [], ◌∷◌, Option, none, some, drop, length,
  ◌≡◌, ◌≢◌, refl, ap, ap₂, ◌∙◌, sym, arith, Bool-cases, ◌⊎◌, inl, inr, ◌&&◌, ◌||◌, ◌==◌,
  if◌then◌else◌,
}
use chdkptp_astro.Rawimg.Bytes.{block_offset, update_at, store8}
use chdkptp_astro.Rawimg.Block.{Reads, Writes, in_order, swap_pairs}
use chdkptp_astro.Rawimg.Format.{
  RawFormat, raw_formats, fmt_def_single, find_in, find_format, endian_l, endian_b,
}
use chdkptp_astro.Rawimg.Format.Layout.{
  InArray, byte_order, Layout, Writer, block_start, block_offset-eq-block_start,
}
use chdkptp_astro.Rawimg.Packed10.{
  raw_get_pixel_10l, raw_set_pixel_10l, get_10l, set_10l, raw_get_pixel_10b, raw_set_pixel_10b,
  get_10b, set_10b,
}
use chdkptp_astro.Rawimg.Packed10.LittleEndian.{get_10l-Reads, set_10l-Writes}
use chdkptp_astro.Rawimg.Packed10.BigEndian.{get_10b-Reads, set_10b-Writes}
use chdkptp_astro.Rawimg.Packed12.{
  raw_get_pixel_12l, raw_set_pixel_12l, get_12l, set_12l, raw_get_pixel_12b, raw_set_pixel_12b,
  get_12b, set_12b,
}
use chdkptp_astro.Rawimg.Packed12.LittleEndian.{get_12l-Reads, set_12l-Writes}
use chdkptp_astro.Rawimg.Packed12.BigEndian.{get_12b-Reads, set_12b-Writes}
use chdkptp_astro.Rawimg.Packed14.{
  raw_get_pixel_14l, raw_set_pixel_14l, get_14l, set_14l, raw_get_pixel_14b, raw_set_pixel_14b,
  get_14b, set_14b,
}
use chdkptp_astro.Rawimg.Packed14.LittleEndian.{get_14l-Reads, set_14l-Writes}
use chdkptp_astro.Rawimg.Packed14.BigEndian.{get_14b-Reads}

abbrev pub format_10l : RawFormat
format_10l = fmt_def_single 10 endian_l 10 raw_get_pixel_10l raw_set_pixel_10l

unfoldable pub Layout_10l : Layout format_10l
unfolding raw_get_pixel_10l byte_order
Layout_10l = record {
  order = swap_pairs;
  ordered = refl;
  get = get_10l;
  some_pixel = omega arith;
  some_byte = omega arith;
  same_bits = refl;
  reads = get_10l-Reads;
  located = λ p r x y h.
      ap (λ a. get_10l x (drop a p)) (block_offset-eq-block_start r x y 8 10 _ h.0 h.1);
}

pub Writer-10l : Writer format_10l Layout_10l
unfolding raw_set_pixel_10l Layout_10l
Writer-10l = record {
  put = set_10l;
  writes = set_10l-Writes;
  stored = λ p r x y v h.
      ap (λ a. update_at a p (set_10l x v)) (block_offset-eq-block_start r x y 8 10 _ h.0 h.1);
}

abbrev pub format_10b : RawFormat
format_10b = fmt_def_single 10 endian_b 5 raw_get_pixel_10b raw_set_pixel_10b

unfoldable pub Layout_10b : Layout format_10b
unfolding raw_get_pixel_10b byte_order
Layout_10b = record {
  order = in_order;
  ordered = refl;
  get = get_10b;
  some_pixel = omega arith;
  some_byte = omega arith;
  same_bits = refl;
  reads = get_10b-Reads;
  located =
      λ p r x y h. ap (λ a. get_10b x (drop a p)) (block_offset-eq-block_start r x y 4 5 _ h.0 h.1);
}

pub Writer-10b : Writer format_10b Layout_10b
unfolding raw_set_pixel_10b Layout_10b
Writer-10b = record {
  put = set_10b;
  writes = set_10b-Writes;
  stored = λ p r x y v h.
      ap (λ a. update_at a p (set_10b x v)) (block_offset-eq-block_start r x y 4 5 _ h.0 h.1);
}

abbrev pub format_12l : RawFormat
format_12l = fmt_def_single 12 endian_l 6 raw_get_pixel_12l raw_set_pixel_12l

unfoldable pub Layout_12l : Layout format_12l
unfolding raw_get_pixel_12l byte_order
Layout_12l = record {
  order = swap_pairs;
  ordered = refl;
  get = get_12l;
  some_pixel = omega arith;
  some_byte = omega arith;
  same_bits = refl;
  reads = get_12l-Reads;
  located =
      λ p r x y h. ap (λ a. get_12l x (drop a p)) (block_offset-eq-block_start r x y 4 6 _ h.0 h.1);
}

pub Writer-12l : Writer format_12l Layout_12l
unfolding raw_set_pixel_12l Layout_12l
Writer-12l = record {
  put = set_12l;
  writes = set_12l-Writes;
  stored = λ p r x y v h.
      ap (λ a. update_at a p (set_12l x v)) (block_offset-eq-block_start r x y 4 6 _ h.0 h.1);
}

abbrev pub format_12b : RawFormat
format_12b = fmt_def_single 12 endian_b 3 raw_get_pixel_12b raw_set_pixel_12b

unfoldable pub Layout_12b : Layout format_12b
unfolding raw_get_pixel_12b byte_order
Layout_12b = record {
  order = in_order;
  ordered = refl;
  get = get_12b;
  some_pixel = omega arith;
  some_byte = omega arith;
  same_bits = refl;
  reads = get_12b-Reads;
  located =
      λ p r x y h. ap (λ a. get_12b x (drop a p)) (block_offset-eq-block_start r x y 2 3 _ h.0 h.1);
}

pub Writer-12b : Writer format_12b Layout_12b
unfolding raw_set_pixel_12b Layout_12b
Writer-12b = record {
  put = set_12b;
  writes = set_12b-Writes;
  stored = λ p r x y v h.
      ap (λ a. update_at a p (set_12b x v)) (block_offset-eq-block_start r x y 2 3 _ h.0 h.1);
}

abbrev pub format_14l : RawFormat
format_14l = fmt_def_single 14 endian_l 14 raw_get_pixel_14l raw_set_pixel_14l

unfoldable pub Layout_14l : Layout format_14l
unfolding raw_get_pixel_14l byte_order
Layout_14l = record {
  order = swap_pairs;
  ordered = refl;
  get = get_14l;
  some_pixel = omega arith;
  some_byte = omega arith;
  same_bits = refl;
  reads = get_14l-Reads;
  located = λ p r x y h.
      ap (λ a. get_14l x (drop a p)) (block_offset-eq-block_start r x y 8 14 _ h.0 h.1);
}

pub Writer-14l : Writer format_14l Layout_14l
unfolding raw_set_pixel_14l Layout_14l
Writer-14l = record {
  put = set_14l;
  writes = set_14l-Writes;
  stored = λ p r x y v h.
      ap (λ a. update_at a p (set_14l x v)) (block_offset-eq-block_start r x y 8 14 _ h.0 h.1);
}

abbrev pub format_14b : RawFormat
format_14b = fmt_def_single 14 endian_b 7 raw_get_pixel_14b raw_set_pixel_14b

unfoldable pub Layout_14b : Layout format_14b
unfolding raw_get_pixel_14b byte_order
Layout_14b = record {
  order = in_order;
  ordered = refl;
  get = get_14b;
  some_pixel = omega arith;
  some_byte = omega arith;
  same_bits = refl;
  reads = get_14b-Reads;
  located =
      λ p r x y h. ap (λ a. get_14b x (drop a p)) (block_offset-eq-block_start r x y 4 7 _ h.0 h.1);
}
