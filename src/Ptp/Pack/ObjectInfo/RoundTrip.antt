-- ===== src/Ptp/Pack/ObjectInfo/RoundTrip.antt =====
-- The object info that `ptp_pack_OI` makes, and that `ptp_unpack_OI` reads it.
use chdkptp_astro.Base.{
  ℕ, zero, suc, ◌+◌, ◌*◌, ◌^◌, ◌<◌, ◌≡◌, refl, ap, ◌∙◌, List, [], ◌∷◌, ◌++◌, none, some, length,
  drop, replicate, arith, length-append, length-replicate,
}
use chdkptp_astro.Ptp.Endian.{htod16a, htod32a}
use chdkptp_astro.Ptp.Pack.Text.{pack_string, maxstrlen}
use chdkptp_astro.Ptp.Pack.Text.RoundTrip.{
  IsText, encode, length-encode, field, pack_string-field, unpack_string-field,
}
use chdkptp_astro.Ptp.Pack.Located.{
  At, At-whole, At-first, At-rest, dtoh16a-At, dtoh32a-At, unpack_string-At,
}
use chdkptp_astro.Ptp.Pack.ObjectInfo.{
  Fixed, Calendar, unpack_oi_fixed, read_date, unpack_oi, fixed_bytes, pack_oi,
}

-- Each field fits its type.
pub record IsFixed (f : Fixed) : Type 0 where
  pub storage_id : f.storage_id < 2 ^ 32
  pub object_format : f.object_format < 2 ^ 16
  pub protection_status : f.protection_status < 2 ^ 16
  pub object_compressed_size : f.object_compressed_size < 2 ^ 32
  pub thumb_format : f.thumb_format < 2 ^ 16
  pub thumb_compressed_size : f.thumb_compressed_size < 2 ^ 32
  pub thumb_pix_width : f.thumb_pix_width < 2 ^ 32
  pub thumb_pix_height : f.thumb_pix_height < 2 ^ 32
  pub image_pix_width : f.image_pix_width < 2 ^ 32
  pub image_pix_height : f.image_pix_height < 2 ^ 32
  pub image_bit_depth : f.image_bit_depth < 2 ^ 32
  pub parent_object : f.parent_object < 2 ^ 32
  pub association_type : f.association_type < 2 ^ 16
  pub association_desc : f.association_desc < 2 ^ 32
  pub sequence_number : f.sequence_number < 2 ^ 32

pub length-fixed_bytes : (order : ℕ) (f : Fixed) → length (fixed_bytes order f) ≡ 52
length-fixed_bytes order f = omega arith

unpack_oi_fixed-At :
    {base : List ℕ} (order : ℕ) (f : Fixed)
    → At base 0 (fixed_bytes order f)
    → IsFixed f
    → unpack_oi_fixed order base ≡ some f
unfolding unpack_oi_fixed
unpack_oi_fixed-At {base} order f p0 v =
    let e14 = htod32a order f.sequence_number in
    let r14 = e14 in
    let e13 = htod32a order f.association_desc in
    let r13 = e13 ++ r14 in
    let e12 = htod16a order f.association_type in
    let r12 = e12 ++ r13 in
    let e11 = htod32a order f.parent_object in
    let r11 = e11 ++ r12 in
    let e10 = htod32a order f.image_bit_depth in
    let r10 = e10 ++ r11 in
    let e9 = htod32a order f.image_pix_height in
    let r9 = e9 ++ r10 in
    let e8 = htod32a order f.image_pix_width in
    let r8 = e8 ++ r9 in
    let e7 = htod32a order f.thumb_pix_height in
    let r7 = e7 ++ r8 in
    let e6 = htod32a order f.thumb_pix_width in
    let r6 = e6 ++ r7 in
    let e5 = htod32a order f.thumb_compressed_size in
    let r5 = e5 ++ r6 in
    let e4 = htod16a order f.thumb_format in
    let r4 = e4 ++ r5 in
    let e3 = htod32a order f.object_compressed_size in
    let r3 = e3 ++ r4 in
    let e2 = htod16a order f.protection_status in
    let r2 = e2 ++ r3 in
    let e1 = htod16a order f.object_format in
    let r1 = e1 ++ r2 in
    let e0 = htod32a order f.storage_id in
    let r0 = e0 ++ r1 in
    let p1 : At base 4 r1 = At-rest e0 r1 4 p0 refl in
    let p2 : At base 6 r2 = At-rest e1 r2 6 p1 refl in
    let p3 : At base 8 r3 = At-rest e2 r3 8 p2 refl in
    let p4 : At base 12 r4 = At-rest e3 r4 12 p3 refl in
    let p5 : At base 14 r5 = At-rest e4 r5 14 p4 refl in
    let p6 : At base 18 r6 = At-rest e5 r6 18 p5 refl in
    let p7 : At base 22 r7 = At-rest e6 r7 22 p6 refl in
    let p8 : At base 26 r8 = At-rest e7 r8 26 p7 refl in
    let p9 : At base 30 r9 = At-rest e8 r9 30 p8 refl in
    let p10 : At base 34 r10 = At-rest e9 r10 34 p9 refl in
    let p11 : At base 38 r11 = At-rest e10 r11 38 p10 refl in
    let p12 : At base 42 r12 = At-rest e11 r12 42 p11 refl in
    let p13 : At base 44 r13 = At-rest e12 r13 44 p12 refl in
    let p14 : At base 48 r14 = At-rest e13 r14 48 p13 refl in
    rw
      (
        dtoh32a-At order f.storage_id (At-first e0 r1 p0) v.storage_id,
        dtoh16a-At order f.object_format (At-first e1 r2 p1) v.object_format,
        dtoh16a-At order f.protection_status (At-first e2 r3 p2) v.protection_status,
        dtoh32a-At order f.object_compressed_size (At-first e3 r4 p3) v.object_compressed_size,
        dtoh16a-At order f.thumb_format (At-first e4 r5 p4) v.thumb_format,
        dtoh32a-At order f.thumb_compressed_size (At-first e5 r6 p5) v.thumb_compressed_size,
        dtoh32a-At order f.thumb_pix_width (At-first e6 r7 p6) v.thumb_pix_width,
        dtoh32a-At order f.thumb_pix_height (At-first e7 r8 p7) v.thumb_pix_height,
        dtoh32a-At order f.image_pix_width (At-first e8 r9 p8) v.image_pix_width,
        dtoh32a-At order f.image_pix_height (At-first e9 r10 p9) v.image_pix_height,
        dtoh32a-At order f.image_bit_depth (At-first e10 r11 p10) v.image_bit_depth,
        dtoh32a-At order f.parent_object (At-first e11 r12 p11) v.parent_object,
        dtoh16a-At order f.association_type (At-first e12 r13 p12) v.association_type,
        dtoh32a-At order f.association_desc (At-first e13 r14 p13) v.association_desc,
        dtoh32a-At order f.sequence_number p14 v.sequence_number,
      )
      refl

drop-replicate : {A : Type 0} (n m : ℕ) (x : A) → drop n (replicate (n + m) x) ≡ replicate m x
drop-replicate zero m x = let e : 0 + m ≡ m = omega arith in rw e
drop-replicate (suc n) m x =
    let e : suc n + m ≡ suc (n + m) = omega arith in rw e (drop-replicate n m x)

-- The dataset as it is sent: fields, file name with its terminator, and two empty dates.
abbrev pub wire_oi : ℕ → Fixed → List ℕ → List ℕ
wire_oi order f filename = fixed_bytes order f ++ (field order filename ++ replicate 6 0)

pub pack_oi-wire_oi :
    (order : ℕ) (f : Fixed) (filename : List ℕ)
    → length filename < maxstrlen
    → pack_oi order f filename ≡ some (wire_oi order f filename, length (wire_oi order f filename))
unfolding pack_oi
pack_oi-wire_oi order f filename short =
    let n = length filename in
    let room : 1 + (n + 1) * 2 + 4 ≡ 2 * n + 1 + 6 = omega arith in
    let zeros : List ℕ = replicate (2 * n + 1 + 6) 0 in
    let left : drop (2 * n + 1) zeros ≡ replicate 6 0 = drop-replicate (2 * n + 1) 6 0 in
    let packed : pack_string order filename (fixed_bytes order f ++ zeros) 52
        ≡ some (wire_oi order f filename, n) =
      pack_string-field order filename (fixed_bytes order f) zeros (omega arith) short
        (omega (arith, length-replicate {A = ℕ} (2 * n + 1 + 6) 0))
      ∙ ap (λ z. some (fixed_bytes order f ++ (field order filename ++ z), n)) left in
    let size : 53 + (n + 1) * 2 + (0 + 1) * 4 ≡ length (wire_oi order f filename) = omega (
      arith,
      length-append {0} (encode order filename) (replicate 6 0),
      length-encode order filename,
    ) in
    rw (room, packed, size) refl

-- An object info whose fields fit their types, with a file name of at most 254 characters, that
-- `ptp_pack_OI` packed is unpacked by `ptp_unpack_OI` to the same fields, the name with its
-- terminator and no dates, in either byte order; the size that is returned is that of the buffer.
pub unpack_oi-pack_oi :
    (calendar : Calendar) (order : ℕ) (f : Fixed) (filename : List ℕ)
    → IsFixed f
    → length filename < maxstrlen
    → IsText filename
    → (out : List ℕ) × (pack_oi order f filename ≡ some (out, length out))
      × (unpack_oi calendar order out
          ≡ some (record {
            fixed = f;
            filename = some (filename ++ 0 ∷ []);
            capture_date = none;
            modification_date = none;
          }))
unfolding unpack_oi read_date
unpack_oi-pack_oi calendar order f filename v short t =
    let n = length filename in
    let base = wire_oi order f filename in
    let rest = field order filename ++ replicate 6 0 in
    let p0 = At-whole base in
    let p1 : At base 52 rest = At-rest (fixed_bytes order f) rest 52 p0 refl in
    let dates = 52 + (n + 1) * 2 + 1 in
    let p2 : At base (53 + 2 * n) (0 ∷ 0 ∷ 0 ∷ 0 ∷ 0 ∷ 0 ∷ []) =
      At-rest (field order filename) (replicate 6 0) (53 + 2 * n) p1
        (omega (arith, length-encode order filename)) in
    let p3 : At base dates (0 ∷ 0 ∷ 0 ∷ 0 ∷ []) =
      At-rest (0 ∷ 0 ∷ []) (0 ∷ 0 ∷ 0 ∷ 0 ∷ []) dates p2 (omega arith) in
    let p4 : At base (52 + (n + 1) * 2 + 0 * 2 + 2) (0 ∷ 0 ∷ 0 ∷ []) =
      At-rest (0 ∷ []) (0 ∷ 0 ∷ 0 ∷ []) (52 + (n + 1) * 2 + 0 * 2 + 2) p3 (omega arith) in
    (
      base,
      pack_oi-wire_oi order f filename short,
      rw
          (
            unpack_oi_fixed-At order f (At-first (fixed_bytes order f) rest p0) v,
            unpack_string-field order filename (fixed_bytes order f) (replicate 6 0) (omega arith)
                short t (omega arith),
            unpack_string-At order [] (At-first (0 ∷ []) (0 ∷ 0 ∷ 0 ∷ []) p3) (omega arith)
                (omega arith) tt,
            unpack_string-At order [] (At-first (0 ∷ []) (0 ∷ 0 ∷ []) p4) (omega arith)
                (omega arith) tt,
          )
          refl,
    )
