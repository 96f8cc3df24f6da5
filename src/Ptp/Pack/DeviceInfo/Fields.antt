-- ===== src/Ptp/Pack/DeviceInfo/Fields.antt =====
-- The two runs of fields of the DeviceInfo dataset, five arrays and four strings, as they are read.
use chdkptp_astro.Base.{
  ℕ, ◌+◌, ◌*◌, ◌^◌, ◌<◌, ◌≡◌, refl, List, ◌++◌, some, length, arith, length-append,
}
use chdkptp_astro.Ptp.Pack.Text.{maxstrlen}
use chdkptp_astro.Ptp.Pack.Text.RoundTrip.{IsText}
use chdkptp_astro.Ptp.Pack.Arrays.Laws.{AllBelow}
use chdkptp_astro.Ptp.Pack.Located.{
  At, At-first, At-rest, wire_string, unpacked, unpacked_end, unpack_string-At, wire_array16,
  length-wire_array16, unpack_uint16_array-At,
}
use chdkptp_astro.Ptp.Pack.DeviceInfo.{unpack_names, unpack_lists}

abbrev pub IsString : List ℕ → Type 0
IsString s = (length s < maxstrlen) × IsText s

abbrev pub IsArray16 : List ℕ → Type 0
IsArray16 ws = (length ws < 2 ^ 32) × AllBelow (2 ^ 16) ws

abbrev pub wire_names : ℕ → List ℕ → List ℕ → List ℕ → List ℕ → List ℕ
wire_names order a b c d =
    wire_string order a ++ (wire_string order b ++ (wire_string order c ++ wire_string order d))

pub unpack_names-At :
    {base : List ℕ} (order totallen : ℕ) (a b c d : List ℕ)
    → At base (10 + totallen) (wire_names order a b c d)
    → 10 + totallen + length (wire_names order a b c d) < 2 ^ 16
    → IsString a
    → IsString b
    → IsString c
    → IsString d
    → unpack_names order base totallen
      ≡ some (record {
        manufacturer = (unpacked a).string;
        model = (unpacked b).string;
        device_version = (unpacked c).string;
        serial_number = (unpacked d).string;
      })
unfolding unpack_names
unpack_names-At order totallen a b c d p near ha hb hc hd =
    let ea = wire_string order a in
    let eb = wire_string order b in
    let ec = wire_string order c in
    let ed = wire_string order d in
    let ta = totallen + ((unpacked a).len * 2 + 1) in
    let tb = ta + ((unpacked b).len * 2 + 1) in
    let tc = tb + ((unpacked c).len * 2 + 1) in
    let pb = At-rest ea (eb ++ (ec ++ ed)) (10 + ta) p (omega (arith, unpacked_end order a)) in
    let pc = At-rest eb (ec ++ ed) (10 + tb) pb (omega (arith, unpacked_end order b)) in
    let pd = At-rest ec ed (10 + tc) pc (omega (arith, unpacked_end order c)) in
    let total : length (wire_names order a b c d)
        ≡ length ea + (length eb + (length ec + length ed)) =
      omega (
        arith,
        length-append {0} ea (eb ++ (ec ++ ed)),
        length-append {0} eb (ec ++ ed),
        length-append {0} ec ed,
      ) in
    rw
      (
        unpack_string-At order a (At-first ea (eb ++ (ec ++ ed)) p) (omega arith) ha.0 ha.1,
        unpack_string-At order b (At-first eb (ec ++ ed) pb) (omega (arith, unpacked_end order a))
            hb.0 hb.1,
        unpack_string-At order c (At-first ec ed pc)
            (omega (arith, unpacked_end order a, unpacked_end order b)) hc.0 hc.1,
        unpack_string-At order d pd
            (omega (arith, unpacked_end order a, unpacked_end order b, unpacked_end order c)) hd.0
            hd.1,
      )
      refl

abbrev pub wire_lists : ℕ → List ℕ → List ℕ → List ℕ → List ℕ → List ℕ → List ℕ
wire_lists order a b c d e =
    wire_array16 order a
    ++ (wire_array16 order b
        ++ (wire_array16 order c ++ (wire_array16 order d ++ wire_array16 order e)))

pub length-wire_lists :
    (order : ℕ) (a b c d e : List ℕ)
    → length (wire_lists order a b c d e)
      ≡ length a * 2
        + 4
        + (length b * 2 + 4)
        + (length c * 2 + 4)
        + (length d * 2 + 4)
        + (length e * 2 + 4)
length-wire_lists order a b c d e =
    let ea = wire_array16 order a in
    let eb = wire_array16 order b in
    let ec = wire_array16 order c in
    let ed = wire_array16 order d in
    let ee = wire_array16 order e in
    omega (
      arith,
      length-append {0} ea (eb ++ (ec ++ (ed ++ ee))),
      length-append {0} eb (ec ++ (ed ++ ee)),
      length-append {0} ec (ed ++ ee),
      length-append {0} ed ee,
      length-wire_array16 order a,
      length-wire_array16 order b,
      length-wire_array16 order c,
      length-wire_array16 order d,
      length-wire_array16 order e,
    )

pub unpack_lists-At :
    {base : List ℕ} (order totallen : ℕ) (a b c d e : List ℕ)
    → At base (10 + totallen) (wire_lists order a b c d e)
    → 10 + totallen + length (wire_lists order a b c d e) < 2 ^ 16
    → IsArray16 a
    → IsArray16 b
    → IsArray16 c
    → IsArray16 d
    → IsArray16 e
    → unpack_lists order base totallen
      ≡ some (record {
        operations_supported = a;
        events_supported = b;
        device_properties_supported = c;
        capture_formats = d;
        image_formats = e;
        totallen =
            totallen
            + length a * 2
            + 4
            + length b * 2
            + 4
            + length c * 2
            + 4
            + length d * 2
            + 4
            + length e * 2
            + 4;
      })
unfolding unpack_lists
unpack_lists-At order totallen a b c d e p near ha hb hc hd he =
    let ea = wire_array16 order a in
    let eb = wire_array16 order b in
    let ec = wire_array16 order c in
    let ed = wire_array16 order d in
    let ee = wire_array16 order e in
    let ta = totallen + length a * 2 + 4 in
    let tb = ta + length b * 2 + 4 in
    let tc = tb + length c * 2 + 4 in
    let td = tc + length d * 2 + 4 in
    let la = length-wire_array16 order a in
    let lb = length-wire_array16 order b in
    let lc = length-wire_array16 order c in
    let ld = length-wire_array16 order d in
    let le = length-wire_array16 order e in
    let pb = At-rest ea (eb ++ (ec ++ (ed ++ ee))) (10 + ta) p (omega arith) in
    let pc = At-rest eb (ec ++ (ed ++ ee)) (10 + tb) pb (omega arith) in
    let pd = At-rest ec (ed ++ ee) (10 + tc) pc (omega arith) in
    let pe = At-rest ed ee (10 + td) pd (omega arith) in
    let total = length-wire_lists order a b c d e in
    rw
      (
        unpack_uint16_array-At order a (At-first ea (eb ++ (ec ++ (ed ++ ee))) p) (omega arith) ha.0
            ha.1,
        unpack_uint16_array-At order b (At-first eb (ec ++ (ed ++ ee)) pb) (omega arith) hb.0 hb.1,
        unpack_uint16_array-At order c (At-first ec (ed ++ ee) pc) (omega arith) hc.0 hc.1,
        unpack_uint16_array-At order d (At-first ed ee pd) (omega arith) hd.0 hd.1,
        unpack_uint16_array-At order e pe (omega arith) he.0 he.1,
      )
      refl
