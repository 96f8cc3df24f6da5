-- ===== src/Ptp/Tcp/Packet.antt =====
-- A packet of PTP over TCP, and `ptp_tcp_read_control` on it.
use chdkptp_astro.Base.{
  ℕ, ◌+◌, ◌^◌, ◌≤◌, ◌<◌, ◌≡◌, ap, ap₂, ◌∙◌, List, [], ◌++◌, length, arith, ltb, true, false,
}
use chdkptp_astro.Ptp.State.{Port, Params, Returns, Returns->>=, Returns-weaken}
use chdkptp_astro.Ptp.Endian.{htod32, dtoh32, htod32a}
use chdkptp_astro.Ptp.Endian.Laws.{dtoh32-htod32, htod32-lt}
use chdkptp_astro.Ptp.Container.{field32}
use chdkptp_astro.Ptp.Transport.{control_read_buffered}
use chdkptp_astro.Ptp.Transport.Buffer.{IsBuffer}
use chdkptp_astro.Ptp.Transport.Fill.{Delivers}
use chdkptp_astro.Ptp.Transport.Delivery.{view, SameSession-trans}
use chdkptp_astro.Ptp.Usb.Header.{Reads, control-Reads}
use chdkptp_astro.Ptp.Tcp.{
  ptpip_payload_len, type_start_data, type_data, type_end_data, read_more, tcp_read_by_type,
  tcp_read_control,
}

-- Length, type and what follows them.
abbrev pub packet : ℕ → ℕ → ℕ → List ℕ → List ℕ
packet order len type body = htod32a order len ++ (htod32a order type ++ body)

pub packet_len :
    (order len type : ℕ) (body : List ℕ)
    → len < 2 ^ 32
    → field32 order (packet order len type body) 0 ≡ len
packet_len order len type body h =
    let k : htod32 order len < 2 ^ 32 = htod32-lt order len h in
    ap (dtoh32 order) (omega arith) ∙ dtoh32-htod32 order len h

pub packet_type :
    (order len type : ℕ) (body : List ℕ)
    → type < 2 ^ 32
    → field32 order (packet order len type body) 4 ≡ type
packet_type order len type body h =
    let k : htod32 order type < 2 ^ 32 = htod32-lt order type h in
    ap (dtoh32 order) (omega arith) ∙ dtoh32-htod32 order type h

module _ {D : Type 0} (port : Port D) (pending : D → List ℕ) (law : Delivers port pending) where
  read_more-Reads :
      (fuel : ℕ) (hdr bs rest : List ℕ) (s : Params D)
      → IsBuffer s.pkt_buf
      → view pending s ≡ bs ++ rest
      → length bs ≤ ptpip_payload_len
      → length bs ≤ fuel
      → Returns (Reads port pending law (hdr ++ bs) rest s) (read_more port fuel (length bs) hdr s)
  unfolding read_more
  read_more-Reads fuel hdr bs rest s v e small f =
      let fits : ltb (length bs) (2 ^ 31) ≡ true = ground arith in
      rw fits (
        Returns->>= (Reads port pending law bs rest s) (Reads port pending law (hdr ++ bs) rest s)
          (control_read_buffered port fuel (length bs)) _ s
          (control-Reads port pending law fuel bs rest s v e (omega arith) f)
          λ out t r.
            let room : ltb ptpip_payload_len (length out) ≡ false =
              ground (arith, ap (λ (l : List ℕ). length l) r.result) in
            rw room (record {
              result = ap (◌++◌ hdr) r.result;
              left = r.left;
              sound = r.sound;
              same = r.same;
            }))

  start_reads_more :
      (fuel : ℕ) (hdr : List ℕ) (t : Params D)
      → field32 t.byteorder hdr 4 ≡ type_start_data
      → field32 t.byteorder hdr 0 ≡ 20
      → tcp_read_by_type port fuel hdr t ≡ read_more port fuel 12 hdr t
  unfolding tcp_read_by_type
  start_reads_more fuel hdr t e4 e0 = rw (e4, e0)

  data_reads_more :
      (fuel : ℕ) (hdr : List ℕ) (t : Params D)
      → field32 t.byteorder hdr 4 ≡ type_data
      → tcp_read_by_type port fuel hdr t ≡ read_more port fuel 4 hdr t
  unfolding tcp_read_by_type
  data_reads_more fuel hdr t e4 = rw e4

  end_reads_more :
      (fuel : ℕ) (hdr : List ℕ) (t : Params D)
      → field32 t.byteorder hdr 4 ≡ type_end_data
      → tcp_read_by_type port fuel hdr t ≡ read_more port fuel 4 hdr t
  unfolding tcp_read_by_type
  end_reads_more fuel hdr t e4 = rw e4

  -- A packet is read with as much of its body as belongs to its type.
  pub read_control-Reads :
      (fuel len type : ℕ) (body rest : List ℕ) (s : Params D)
      → IsBuffer s.pkt_buf
      → view pending s ≡ packet s.byteorder len type body ++ rest
      → length body ≤ ptpip_payload_len
      → length body + 8 ≤ fuel
      → ((hdr : List ℕ) (t : Params D)
          → hdr ≡ packet s.byteorder len type []
          → t.byteorder ≡ s.byteorder
          → tcp_read_by_type port fuel hdr t ≡ read_more port fuel (length body) hdr t)
      → Returns
          (Reads port pending law (packet s.byteorder len type body) rest s)
          (tcp_read_control port fuel s)
  unfolding tcp_read_control
  read_control-Reads fuel len type body rest s v e small f more =
      let order = s.byteorder in
      let hdr = packet order len type [] in
      let all = packet order len type body in
      Returns->>= (Reads port pending law hdr (body ++ rest) s) (Reads port pending law all rest s)
        (control_read_buffered port fuel 8) (tcp_read_by_type port fuel) s
        (control-Reads port pending law fuel hdr (body ++ rest) s v e (omega arith) (omega arith))
        λ out t r. rw (more out t r.result r.same.byteorder) (
          Returns-weaken (Reads port pending law (out ++ body) rest t)
            (Reads port pending law all rest s) (read_more port fuel (length body) out t)
            (read_more-Reads fuel out body rest t r.sound r.left small (omega arith))
            (λ out' u q. record {
              result = q.result ∙ ap (λ l. l ++ body) r.result;
              left = q.left;
              sound = q.sound;
              same = SameSession-trans r.same q.same;
            }))

  pub read_start :
      (fuel : ℕ) (body rest : List ℕ) (s : Params D)
      → IsBuffer s.pkt_buf
      → view pending s ≡ packet s.byteorder 20 type_start_data body ++ rest
      → length body ≡ 12
      → 20 ≤ fuel
      → Returns
          (Reads port pending law (packet s.byteorder 20 type_start_data body) rest s)
          (tcp_read_control port fuel s)
  read_start fuel body rest s v e n f =
      read_control-Reads fuel 20 type_start_data body rest s v e (omega arith) (omega arith)
        λ hdr t h o. rw n (
          start_reads_more fuel hdr t
            (ap₂ (λ o l. field32 o l 4) o h
              ∙ packet_type s.byteorder 20 type_start_data [] (omega arith))
            (ap₂ (λ o l. field32 o l 0) o h
              ∙ packet_len s.byteorder 20 type_start_data [] (omega arith)))

  pub read_data :
      (fuel len : ℕ) (body rest : List ℕ) (s : Params D)
      → IsBuffer s.pkt_buf
      → view pending s ≡ packet s.byteorder len type_data body ++ rest
      → length body ≡ 4
      → 12 ≤ fuel
      → Returns
          (Reads port pending law (packet s.byteorder len type_data body) rest s)
          (tcp_read_control port fuel s)
  read_data fuel len body rest s v e n f =
      read_control-Reads fuel len type_data body rest s v e (omega arith) (omega arith) λ hdr t h o.
        rw n (
          data_reads_more fuel hdr t (
            ap₂ (λ o l. field32 o l 4) o h
            ∙ packet_type s.byteorder len type_data [] (omega arith)))

  pub read_end_data :
      (fuel len : ℕ) (body rest : List ℕ) (s : Params D)
      → IsBuffer s.pkt_buf
      → view pending s ≡ packet s.byteorder len type_end_data body ++ rest
      → length body ≡ 4
      → 12 ≤ fuel
      → Returns
          (Reads port pending law (packet s.byteorder len type_end_data body) rest s)
          (tcp_read_control port fuel s)
  read_end_data fuel len body rest s v e n f =
      read_control-Reads fuel len type_end_data body rest s v e (omega arith) (omega arith)
        λ hdr t h o. rw n (
          end_reads_more fuel hdr t (
            ap₂ (λ o l. field32 o l 4) o h
            ∙ packet_type s.byteorder len type_end_data [] (omega arith)))
