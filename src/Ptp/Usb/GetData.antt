-- ===== src/Ptp/Usb/GetData.antt =====
-- What `ptp_usb_getdata` returns for a data container on the pipe.
use chdkptp_astro.Base.{
  ℕ, ◌+◌, ◌-◌, ◌%◌, ◌^◌, ◌≤◌, ◌<◌, ◌≡◌, refl, sym, ap, ap₂, ◌∙◌, List, ◌++◌, length, arith, ==_refl,
  length-append, Option, none, some,
}
use chdkptp_astro.Ptp.Codes.{bulk_hdr_len, container_data}
use chdkptp_astro.Ptp.State.{Port, Params, done, ◌>>=◌, pure, Returns, Returns->>=}
use chdkptp_astro.Ptp.Container.{Container, field16, field32}
use chdkptp_astro.Ptp.Transport.{usb_read_data}
use chdkptp_astro.Ptp.Transport.Buffer.{IsBuffer}
use chdkptp_astro.Ptp.Transport.Fill.{Delivers, SameSession}
use chdkptp_astro.Ptp.Transport.Delivery.{view, Delivered, SameSession-trans}
use chdkptp_astro.Ptp.Transport.DataPhase.{usb_read_data-Delivered}
use chdkptp_astro.Ptp.Usb.{header, usb_read_control, check_data_header, read_payload, usb_getdata}
use chdkptp_astro.Ptp.Usb.Header.{
  header_len, header_type, header_code, Reads, Delivered-Reads, read_control_data,
}

module _ {D : Type 0} (port : Port D) (pending : D → List ℕ) (law : Delivers port pending) where
  -- The state after the header of a data container of `total` bytes.
  record HeaderRead (total : ℕ) (rest : List ℕ) (s : Params D) (n : Option ℕ) (t : Params D)
      : Type 0 where
    announced : n ≡ some total
    left : view pending t ≡ rest
    sound : IsBuffer t.pkt_buf
    same : SameSession s t

  check_data_header_data :
      (code total : ℕ) (pkt : List ℕ) (t : Params D)
      → field16 t.byteorder pkt 4 ≡ container_data
      → field16 t.byteorder pkt 6 ≡ code
      → field32 t.byteorder pkt 0 ≡ total + bulk_hdr_len
      → total + bulk_hdr_len < 2 ^ 32
      → check_data_header port code pkt t ≡ done (some total) t
  unfolding check_data_header
  check_data_header_data code total pkt t e4 e6 e0 small =
      let n : (total + bulk_hdr_len + 2 ^ 32 - bulk_hdr_len) % 2 ^ 32 ≡ total = omega arith in
      rw (e4, e6, e0, ==_refl code, n) refl

  read_header-HeaderRead :
      (fuel code total trans_id : ℕ) (rest : List ℕ) (s : Params D)
      → IsBuffer s.pkt_buf
      → view pending s
        ≡ header s.byteorder (total + bulk_hdr_len) container_data code trans_id ++ rest
      → code < 2 ^ 16
      → total + bulk_hdr_len < 2 ^ 32
      → 12 ≤ fuel
      → Returns
          (HeaderRead total rest s)
          ((usb_read_control port fuel >>= check_data_header port code) s)
  read_header-HeaderRead fuel code total trans_id rest s v e hc small f =
      let order = s.byteorder in
      let len = total + bulk_hdr_len in
      let hdr = header order len container_data code trans_id in
      Returns->>= (Reads port pending law hdr rest s) (HeaderRead total rest s)
        (usb_read_control port fuel) (check_data_header port code) s
        (read_control_data port pending law fuel len code trans_id rest s v e f)
        λ out t r.
          rw
            (check_data_header_data code total out t
              (ap₂ (λ o l. field16 o l 4) r.same.byteorder r.result
                ∙ header_type order len container_data code trans_id (omega arith))
              (ap₂ (λ o l. field16 o l 6) r.same.byteorder r.result
                ∙ header_code order len container_data code trans_id hc)
              (ap₂ (λ o l. field32 o l 0) r.same.byteorder r.result
                ∙ header_len order len container_data code trans_id small)
              small)
            (record { announced = refl; left = r.left; sound = r.sound; same = r.same })

  -- The payload came back, and what follows the container is still to be read.
  pub record Payload (bytes next : List ℕ) (s : Params D) (out : Option (List ℕ)) (t : Params D)
      : Type 0 where
    pub result : out ≡ some bytes
    pub left : view pending t ≡ next
    pub sound : IsBuffer t.pkt_buf
    pub same : SameSession s t

  read_payload-Payload :
      (fuel : ℕ) (bytes next : List ℕ) (s : Params D) (n : Option ℕ) (t : Params D)
      → 0 < length next
      → length bytes < 2 ^ 31
      → length bytes < fuel
      → HeaderRead (length bytes) (bytes ++ next) s n t
      → Returns (Payload bytes next s) (read_payload port fuel n t)
  read_payload-Payload fuel bytes next s none t more small f h = cc h.announced
  read_payload-Payload fuel bytes next s (some k) t more small f h =
      unfold read_payload in
      (let e : k ≡ length bytes = ground (arith, h.announced) in
        let l : length (view pending t) ≡ length bytes + length next =
          ap (λ (l : List ℕ). length l) h.left ∙ length-append bytes next in
        Returns->>= (Delivered pending k t) (Payload bytes next s) (usb_read_data port fuel k)
          (λ out. pure (some out)) t
          (usb_read_data-Delivered port pending law fuel k t h.sound (omega arith) (omega arith)
            (omega arith))
          λ out u d.
            let r : Reads port pending law bytes next t out u =
              Delivered-Reads port pending law bytes next h.left (sym e) d in
            record {
              result = ap some r.result;
              left = r.left;
              sound = r.sound;
              same = SameSession-trans h.same r.same;
            })

  -- If the bytes still to be read of a device that delivers a stream start with a data container
  -- of the operation's code with a payload of fewer than 2 ^ 31 bytes, and something follows it,
  -- then with as much fuel as bytes `ptp_usb_getdata` returns its payload, however the device cuts
  -- the stream, and consumes exactly the container.
  pub usb_getdata-Payload :
      (fuel : ℕ) (ptp : Container) (trans_id : ℕ) (bytes next : List ℕ) (s : Params D)
      → IsBuffer s.pkt_buf
      → view pending s
        ≡ header s.byteorder (length bytes + bulk_hdr_len) container_data ptp.code trans_id
          ++ (bytes ++ next)
      → 0 < length next
      → ptp.code < 2 ^ 16
      → length bytes < 2 ^ 31
      → length bytes + bulk_hdr_len ≤ fuel
      → Returns (Payload bytes next s) (usb_getdata port fuel ptp s)
  unfolding usb_getdata
  usb_getdata-Payload fuel ptp trans_id bytes next s v e more hc small f =
      Returns->>= (HeaderRead (length bytes) (bytes ++ next) s) (Payload bytes next s)
        (usb_read_control port fuel >>= check_data_header port ptp.code) (read_payload port fuel) s
        (read_header-HeaderRead fuel ptp.code (length bytes) trans_id (bytes ++ next) s v e hc
          (omega arith) (omega arith))
        λ n t h. read_payload-Payload fuel bytes next s n t more small (omega arith) h
