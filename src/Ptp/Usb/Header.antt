-- ===== src/Ptp/Usb/Header.antt =====
-- The header of a bulk container, written and read back, and `ptp_usb_read_control` on it.
use chdkptp_astro.Base.{
  ℕ, ◌+◌, ◌^◌, ◌≤◌, ◌<◌, ◌≡◌, refl, ap, ap₂, ◌∙◌, List, ◌++◌, length, arith, append_cut,
  length-append,
}
use chdkptp_astro.Ptp.Codes.{container_data}
use chdkptp_astro.Ptp.State.{Port, Params, done, Returns, Returns->>=, Returns-weaken}
use chdkptp_astro.Ptp.Endian.{htod16, htod32, dtoh16, dtoh32}
use chdkptp_astro.Ptp.Endian.Laws.{dtoh16-htod16, dtoh32-htod32, htod16-lt, htod32-lt}
use chdkptp_astro.Ptp.Container.{field16, field32}
use chdkptp_astro.Ptp.Transport.{control_read_buffered}
use chdkptp_astro.Ptp.Transport.Buffer.{IsBuffer}
use chdkptp_astro.Ptp.Transport.Fill.{Delivers, SameSession}
use chdkptp_astro.Ptp.Transport.Delivery.{view, Delivered, control_read_buffered-Delivered}
use chdkptp_astro.Ptp.Usb.{header, usb_read_control, read_by_type}

module _ (order len type code trans_id : ℕ) where
  pub header_len : len < 2 ^ 32 → field32 order (header order len type code trans_id) 0 ≡ len
  header_len h =
      let k : htod32 order len < 2 ^ 32 = htod32-lt order len h in
      ap (dtoh32 order) (omega arith) ∙ dtoh32-htod32 order len h

  pub header_type : type < 2 ^ 16 → field16 order (header order len type code trans_id) 4 ≡ type
  header_type h =
      let k : htod16 order type < 2 ^ 16 = htod16-lt order type h in
      ap (dtoh16 order) (omega arith) ∙ dtoh16-htod16 order type h

  pub header_code : code < 2 ^ 16 → field16 order (header order len type code trans_id) 6 ≡ code
  header_code h =
      let k : htod16 order code < 2 ^ 16 = htod16-lt order code h in
      ap (dtoh16 order) (omega arith) ∙ dtoh16-htod16 order code h

module _ {D : Type 0} (port : Port D) (pending : D → List ℕ) (law : Delivers port pending) where
  -- The step read `bs`, the next bytes of the stream, and `rest` is still to come.
  pub record Reads (bs rest : List ℕ) (s : Params D) (out : List ℕ) (t : Params D) : Type 0 where
    pub result : out ≡ bs
    pub left : view pending t ≡ rest
    pub sound : IsBuffer t.pkt_buf
    pub same : SameSession s t

  pub Delivered-Reads :
      {n : ℕ} {s t : Params D} {out : List ℕ} (bs rest : List ℕ)
      → view pending s ≡ bs ++ rest
      → length bs ≡ n
      → Delivered pending n s out t
      → Reads bs rest s out t
  Delivered-Reads {t} {out} bs rest e l d =
      let cut = append_cut out bs (view pending t) rest (omega (arith, d.count)) (d.split ∙ e) in
      record { result = cut.0; left = cut.1; sound = d.sound; same = d.same }

  pub control-Reads :
      (fuel : ℕ) (bs rest : List ℕ) (s : Params D)
      → IsBuffer s.pkt_buf
      → view pending s ≡ bs ++ rest
      → length bs ≤ 512
      → length bs ≤ fuel
      → Returns (Reads bs rest s) (control_read_buffered port fuel (length bs) s)
  control-Reads fuel bs rest s v e small f =
      let n : length (view pending s) ≡ length bs + length rest =
        ap (λ (l : List ℕ). length l) e ∙ length-append bs rest in
      Returns-weaken (Delivered pending (length bs) s) (Reads bs rest s)
        (control_read_buffered port fuel (length bs) s)
        (control_read_buffered-Delivered port pending law fuel (length bs) s v small (omega arith)
          f)
        (λ out t d. Delivered-Reads bs rest e refl d)

  read_by_type_data :
      (fuel : ℕ) (hdr : List ℕ) (t : Params D)
      → field16 t.byteorder hdr 4 ≡ container_data
      → read_by_type port fuel hdr t ≡ done hdr t
  unfolding read_by_type
  read_by_type_data fuel hdr t e = rw e

  -- A data container gives its header, and leaves the payload to be read.
  pub read_control_data :
      (fuel len code trans_id : ℕ) (rest : List ℕ) (s : Params D)
      → IsBuffer s.pkt_buf
      → view pending s ≡ header s.byteorder len container_data code trans_id ++ rest
      → 12 ≤ fuel
      → Returns
          (Reads (header s.byteorder len container_data code trans_id) rest s)
          (usb_read_control port fuel s)
  unfolding usb_read_control
  read_control_data fuel len code trans_id rest s v e f =
      let hdr = header s.byteorder len container_data code trans_id in
      Returns->>= (Reads hdr rest s) (Reads hdr rest s) (control_read_buffered port fuel 12)
        (read_by_type port fuel) s (control-Reads fuel hdr rest s v e (omega arith) f)
        λ out t r.
          let type : field16 t.byteorder out 4 ≡ container_data =
            ap₂ (λ o l. field16 o l 4) r.same.byteorder r.result
            ∙ header_type s.byteorder len container_data code trans_id (omega arith) in
          rw (read_by_type_data fuel out t type) r
