-- ===== src/Ptp/Usb/GetResp.antt =====
-- `ptp_usb_read_control` and `ptp_usb_getresp` on a response container.
use chdkptp_astro.Base.{
  ℕ, suc, ◌+◌, ◌-◌, ◌*◌, ◌%◌, ◌/◌, ◌^◌, ◌≤◌, ◌<◌, ◌≡◌, refl, sym, subst₂, ap, ap₂, ◌∙◌, List, [],
  ◌∷◌, ◌++◌, true, false, not, ltb, ◌==◌, if◌then◌else◌, length, arith, append_assoc, append-nil,
  get_or, Bool-cases, inl, inr,
}
use chdkptp_astro.Ptp.Codes.{rc_ok, bulk_hdr_len, bulk_payload_len, container_response}
use chdkptp_astro.Ptp.State.{Port, Params, done, Returns, Returns->>=, Returns-weaken}
use chdkptp_astro.Ptp.Pack.Arrays.Laws.{words32, AllBelow, length-words32}
use chdkptp_astro.Ptp.Container.{Container, field16, field32}
use chdkptp_astro.Ptp.Transport.{control_read_buffered}
use chdkptp_astro.Ptp.Transport.Buffer.{IsBuffer}
use chdkptp_astro.Ptp.Transport.Fill.{Delivers, SameSession}
use chdkptp_astro.Ptp.Transport.Delivery.{view, SameSession-refl, SameSession-trans}
use chdkptp_astro.Ptp.Usb.{
  header, usb_read_control, read_by_type, read_params, take_response, usb_getresp,
}
use chdkptp_astro.Ptp.Usb.Header.{header_len, header_type, header_code, Reads, control-Reads}
use chdkptp_astro.Ptp.Usb.Response.{
  response, response_param1, response_param2, response_param3, response_param4, response_param5,
  response_trans_id,
}

module _ {D : Type 0} (port : Port D) (pending : D → List ℕ) (law : Delivers port pending) where
  read_params-Reads :
      (fuel : ℕ) (hdr bs rest : List ℕ) (s : Params D)
      → IsBuffer s.pkt_buf
      → view pending s ≡ bs ++ rest
      → length bs ≤ bulk_payload_len
      → length bs ≤ fuel
      → Returns
          (Reads port pending law (hdr ++ bs) rest s)
          (read_params port fuel (length bs + bulk_hdr_len) hdr s)
  unfolding read_params
  read_params-Reads fuel hdr bs rest s v e small f =
      let n : length bs + bulk_hdr_len - bulk_hdr_len ≡ length bs = omega arith in
      let fits : ltb (length bs) (2 ^ 31) ≡ true = ground arith in
      rw (n, fits)
        (Returns->>= (Reads port pending law bs rest s) (Reads port pending law (hdr ++ bs) rest s)
          (control_read_buffered port fuel (length bs)) _ s
          (control-Reads port pending law fuel bs rest s v e (omega arith) f)
          λ out t r.
            let room : ltb bulk_payload_len (length out) ≡ false =
              ground (arith, ap (λ (l : List ℕ). length l) r.result) in
            rw room (record {
              result = ap (◌++◌ hdr) r.result;
              left = r.left;
              sound = r.sound;
              same = r.same;
            }))

  read_by_type_response :
      (fuel n : ℕ) (hdr : List ℕ) (t : Params D)
      → field16 t.byteorder hdr 4 ≡ container_response
      → field32 t.byteorder hdr 0 ≡ n
      → read_by_type port fuel hdr t
        ≡ (if ltb bulk_hdr_len n then read_params port fuel n hdr t else done hdr t)
  unfolding read_by_type
  read_by_type_response fuel n hdr t e4 e0 = rw (e4, e0)

  read_by_type-Reads :
      (fuel : ℕ) (hdr bs rest : List ℕ) (s : Params D)
      → field16 s.byteorder hdr 4 ≡ container_response
      → field32 s.byteorder hdr 0 ≡ length bs + bulk_hdr_len
      → IsBuffer s.pkt_buf
      → view pending s ≡ bs ++ rest
      → length bs ≤ bulk_payload_len
      → length bs ≤ fuel
      → Returns (Reads port pending law (hdr ++ bs) rest s) (read_by_type port fuel hdr s)
  read_by_type-Reads fuel hdr [] rest s e4 e0 v e small f =
      rw (read_by_type_response fuel 12 hdr s e4 e0)
        (record { result = sym (append-nil hdr); left = e; sound = v; same = SameSession-refl })
  read_by_type-Reads fuel hdr (b ∷ bs) rest s e4 e0 v e small f =
      let more : ltb bulk_hdr_len (suc (length bs) + bulk_hdr_len) ≡ true = ground arith in
      rw (read_by_type_response fuel (suc (length bs) + bulk_hdr_len) hdr s e4 e0, more)
        (read_params-Reads fuel hdr (b ∷ bs) rest s v e small f)

  -- A response container is read whole.
  pub read_control_response :
      (fuel code trans_id : ℕ) (ps rest : List ℕ) (s : Params D)
      → IsBuffer s.pkt_buf
      → view pending s ≡ response s.byteorder code trans_id ps ++ rest
      → length ps ≤ 5
      → 20 ≤ fuel
      → Returns
          (Reads port pending law (response s.byteorder code trans_id ps) rest s)
          (usb_read_control port fuel s)
  unfolding usb_read_control
  read_control_response fuel code trans_id ps rest s v e few f =
      let order = s.byteorder in
      let len = 4 * length ps + bulk_hdr_len in
      let hdr = header order len container_response code trans_id in
      let bs = words32 order ps in
      let n : length bs ≡ 4 * length ps = length-words32 order ps in
      let all = response order code trans_id ps in
      Returns->>= (Reads port pending law hdr (bs ++ rest) s) (Reads port pending law all rest s)
        (control_read_buffered port fuel 12) (read_by_type port fuel) s
        (control-Reads port pending law fuel hdr (bs ++ rest) s v (e ∙ append_assoc hdr bs rest)
          (omega arith) (omega arith))
        λ out t r.
          Returns-weaken (Reads port pending law (out ++ bs) rest t)
            (Reads port pending law all rest s) (read_by_type port fuel out t)
            (read_by_type-Reads fuel out bs rest t
              (ap₂ (λ o l. field16 o l 4) r.same.byteorder r.result
                ∙ header_type order len container_response code trans_id (omega arith))
              (ap₂ (λ o l. field32 o l 0) r.same.byteorder r.result
                ∙ header_len order len container_response code trans_id (omega arith)
                ∙ ap (λ k. k + bulk_hdr_len) (sym n))
              r.sound r.left (omega arith) (omega arith))
            (λ out' u q. record {
              result = q.result ∙ ap (λ l. l ++ bs) r.result;
              left = q.left;
              sound = q.sound;
              same = SameSession-trans r.same q.same;
            })

  -- The container that a response of `code` with the parameters `ps` should give.
  abbrev pub answer : Params D → ℕ → ℕ → List ℕ → Container
  answer s code trans_id ps = record {
    code = code;
    session_id = s.session_id;
    transaction_id = trans_id;
    param1 = get_or ps 0 0;
    param2 = get_or ps 1 0;
    param3 = get_or ps 2 0;
    param4 = get_or ps 3 0;
    param5 = get_or ps 4 0;
    nparam = length ps;
  }

  -- The fields of the packet as `order` reads them.
  record Fields (order : ℕ) (pkt : List ℕ) (trans_id : ℕ) (ps : List ℕ) : Type 0 where
    type : field16 order pkt 4 ≡ container_response
    code : field16 order pkt 6 ≡ rc_ok
    len : field32 order pkt 0 ≡ 4 * length ps + bulk_hdr_len
    id : field32 order pkt 8 ≡ trans_id
    param1 : field32 order pkt 12 ≡ get_or ps 0 0
    param2 : field32 order pkt 16 ≡ get_or ps 1 0
    param3 : field32 order pkt 20 ≡ get_or ps 2 0
    param4 : field32 order pkt 24 ≡ get_or ps 3 0
    param5 : field32 order pkt 28 ≡ get_or ps 4 0

  response-Fields :
      (order trans_id : ℕ) (ps : List ℕ)
      → trans_id < 2 ^ 32
      → length ps ≤ 5
      → AllBelow (2 ^ 32) ps
      → Fields order (response order rc_ok trans_id ps) trans_id ps
  response-Fields order trans_id ps small few below = record {
    type =
        header_type order (4 * length ps + bulk_hdr_len) container_response rc_ok trans_id
          (omega arith);
    code =
        header_code order (4 * length ps + bulk_hdr_len) container_response rc_ok trans_id
          (omega arith);
    len =
        header_len order (4 * length ps + bulk_hdr_len) container_response rc_ok trans_id
          (omega arith);
    id = response_trans_id order rc_ok trans_id ps small;
    param1 = response_param1 order rc_ok trans_id ps below;
    param2 = response_param2 order rc_ok trans_id ps below;
    param3 = response_param3 order rc_ok trans_id ps below;
    param4 = response_param4 order rc_ok trans_id ps below;
    param5 = response_param5 order rc_ok trans_id ps below;
  }

  take_response_ok :
      (resp : Container) (pkt : List ℕ) (trans_id : ℕ) (ps : List ℕ) (t : Params D)
      → Fields t.byteorder pkt trans_id ps
      → length ps ≤ 5
      → take_response port resp pkt t ≡ done (answer t rc_ok trans_id ps) t
  unfolding take_response
  take_response_ok resp pkt trans_id ps t f few =
      let n : (4 * length ps + bulk_hdr_len + 2 ^ 32 - 12) % 2 ^ 32 / 4 % 256 ≡ length ps =
        omega arith in
      elim (Bool-cases (not (rc_ok == resp.code))) [
        | inl e ↦
            rw (f.type, f.code, f.len, f.id, f.param1, f.param2, f.param3, f.param4, f.param5, e, n)
              refl
        | inr e ↦
            rw (f.type, f.code, f.len, f.id, f.param1, f.param2, f.param3, f.param4, f.param5, e, n)
              refl
      ]

  -- The response came back as a container, and what follows it is still to be read.
  pub record Responded (trans_id : ℕ) (ps rest : List ℕ) (s : Params D) (out : Container)
      (t : Params D) : Type 0 where
    pub result : out ≡ answer s rc_ok trans_id ps
    pub left : view pending t ≡ rest
    pub sound : IsBuffer t.pkt_buf
    pub same : SameSession s t

  -- If the bytes still to be read of a device that delivers a stream start with a PTP_RC_OK
  -- response with up to five parameters, then with fuel of 20 `ptp_usb_getresp` returns it field
  -- by field, the parameters that it does not have as 0, and consumes exactly the container.
  pub usb_getresp-Responded :
      (fuel : ℕ) (resp : Container) (trans_id : ℕ) (ps rest : List ℕ) (s : Params D)
      → IsBuffer s.pkt_buf
      → view pending s ≡ response s.byteorder rc_ok trans_id ps ++ rest
      → trans_id < 2 ^ 32
      → length ps ≤ 5
      → AllBelow (2 ^ 32) ps
      → 20 ≤ fuel
      → Returns (Responded trans_id ps rest s) (usb_getresp port fuel resp s)
  unfolding usb_getresp
  usb_getresp-Responded fuel resp trans_id ps rest s v e small few below f =
      let all = response s.byteorder rc_ok trans_id ps in
      Returns->>= (Reads port pending law all rest s) (Responded trans_id ps rest s)
        (usb_read_control port fuel) (take_response port resp) s
        (read_control_response fuel rc_ok trans_id ps rest s v e few f)
        λ out t r.
          let f : Fields t.byteorder out trans_id ps =
            subst₂ (λ o l. Fields o l trans_id ps) (sym r.same.byteorder) (sym r.result)
              (response-Fields s.byteorder trans_id ps small few below) in
          rw (take_response_ok resp out trans_id ps t f few) (record {
            result =
                ap (λ i. record (answer s rc_ok trans_id ps) { session_id = i }) r.same.session_id;
            left = r.left;
            sound = r.sound;
            same = r.same;
          })
