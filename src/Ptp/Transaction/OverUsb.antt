-- ===== src/Ptp/Transaction/OverUsb.antt =====
-- A whole transaction over USB: request, data phase and response.
use chdkptp_astro.Base.{
  ℕ, ◌+◌, ◌*◌, ◌^◌, ◌≤◌, ◌<◌, ◌≡◌, refl, sym, ap, ◌∙◌, List, [], ◌++◌, Option, some, length, take,
  arith, length-append, le→not_ltb,
}
use chdkptp_astro.Ptp.Codes.{rc_ok, bulk_hdr_len, container_data}
use chdkptp_astro.Ptp.State.{Port, Params, ◌>>=◌, pure, Returns, Returns->>=, Returns-weaken}
use chdkptp_astro.Ptp.Container.{Container, send}
use chdkptp_astro.Ptp.Pack.Arrays.Laws.{AllBelow}
use chdkptp_astro.Ptp.Transport.Buffer.{contents, IsBuffer}
use chdkptp_astro.Ptp.Transport.Fill.{Delivers, SameSession}
use chdkptp_astro.Ptp.Transport.Delivery.{view, SameSession-trans}
use chdkptp_astro.Ptp.Usb.{header, request, request_len, usb_sendreq, usb_getdata, usb_getresp}
use chdkptp_astro.Ptp.Usb.GetData.{Payload, usb_getdata-Payload}
use chdkptp_astro.Ptp.Usb.Response.{response, length-response}
use chdkptp_astro.Ptp.Usb.GetResp.{answer, Responded, usb_getresp-Responded}
use chdkptp_astro.Ptp.Transaction.{
  dp_getdata, numbered, counted, data_phase, response_phase, transaction, usb_link,
}

module _ {D : Type 0} (port : Port D) (pending : D → List ℕ) (law : Delivers port pending) where
  -- The bytes of the request as they go out.
  abbrev pub outgoing : Container → Params D → List ℕ
  outgoing ptp s = take (request_len ptp) (request s.byteorder (request_len ptp) (numbered ptp s))

  -- The request has up to five parameters, the device takes it, and `reply` is what can be read then.
  pub record Answers (ptp : Container) (s : Params D) (reply : List ℕ) : Type 0 where
    pub params_fit : ptp.nparam ≤ 5
    pub accepted : (port.write_func (outgoing ptp s) s.device).0 ≡ rc_ok
    pub reply_bytes :
        contents s.pkt_buf ++ pending (port.write_func (outgoing ptp s) s.device).1 ≡ reply

  -- Behind the request.
  pub record Asked (ptp : Container) (s : Params D) (reply : List ℕ) (u : Unit {0}) (t : Params D)
      : Type 0 where
    pub left : view pending t ≡ reply
    pub sound : IsBuffer t.pkt_buf
    pub same : SameSession (counted s) t

  pub usb_sendreq-Asked :
      (ptp : Container) (s : Params D) (reply : List ℕ)
      → IsBuffer s.pkt_buf
      → Answers ptp s reply
      → Returns (Asked ptp s reply) (usb_sendreq port (numbered ptp s) (counted s))
  unfolding usb_sendreq send
  usb_sendreq-Asked ptp s reply v a =
      rw (le→not_ltb 5 ptp.nparam a.params_fit, a.accepted)
        (record {
          left = a.reply_bytes;
          sound = v;
          same = record {
            byteorder = refl;
            transaction_id = refl;
            session_id = refl;
            max_packet_size = refl;
          };
        })

  -- The transaction is over: its response and data, and the connection ready for the next.
  pub record Completed (trans_id : ℕ) (ps : List ℕ) (received : Option (List ℕ)) (next : List ℕ)
      (s : Params D) (out : Container × Option (List ℕ)) (t : Params D) : Type 0 where
    pub reply : out.0 ≡ answer port pending law s rc_ok trans_id ps
    pub result : out.1 ≡ received
    pub left : view pending t ≡ next
    pub sound : IsBuffer t.pkt_buf
    pub same : SameSession (counted s) t

  pub finish-Completed :
      (fuel : ℕ) (ptp : Container) (trans_id : ℕ) (ps next : List ℕ) (received : Option (List ℕ))
      (s t : Params D)
      → IsBuffer t.pkt_buf
      → SameSession (counted s) t
      → view pending t ≡ response s.byteorder rc_ok trans_id ps ++ next
      → trans_id < 2 ^ 32
      → length ps ≤ 5
      → AllBelow (2 ^ 32) ps
      → 20 ≤ fuel
      → Returns
          (Completed trans_id ps received next s)
          (response_phase (usb_link port fuel) ptp received t)
  unfolding response_phase
  finish-Completed fuel ptp trans_id ps next received s t v same e small few below f =
      Returns->>= (Responded port pending law trans_id ps next t)
        (Completed trans_id ps received next s) (usb_getresp port fuel ptp)
        (λ r. pure (r, received)) t
        (usb_getresp-Responded port pending law fuel ptp trans_id ps next t v
          (e ∙ ap (λ o. response o rc_ok trans_id ps ++ next) (sym same.byteorder)) small few below
          f)
        λ r u h. record {
          reply =
              h.result
              ∙ ap (λ i. record (answer port pending law s rc_ok trans_id ps) { session_id = i })
                  same.session_id;
          result = refl;
          left = h.left;
          sound = h.sound;
          same = SameSession-trans same h.same;
        }

  -- Behind the data phase.
  record Got (bytes rest : List ℕ) (s : Params D) (out : Option (List ℕ)) (t : Params D)
      : Type 0 where
    result : out ≡ some bytes
    left : view pending t ≡ rest
    sound : IsBuffer t.pkt_buf
    same : SameSession (counted s) t

  ask-Got :
      (fuel : ℕ) (ptp : Container) (data_id : ℕ) (bytes rest : List ℕ) (s t : Params D)
      → {u : Unit {0}}
      → Asked ptp s
          (header s.byteorder (length bytes + bulk_hdr_len) container_data ptp.code data_id
            ++ (bytes ++ rest))
          u
          t
      → ptp.code < 2 ^ 16
      → length bytes < 2 ^ 31
      → 0 < length rest
      → length bytes + bulk_hdr_len ≤ fuel
      → Returns (Got bytes rest s) (usb_getdata port fuel (numbered ptp s) t)
  ask-Got fuel ptp data_id bytes rest s t a hc hl more f =
      let hdr = λ (o : ℕ). header o (length bytes + bulk_hdr_len) container_data ptp.code data_id in
      Returns-weaken (Payload port pending law bytes rest t) (Got bytes rest s)
        (usb_getdata port fuel (numbered ptp s) t)
        (usb_getdata-Payload port pending law fuel (numbered ptp s) data_id bytes rest t a.sound
          (a.left ∙ ap (λ o. hdr o ++ (bytes ++ rest)) (sym a.same.byteorder)) more hc hl f)
        (λ out u h. record {
          result = h.result;
          left = h.left;
          sound = h.sound;
          same = SameSession-trans a.same h.same;
        })

  pub transaction_getdata :
      (fuel : ℕ) (ptp : Container) (data_id trans_id : ℕ) (bytes ps next : List ℕ) (s : Params D)
      → IsBuffer s.pkt_buf
      → Answers ptp s (
          header s.byteorder (length bytes + bulk_hdr_len) container_data ptp.code data_id
          ++ (bytes ++ (response s.byteorder rc_ok trans_id ps ++ next)))
      → ptp.code < 2 ^ 16
      → length bytes < 2 ^ 31
      → trans_id < 2 ^ 32
      → length ps ≤ 5
      → AllBelow (2 ^ 32) ps
      → length bytes + 20 ≤ fuel
      → Returns
          (Completed trans_id ps (some bytes) next s)
          (transaction (usb_link port fuel) ptp dp_getdata [] s)
  unfolding transaction data_phase
  transaction_getdata fuel ptp data_id trans_id bytes ps next s v a hc hl small few below f =
      let req = numbered ptp s in
      let tail = response s.byteorder rc_ok trans_id ps ++ next in
      let reply =
        header s.byteorder (length bytes + bulk_hdr_len) container_data ptp.code data_id
        ++ (bytes ++ tail) in
      let len : length (response s.byteorder rc_ok trans_id ps) ≡ 4 * length ps + bulk_hdr_len =
        length-response s.byteorder rc_ok trans_id ps in
      let more : 0 < length tail =
        omega (arith, length-append {0} (response s.byteorder rc_ok trans_id ps) next) in
      let final = Completed trans_id ps (some bytes) next s in
      Returns->>= (Asked ptp s reply) final (usb_sendreq port req)
        (λ _.
          data_phase (usb_link port fuel) req dp_getdata []
          >>= response_phase (usb_link port fuel) req)
        (counted s) (usb_sendreq-Asked ptp s reply v a)
        λ u t h.
          Returns->>= (Got bytes tail s) final (usb_getdata port fuel req)
            (response_phase (usb_link port fuel) req) t
            (ask-Got fuel ptp data_id bytes tail s t h hc hl more (omega arith))
            λ out w g. rw g.result (
              finish-Completed fuel req trans_id ps next (some bytes) s w g.sound g.same g.left
                small few below (omega arith))
