-- ===== src/Ptp/Operations/Session.antt =====
-- `ptp_opensession` over USB.
use chdkptp_astro.Base.{ℕ, ◌^◌, ◌≤◌, ◌<◌, ◌≡◌, refl, ap, List, [], ◌++◌, none, length}
use chdkptp_astro.Ptp.Codes.{rc_ok}
use chdkptp_astro.Ptp.State.{
  Port, Params, Outcome, done, failed, overrun, diverged, ◌>>=◌, Returns, Returns->>=,
}
use chdkptp_astro.Ptp.Container.{Container}
use chdkptp_astro.Ptp.Pack.Arrays.Laws.{AllBelow}
use chdkptp_astro.Ptp.Transport.Buffer.{IsBuffer}
use chdkptp_astro.Ptp.Transport.Fill.{Delivers}
use chdkptp_astro.Ptp.Transport.Delivery.{view}
use chdkptp_astro.Ptp.Usb.Response.{response}
use chdkptp_astro.Ptp.Transaction.{dp_nodata, transaction, usb_link}
use chdkptp_astro.Ptp.Transaction.OverUsb.{Answers, Completed}
use chdkptp_astro.Ptp.Transaction.NoData.{transaction_nodata}
use chdkptp_astro.Ptp.Operations.{request1, reply_of, then_always, opensession}

then_always-Returns :
    {D A : Type 0} (P Q : A → Params D → Type 0) (f : Params D → Params D) (o : Outcome D A)
    → Returns P o
    → ((a : A) (t : Params D) → P a t → Q a (f t))
    → Returns Q (then_always f o)
unfolding then_always
then_always-Returns P Q f (done a t) p k = k a t p
then_always-Returns P Q f (failed c t) p k = p
then_always-Returns P Q f overrun p k = p
then_always-Returns P Q f diverged p k = p

-- The ids are 0 while the session is opened.
abbrev pub unnumbered : {D : Type 0} → Params D → Params D
unnumbered s = record s { session_id = 0; transaction_id = 0 }

module _ {D : Type 0} (port : Port D) (pending : D → List ℕ) (law : Delivers port pending) where
  -- The session is open, and its next transaction is number 1.
  pub record Opened (session : ℕ) (next : List ℕ) (s : Params D) (out : Container) (t : Params D)
      : Type 0 where
    pub answered : out.code ≡ rc_ok
    pub session_id : t.session_id ≡ session
    pub transaction_id : t.transaction_id ≡ 1
    pub byteorder : t.byteorder ≡ s.byteorder
    pub left : view pending t ≡ next
    pub sound : IsBuffer t.pkt_buf

  -- `ptp_opensession` over USB, with a device that delivers a stream and fuel of 20: the request
  -- goes out with the ids 0, whatever they were, and when the camera replies to it with a
  -- PTP_RC_OK response with up to five parameters, the connection has the id of the session, the
  -- next transaction will be number 1, and what follows the response is still to be read.
  pub opensession-Opened :
      (fuel session trans_id : ℕ) (ps next : List ℕ) (s : Params D)
      → IsBuffer s.pkt_buf
      → Answers port pending law
          (request1 0x1002 session)
          (unnumbered s)
          (response s.byteorder rc_ok trans_id ps ++ next)
      → trans_id < 2 ^ 32
      → length ps ≤ 5
      → AllBelow (2 ^ 32) ps
      → 20 ≤ fuel
      → Returns (Opened session next s) (opensession (usb_link port fuel) session s)
  unfolding opensession
  opensession-Opened fuel session trans_id ps next s v a small few below f =
      let begin = unnumbered s in
      let link = usb_link port fuel in
      let finished : Container → Params D → Type 0 =
        λ out t. Opened session next s out (record t { session_id = session }) in
      then_always-Returns finished (Opened session next s) (λ t. record t { session_id = session })
        ((transaction link (request1 0x1002 session) dp_nodata [] >>= reply_of) begin)
        (Returns->>= (Completed port pending law trans_id ps none next begin) finished
          (transaction link (request1 0x1002 session) dp_nodata []) reply_of begin
          (transaction_nodata port pending law fuel (request1 0x1002 session) trans_id ps next begin
            v a small few below f)
          λ out t h. record {
            answered = ap (λ c. c.code) h.reply;
            session_id = refl;
            transaction_id = h.same.transaction_id;
            byteorder = h.same.byteorder;
            left = h.left;
            sound = h.sound;
          })
        (λ out t h. h)
