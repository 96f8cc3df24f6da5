-- ===== src/Ptp/Transaction/Refused.antt =====
-- A transaction over USB without a data phase that the camera refuses.
use chdkptp_astro.Base.{ℕ, ◌^◌, ◌≤◌, ◌<◌, ◌≡◌, List, [], ◌++◌, none, length}
use chdkptp_astro.Ptp.Codes.{rc_ok}
use chdkptp_astro.Ptp.State.{Port, Params, ◌>>=◌, pure}
use chdkptp_astro.Ptp.Container.{Container}
use chdkptp_astro.Ptp.Transport.Buffer.{IsBuffer}
use chdkptp_astro.Ptp.Transport.Fill.{Delivers}
use chdkptp_astro.Ptp.Usb.{usb_sendreq, usb_getresp}
use chdkptp_astro.Ptp.Usb.Response.{response}
use chdkptp_astro.Ptp.Usb.Refusal.{Fails, Ready, Returns-Fails, Fails->>=, usb_getresp-Fails}
use chdkptp_astro.Ptp.Transaction.{
  dp_nodata, numbered, counted, data_phase, response_phase, transaction, usb_link,
}
use chdkptp_astro.Ptp.Transaction.OverUsb.{Answers, Asked, usb_sendreq-Asked}

module _ {D : Type 0} (port : Port D) (pending : D → List ℕ) (law : Delivers port pending) where
  -- Over USB with a device that delivers a stream and fuel of 20: a transaction without data and
  -- with up to five parameters, to which the camera replies with a response of another code than PTP_RC_OK and than that of the
  -- request, with up to five parameters, fails with the code of the response. The counter has
  -- moved by one, the response has been read whole, and what follows it is still to be read.
  pub transaction_refused :
      (fuel : ℕ) (ptp : Container) (code trans_id : ℕ) (ps next : List ℕ) (s : Params D)
      → IsBuffer s.pkt_buf
      → Answers port pending law ptp s (response s.byteorder code trans_id ps ++ next)
      → code < 2 ^ 16
      → ¬ code ≡ rc_ok
      → ¬ code ≡ ptp.code
      → length ps ≤ 5
      → 20 ≤ fuel
      → Fails code
          (Ready port pending law next (counted s))
          (transaction (usb_link port fuel) ptp dp_nodata [] s)
  unfolding transaction data_phase response_phase
  transaction_refused fuel ptp code trans_id ps next s v a small n m few f =
      let req = numbered ptp s in
      let reply = response s.byteorder code trans_id ps ++ next in
      let link = usb_link port fuel in
      Returns-Fails (Asked port pending law ptp s reply) code
        (Ready port pending law next (counted s)) (usb_sendreq port req)
        (λ _. data_phase link req dp_nodata [] >>= response_phase link req) (counted s)
        (usb_sendreq-Asked port pending law ptp s reply v a)
        λ u t h.
          Fails->>= code (Ready port pending law next (counted s)) (usb_getresp port fuel req)
            (λ r. pure (r, none)) t
            (usb_getresp-Fails port pending law fuel req code trans_id ps next (counted s) t h.sound
              h.same h.left small n m few f)
