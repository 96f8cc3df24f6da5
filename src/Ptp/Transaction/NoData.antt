-- ===== src/Ptp/Transaction/NoData.antt =====
-- A transaction over USB without a data phase.
use chdkptp_astro.Base.{ℕ, ◌^◌, ◌≤◌, ◌<◌, List, [], ◌++◌, none, length}
use chdkptp_astro.Ptp.Codes.{rc_ok}
use chdkptp_astro.Ptp.State.{Port, Params, ◌>>=◌, Returns, Returns->>=}
use chdkptp_astro.Ptp.Container.{Container}
use chdkptp_astro.Ptp.Pack.Arrays.Laws.{AllBelow}
use chdkptp_astro.Ptp.Transport.Buffer.{IsBuffer}
use chdkptp_astro.Ptp.Transport.Fill.{Delivers}
use chdkptp_astro.Ptp.Usb.{usb_sendreq}
use chdkptp_astro.Ptp.Usb.Response.{response}
use chdkptp_astro.Ptp.Transaction.{
  dp_nodata, numbered, counted, data_phase, response_phase, transaction, usb_link,
}
use chdkptp_astro.Ptp.Transaction.OverUsb.{
  Answers, Asked, usb_sendreq-Asked, Completed, finish-Completed,
}

module _ {D : Type 0} (port : Port D) (pending : D → List ℕ) (law : Delivers port pending) where
  -- Over USB with a device that delivers a stream and fuel of 20: a transaction without data and
  -- with up to five parameters, to which the camera replies with a PTP_RC_OK response with up to five parameters, succeeds with
  -- that response; the counter has moved by one, and what follows the response is still to be
  -- read.
  pub transaction_nodata :
      (fuel : ℕ) (ptp : Container) (trans_id : ℕ) (ps next : List ℕ) (s : Params D)
      → IsBuffer s.pkt_buf
      → Answers port pending law ptp s (response s.byteorder rc_ok trans_id ps ++ next)
      → trans_id < 2 ^ 32
      → length ps ≤ 5
      → AllBelow (2 ^ 32) ps
      → 20 ≤ fuel
      → Returns
          (Completed port pending law trans_id ps none next s)
          (transaction (usb_link port fuel) ptp dp_nodata [] s)
  unfolding transaction data_phase
  transaction_nodata fuel ptp trans_id ps next s v a small few below f =
      let req = numbered ptp s in
      let reply = response s.byteorder rc_ok trans_id ps ++ next in
      let final = Completed port pending law trans_id ps none next s in
      Returns->>= (Asked port pending law ptp s reply) final (usb_sendreq port req)
        (λ _.
          data_phase (usb_link port fuel) req dp_nodata []
          >>= response_phase (usb_link port fuel) req)
        (counted s) (usb_sendreq-Asked port pending law ptp s reply v a)
        λ u t h.
          finish-Completed port pending law fuel req trans_id ps next none s t h.sound h.same h.left
            small few below f
