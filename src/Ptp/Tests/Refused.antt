-- ===== src/Ptp/Tests/Refused.antt =====
-- A camera that answers a request without data with PTP_RC_InvalidParameter and one parameter.
use chdkptp_astro.Base.{[], ◌∷◌, ◌++◌, refl, arith}
use chdkptp_astro.Ptp.State.{Params}
use chdkptp_astro.Ptp.Usb.Response.{response}
use chdkptp_astro.Ptp.Usb.Refusal.{Fails, Ready}
use chdkptp_astro.Ptp.Transaction.{dp_nodata, counted, transaction, usb_link}
use chdkptp_astro.Ptp.Transaction.Refused.{transaction_refused}
use chdkptp_astro.Ptp.Operations.{request1}
use chdkptp_astro.Ptp.Tests.Cable.{Cable, cable, cable-Delivers}
use chdkptp_astro.Ptp.Tests.Session.{opened, empty_buffer-IsBuffer}

abbrev refusing : Params Cable
refusing = opened (response 0x0f 0x201d 4 (5 ∷ []) ++ [])

transaction_refused_example :
    Fails 0x201d
      (Ready cable (λ d. d.stream) cable-Delivers [] (counted refusing))
      (transaction (usb_link cable 64) (request1 0x1003 0) dp_nodata [] refusing)
transaction_refused_example =
    transaction_refused cable (λ d. d.stream) cable-Delivers 64 (request1 0x1003 0) 0x201d 4
      (5 ∷ []) [] refusing empty_buffer-IsBuffer
      (record { params_fit = omega arith; accepted = refl; reply_bytes = refl }) (omega arith)
      (omega arith) (omega arith) (omega arith) (omega arith)
