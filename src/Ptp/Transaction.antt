-- ===== src/Ptp/Transaction.antt =====
-- `ptp_transaction` and `ptp_getdata_transaction` (ptp.c), over the function pointers of
-- `PTPParams` as an interface, and the USB functions that fill it.
pub mod OverUsb
pub mod NoData
pub mod Refused
use chdkptp_astro.Base.{ℕ, ◌+◌, ◌%◌, ◌^◌, List, [], Bool, Option, none, some, ◌==◌, if◌then◌else◌}
use chdkptp_astro.Ptp.Codes.{error_badparam}
use chdkptp_astro.Ptp.State.{Port, Params, Outcome, done, failed, M, ◌>>=◌, pure, fail}
use chdkptp_astro.Ptp.Container.{Container}
use chdkptp_astro.Ptp.Usb.{usb_sendreq, usb_senddata, usb_getdata, usb_getdata_handler, usb_getresp}

-- `sendreq_func`, `senddata_func`, `getdata_func` without and with a handler, `getresp_func`.
pub record Link (D : Type 0) : Type 0 where
  pub sendreq : Container → M D (Unit {0})
  pub senddata : Container → List ℕ → M D (Unit {0})
  pub getdata : Container → M D (Option (List ℕ))
  pub getdata_handler : Container → (List ℕ → M D (Unit {0})) → ℕ → M D (Unit {0})
  pub getresp : Container → M D Container

-- PTP_DP_NODATA, PTP_DP_SENDDATA and PTP_DP_GETDATA.
abbrev pub dp_nodata : ℕ
dp_nodata = 0

abbrev pub dp_senddata : ℕ
dp_senddata = 1

abbrev pub dp_getdata : ℕ
dp_getdata = 2

-- The request with the ids of the connection.
abbrev pub numbered : {D : Type 0} → Container → Params D → Container
numbered ptp s = record ptp { transaction_id = s.transaction_id; session_id = s.session_id }

-- `params->transaction_id++`, a `uint32_t`.
abbrev pub counted : {D : Type 0} → Params D → Params D
counted s = record s { transaction_id = (s.transaction_id + 1) % 2 ^ 32 }

module _ {D : Type 0} (link : Link D) where
  -- `flags&PTP_DP_DATA_MASK`; the result is `*data` where data was received.
  pub data_phase : Container → ℕ → List ℕ → M D (Option (List ℕ))
  data_phase ptp flags bytes =
      if flags % 256 == dp_senddata
      then (link.senddata ptp bytes >>= λ _. pure none)
      else if flags % 256 == dp_getdata
      then link.getdata ptp
      else if flags % 256 == dp_nodata
      then pure none
      else fail error_badparam

  pub response_phase : Container → Option (List ℕ) → M D (Container × Option (List ℕ))
  response_phase ptp received = link.getresp ptp >>= λ r. pure (r, received)

  -- `bytes` are the `sendlen` bytes at `*data`.
  unfoldable pub transaction : Container → ℕ → List ℕ → M D (Container × Option (List ℕ))
  transaction ptp flags bytes s =
      let req = numbered ptp s in
      (link.sendreq req >>= λ _. data_phase req flags bytes >>= response_phase req) (counted s)

  unfoldable pub getdata_transaction : Container → (List ℕ → M D (Unit {0})) → ℕ → M D Container
  getdata_transaction ptp handler block_size s =
      let req = numbered ptp s in
      (link.sendreq req >>= λ _.
      link.getdata_handler req handler block_size >>= λ _. link.getresp req)
        (counted s)

-- What `open_camera_dev_usb` puts into the function pointers.
abbrev pub usb_link : {D : Type 0} → Port D → ℕ → Link D
usb_link port fuel = record {
  sendreq = usb_sendreq port;
  senddata = usb_senddata port;
  getdata = usb_getdata port fuel;
  getdata_handler = usb_getdata_handler port fuel;
  getresp = usb_getresp port fuel;
}
