-- ===== src/Ptp/Container.antt =====
-- `PTPContainer` (ptp.h), the request and response of an operation apart from their transport, and
-- the raw write that all senders share.
use chdkptp_astro.Base.{ℕ, ◌+◌, ◌*◌, List, ◌==◌, if◌then◌else◌, get_or}
use chdkptp_astro.Ptp.Codes.{rc_ok, error_io}
use chdkptp_astro.Ptp.State.{Port, done, failed, M}
use chdkptp_astro.Ptp.Endian.{dtoh16, dtoh32}

pub record Container : Type 0 where
  pub code : ℕ
  pub session_id : ℕ
  pub transaction_id : ℕ
  pub param1 : ℕ
  pub param2 : ℕ
  pub param3 : ℕ
  pub param4 : ℕ
  pub param5 : ℕ
  pub nparam : ℕ

-- PTP_CNT_INIT.
abbrev pub cleared : Container
cleared = record {
  code = 0;
  session_id = 0;
  transaction_id = 0;
  param1 = 0;
  param2 = 0;
  param3 = 0;
  param4 = 0;
  param5 = 0;
  nparam = 0;
}

-- `ret=params->write_func(…); if (ret!=PTP_RC_OK) ret = PTP_ERROR_IO;`
unfoldable pub send : {D : Type 0} → Port D → List ℕ → M D (Unit {0})
send port bytes s =
    let (rc, d) = port.write_func bytes s.device in
    if rc == rc_ok
    then done tt (record s { device = d })
    else failed error_io (record s { device = d })

-- Fields of a packet that was cleared before it was read into: what did not arrive is 0.
abbrev pub field16 : ℕ → List ℕ → ℕ → ℕ
field16 order pkt off = dtoh16 order (get_or pkt off 0 + 256 * get_or pkt (off + 1) 0)

abbrev pub field32 : ℕ → List ℕ → ℕ → ℕ
field32 order pkt off = dtoh32 order (
    get_or pkt off 0
    + 256 * get_or pkt (off + 1) 0
    + 0x10000 * get_or pkt (off + 2) 0
    + 0x1000000 * get_or pkt (off + 3) 0)
