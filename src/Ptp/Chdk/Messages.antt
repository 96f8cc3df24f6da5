-- ===== src/Ptp/Chdk/Messages.antt =====
-- What the CHDK operations return over USB.
use chdkptp_astro.Base.{
  ℕ, ◌^◌, ◌≤◌, ◌<◌, ◌≡◌, refl, ap, ◌∙◌, List, [], ◌∷◌, ◌++◌, Option, none, some, length, arith,
  le→not_ltb, take_all,
}
use chdkptp_astro.Ptp.Codes.{rc_ok}
use chdkptp_astro.Ptp.State.{Port, Params, Returns, Returns->>=}
use chdkptp_astro.Ptp.Container.{Container}
use chdkptp_astro.Ptp.Transport.Buffer.{IsBuffer}
use chdkptp_astro.Ptp.Transport.Fill.{Delivers}
use chdkptp_astro.Ptp.Usb.Response.{response}
use chdkptp_astro.Ptp.Usb.GetResp.{answer}
use chdkptp_astro.Ptp.Transaction.{dp_getdata, dp_nodata, transaction, usb_link}
use chdkptp_astro.Ptp.Transaction.OverUsb.{Answers, Completed}
use chdkptp_astro.Ptp.Transaction.NoData.{transaction_nodata}
use chdkptp_astro.Ptp.Operations.{request1, request4, data_of}
use chdkptp_astro.Ptp.Operations.OverUsb.{Replies, Replies-Completed, Obtained}
use chdkptp_astro.Ptp.Chdk.{
  oc_chdk, script_msg, read_script_msg, get_memory, get_version, two_params,
}

module _ {D : Type 0} (port : Port D) (pending : D → List ℕ) (law : Delivers port pending) where
  script_msg-Obtained :
      (fuel type subtype id : ℕ) (bytes : List ℕ) (s : Params D)
      (r : Replies port pending law fuel (request1 oc_chdk 10) bytes s)
      → r.ps ≡ type ∷ subtype ∷ id ∷ length bytes ∷ []
      → (out : Container × Option (List ℕ)) (t : Params D)
      → Completed port pending law r.trans_id r.ps (some bytes) r.next s out t
      → Returns
          (Obtained port pending law
            (record { script_id = id; type = type; subtype = subtype; bytes = bytes })
            r.next
            s)
          (script_msg out t)
  unfolding script_msg
  script_msg-Obtained fuel type subtype id bytes s r e (reply, none) t h = cc h.result
  script_msg-Obtained fuel type subtype id bytes s r e (reply, some got) t h =
      let same_data : got ≡ bytes = cc h.result in
      let params : reply
          ≡ answer port pending law s rc_ok r.trans_id (type ∷ subtype ∷ id ∷ length bytes ∷ []) =
        h.reply ∙ ap (answer port pending law s rc_ok r.trans_id) e in
      rw
        (
          same_data,
          params,
          le→not_ltb (length bytes) (length bytes) (omega arith),
          take_all (length bytes) bytes (omega arith),
        )
        (record { value = refl; left = h.left; sound = h.sound; same = h.same })

  -- `ptp_chdk_read_script_msg` over USB: when the camera replies (`Replies`) with data, at
  -- least one byte and fewer than 2 ^ 31, and four
  -- parameters, the last of them the length of the data, the operation returns all the data, with
  -- the type, the subtype and the script id from the other parameters, and the connection is
  -- ready for the next operation.
  pub read_script_msg-Obtained :
      (fuel type subtype id : ℕ) (bytes : List ℕ) (s : Params D)
      → 0 < length bytes
      → (r : Replies port pending law fuel (request1 oc_chdk 10) bytes s)
      → r.ps ≡ type ∷ subtype ∷ id ∷ length bytes ∷ []
      → Returns
          (Obtained port pending law
            (record { script_id = id; type = type; subtype = subtype; bytes = bytes })
            r.next
            s)
          (read_script_msg (usb_link port fuel) s)
  unfolding read_script_msg
  read_script_msg-Obtained fuel type subtype id bytes s some_data r e =
      Returns->>= (Completed port pending law r.trans_id r.ps (some bytes) r.next s)
        (Obtained port pending law
          (record { script_id = id; type = type; subtype = subtype; bytes = bytes }) r.next s)
        (transaction (usb_link port fuel) (request1 oc_chdk 10) dp_getdata []) script_msg s
        (Replies-Completed port pending law r)
        (script_msg-Obtained fuel type subtype id bytes s r e)

  -- `ptp_chdk_get_memory` over USB: when the camera replies (`Replies`) with data of fewer than
  -- 2 ^ 31 bytes, the operation
  -- returns that data, and the connection is ready for the next operation.
  pub get_memory-Obtained :
      (fuel start num flags : ℕ) (bytes : List ℕ) (s : Params D)
      → (r : Replies port pending law fuel (request4 oc_chdk 1 start num flags) bytes s)
      → Returns
          (Obtained port pending law (some bytes) r.next s)
          (get_memory (usb_link port fuel) start num flags s)
  unfolding get_memory
  get_memory-Obtained fuel start num flags bytes s r =
      Returns->>= (Completed port pending law r.trans_id r.ps (some bytes) r.next s)
        (Obtained port pending law (some bytes) r.next s)
        (transaction (usb_link port fuel) (request4 oc_chdk 1 start num flags) dp_getdata [])
        data_of s (Replies-Completed port pending law r)
        λ out t h. record { value = h.result; left = h.left; sound = h.sound; same = h.same }

  -- `ptp_chdk_get_version` over USB, with a device that delivers a stream and fuel of 20: when
  -- the camera takes the request and replies with a PTP_RC_OK response with two parameters, the
  -- operation returns them as the major and the minor version, and the connection is ready for
  -- the next operation.
  pub get_version-Obtained :
      (fuel trans_id major minor : ℕ) (next : List ℕ) (s : Params D)
      → IsBuffer s.pkt_buf
      → Answers port pending law
          (request1 oc_chdk 0)
          s
          (response s.byteorder rc_ok trans_id (major ∷ minor ∷ []) ++ next)
      → trans_id < 2 ^ 32
      → major < 2 ^ 32
      → minor < 2 ^ 32
      → 20 ≤ fuel
      → Returns
          (Obtained port pending law (major, minor) next s)
          (get_version (usb_link port fuel) s)
  unfolding get_version
  get_version-Obtained fuel trans_id major minor next s v a small hmajor hminor f =
      Returns->>= (Completed port pending law trans_id (major ∷ minor ∷ []) none next s)
        (Obtained port pending law (major, minor) next s)
        (transaction (usb_link port fuel) (request1 oc_chdk 0) dp_nodata []) two_params s
        (transaction_nodata port pending law fuel (request1 oc_chdk 0) trans_id (major ∷ minor ∷ [])
          next s v a small (omega arith) (omega arith) f)
        λ out t h. record {
          value = ap (λ c. (c.param1, c.param2)) h.reply;
          left = h.left;
          sound = h.sound;
          same = h.same;
        }
