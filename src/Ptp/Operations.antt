-- ===== src/Ptp/Operations.antt =====
-- The operations of ptp.c: requests of the PTP standard, run by `ptp_transaction`. Messages for
-- debugging are left out.
pub mod OverUsb
pub mod Session
use chdkptp_astro.Base.{
  ℕ, List, [], Bool, true, false, ◌∷◌, ◌==◌, if◌then◌else◌, Option, none, some, length,
}
use chdkptp_astro.Ptp.State.{Params, Outcome, done, failed, overrun, diverged, M, ◌>>=◌, pure}
use chdkptp_astro.Ptp.Container.{Container, cleared}
use chdkptp_astro.Ptp.Transaction.{Link, transaction, dp_nodata, dp_senddata, dp_getdata}
use chdkptp_astro.Ptp.Pack.Arrays.{unpack_oh, unpack_sids}
use chdkptp_astro.Ptp.Pack.DeviceInfo.{DeviceInfo, unpack_di}
use chdkptp_astro.Ptp.Pack.StorageInfo.{StorageInfo, unpack_si}
use chdkptp_astro.Ptp.Pack.ObjectInfo.{Calendar, Fixed, ObjectInfo, unpack_oi, pack_oi}
use chdkptp_astro.Ptp.Pack.Property.{
  Value, PropDesc, unpack_dpv, unpack_dpd, pack_dpv_text, pack_dpv_number,
}

-- A request of `code` with no parameter, one and so on.
abbrev pub request0 : ℕ → Container
request0 code = record cleared { code = code }

abbrev pub request1 : ℕ → ℕ → Container
request1 code a = record cleared { code = code; param1 = a; nparam = 1 }

abbrev pub request2 : ℕ → ℕ → ℕ → Container
request2 code a b = record cleared { code = code; param1 = a; param2 = b; nparam = 2 }

abbrev pub request3 : ℕ → ℕ → ℕ → ℕ → Container
request3 code a b c = record cleared { code = code; param1 = a; param2 = b; param3 = c; nparam = 3 }

abbrev pub request4 : ℕ → ℕ → ℕ → ℕ → ℕ → Container
request4 code a b c d = record cleared {
  code = code;
  param1 = a;
  param2 = b;
  param3 = c;
  param4 = d;
  nparam = 4;
}

-- A result that was read beyond the data is no result.
pub defined : {D A : Type 0} → Option A → M D A
defined none = λ s. overrun
defined (some a) = pure a

-- What an unpacking function makes of the data; the data of a transaction without any is NULL.
pub unpack_with : {D A : Type 0} → (ℕ → List ℕ → Option A) → Container × Option (List ℕ) → M D A
unpack_with f (reply, none) = λ s. overrun
unpack_with f (reply, some bytes) = λ s. defined (f s.byteorder bytes) s

-- The response, of a transaction that receives no data or whose data is not looked at.
abbrev pub reply_of : {D : Type 0} → Container × Option (List ℕ) → M D Container
reply_of r = pure r.0

-- `*data`, which stays NULL if none was received.
abbrev pub data_of : {D : Type 0} → Container × Option (List ℕ) → M D (Option (List ℕ))
data_of r = pure r.1

-- An assignment that the code makes whatever the result is.
pub then_always : {D A : Type 0} → (Params D → Params D) → Outcome D A → Outcome D A
then_always f (done a s) = done a (f s)
then_always f (failed c s) = failed c (f s)
then_always f overrun = overrun
then_always f diverged = diverged

module _ {D : Type 0} (link : Link D) where
  unfoldable pub getdeviceinfo : M D DeviceInfo
  getdeviceinfo = transaction link (request0 0x1001) dp_getdata [] >>= unpack_with unpack_di

  -- The ids of the connection are 0 during the transaction; afterwards the session has its id, also
  -- when the camera refused.
  unfoldable pub opensession : ℕ → M D Container
  opensession session s =
      then_always (λ t. record t { session_id = session })
        ((transaction link (request1 0x1002 session) dp_nodata [] >>= reply_of)
          (record s { session_id = 0; transaction_id = 0 }))

  unfoldable pub closesession : M D Container
  closesession = transaction link (request0 0x1003) dp_nodata [] >>= reply_of

  unfoldable pub getstorageids : M D (List ℕ)
  getstorageids = transaction link (request0 0x1004) dp_getdata [] >>= unpack_with unpack_sids

  unfoldable pub getstorageinfo : ℕ → M D StorageInfo
  getstorageinfo storageid =
      transaction link (request1 0x1005 storageid) dp_getdata [] >>= unpack_with unpack_si

  unfoldable pub getobjecthandles : ℕ → ℕ → ℕ → M D (List ℕ)
  getobjecthandles storage objectformatcode association =
      transaction link (request3 0x1007 storage objectformatcode association) dp_getdata []
      >>= unpack_with unpack_oh

  unfoldable pub getobjectinfo : Calendar → ℕ → M D ObjectInfo
  getobjectinfo calendar handle =
      transaction link (request1 0x1008 handle) dp_getdata [] >>= unpack_with (unpack_oi calendar)

  unfoldable pub getobject : ℕ → M D (Option (List ℕ))
  getobject handle = transaction link (request1 0x1009 handle) dp_getdata [] >>= data_of

  unfoldable pub getthumb : ℕ → M D (Option (List ℕ))
  getthumb handle = transaction link (request1 0x100a handle) dp_getdata [] >>= data_of

  unfoldable pub deleteobject : ℕ → ℕ → M D Container
  deleteobject handle ofc = transaction link (request2 0x100b handle ofc) dp_nodata [] >>= reply_of

  -- The response has the store, the parent and the handle in its parameters.
  unfoldable pub sendobjectinfo : ℕ → ℕ → Fixed → List ℕ → M D Container
  sendobjectinfo store parent fixed filename s =
      (defined (pack_oi s.byteorder fixed filename) >>= λ oi.
      transaction link (request2 0x100c store parent) dp_senddata oi.0 >>= reply_of)
        s

  unfoldable pub sendobject : List ℕ → M D Container
  sendobject object = transaction link (request0 0x100d) dp_senddata object >>= reply_of

  unfoldable pub initiatecapture : ℕ → ℕ → M D Container
  initiatecapture storageid ofc =
      transaction link (request2 0x100e storageid ofc) dp_nodata [] >>= reply_of

  unfoldable pub getdevicepropdesc : ℕ → M D PropDesc
  getdevicepropdesc propcode =
      transaction link (request1 0x1014 propcode) dp_getdata [] >>= unpack_with unpack_dpd

  unfoldable pub getdevicepropvalue : ℕ → ℕ → M D (Option Value)
  getdevicepropvalue propcode datatype =
      transaction link (request1 0x1015 propcode) dp_getdata []
      >>= unpack_with λ order bytes. unpack_dpv order bytes datatype

  -- `ptp_pack_DPV` for a number and for a string.
  unfoldable pub setdeviceprop_number : ℕ → ℕ → ℕ → M D Container
  setdeviceprop_number propcode x datatype s =
      (transaction link (request1 0x1016 propcode) dp_senddata
            (pack_dpv_number s.byteorder x datatype)
          >>= reply_of)
        s

  unfoldable pub setdeviceprop_text : ℕ → List ℕ → M D Container
  setdeviceprop_text propcode string s =
      (defined (pack_dpv_text s.byteorder string) >>= λ bytes.
      transaction link (request1 0x1016 propcode) dp_senddata bytes >>= reply_of)
        s

-- `ptp_operation_issupported`, over the supported operations of the device.
unfoldable pub operation_issupported : List ℕ → ℕ → Bool
operation_issupported [] operation = false
operation_issupported (o ∷ os) operation =
    let rest = operation_issupported os operation in if o == operation then true else rest
