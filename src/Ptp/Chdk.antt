-- ===== src/Ptp/Chdk.antt =====
-- The operations of CHDK (ptp.c, `ptp_chdk_…`), all of them the vendor operation PTP_OC_CHDK with
-- the number of a command (chdk_headers/core/ptp.h) as the first parameter. A C string is the list of
-- its characters without the terminator. `int` and `unsigned` parameters are their 32 bits.
pub mod Messages
use chdkptp_astro.Base.{
  ℕ, ◌+◌, ◌*◌, ◌%◌, ◌/◌, ◌^◌, bit_or, List, [], ◌∷◌, ◌++◌, Bool, true, false, ltb, ◌==◌,
  if◌then◌else◌, Option, none, some, length, take,
}
use chdkptp_astro.Ptp.Codes.{error_io, error_badparam}
use chdkptp_astro.Ptp.State.{Params, Outcome, done, failed, overrun, diverged, M, ◌>>=◌, pure, fail}
use chdkptp_astro.Ptp.Endian.{bytes32}
use chdkptp_astro.Ptp.Container.{Container}
use chdkptp_astro.Ptp.Transaction.{
  Link, transaction, getdata_transaction, dp_nodata, dp_senddata, dp_getdata,
}
use chdkptp_astro.Ptp.Operations.{request1, request2, request3, request4, reply_of, data_of}

abbrev pub oc_chdk : ℕ
oc_chdk = 0x9999

-- `ptp_chdk_script_msg`; `size` is the length of the data.
pub record ScriptMsg : Type 0 where
  pub script_id : ℕ
  pub type : ℕ
  pub subtype : ℕ
  pub bytes : List ℕ

-- `ptp_chdk_rc_chunk`.
pub record RcChunk : Type 0 where
  pub size : ℕ
  pub last : Bool
  pub offset : ℕ
  pub bytes : Option (List ℕ)

-- The first two parameters of a response, and the first.
abbrev pub two_params : {D : Type 0} → Container × Option (List ℕ) → M D (ℕ × ℕ)
two_params r = pure (r.0.param1, r.0.param2)

abbrev pub one_param : {D : Type 0} → Container × Option (List ℕ) → M D ℕ
one_param r = pure r.0.param1

-- `memcpy((*msg)->data,data,(*msg)->size)`, with the size that the response gives.
pub script_msg : {D : Type 0} → Container × Option (List ℕ) → M D ScriptMsg
script_msg (reply, none) = λ s. overrun
script_msg (reply, some received) =
    if ltb (length received) reply.param4
    then (λ s. overrun)
    else pure (record {
      script_id = reply.param3;
      type = reply.param1;
      subtype = reply.param2;
      bytes = take reply.param4 received;
    })

abbrev pub rc_chunk : {D : Type 0} → Container × Option (List ℕ) → M D RcChunk
rc_chunk r =
    pure (record { size = r.0.param1; last = r.0.param2 == 0; offset = r.0.param3; bytes = r.1 })

-- The data phase of an upload: the length of the name as it stands in memory, the name, the file.
abbrev pub upload_bytes : List ℕ → List ℕ → List ℕ
upload_bytes remote_fn file = bytes32 (length remote_fn) ++ (remote_fn ++ file)

-- An array of `int` in memory.
pub ints : List ℕ → List ℕ
ints [] = []
ints (x ∷ xs) = bytes32 x ++ ints xs

module _ {D : Type 0} (link : Link D) where
  unfoldable pub get_memory : ℕ → ℕ → ℕ → M D (Option (List ℕ))
  get_memory start num flags =
      transaction link (request4 oc_chdk 1 start num flags) dp_getdata [] >>= data_of

  unfoldable pub set_memory_long : ℕ → ℕ → M D Container
  set_memory_long addr val =
      transaction link (request3 oc_chdk 2 addr 4) dp_senddata (bytes32 val) >>= reply_of

  -- The local file by its content, or `none` if it cannot be opened.
  unfoldable pub upload : Option (List ℕ) → List ℕ → M D Container
  upload none remote_fn = fail error_io
  upload (some file) remote_fn =
      transaction link (request1 oc_chdk 5) dp_senddata (upload_bytes remote_fn file) >>= reply_of

  -- `write` is `gd_to_file` on the local file, which is part of the state. Where the file cannot be
  -- opened, nothing is sent.
  unfoldable pub download : Bool → (List ℕ → M D (Unit {0})) → List ℕ → M D Container
  download opened write remote_fn =
      if opened
      then (transaction link (request2 oc_chdk 4 0) dp_senddata remote_fn >>= λ _.
          getdata_transaction link (request1 oc_chdk 6) write 0)
      else fail error_io

  -- `*isready` and `*imgnum`.
  unfoldable pub rcisready : M D (ℕ × ℕ)
  rcisready = transaction link (request1 oc_chdk 13) dp_nodata [] >>= two_params

  unfoldable pub rcgetchunk : ℕ → M D RcChunk
  rcgetchunk fmt = transaction link (request2 oc_chdk 14 fmt) dp_getdata [] >>= rc_chunk

  -- `*script_id` and `*status`; PTP_CHDK_SL_LUA is 0.
  unfoldable pub exec_lua : List ℕ → ℕ → M D (ℕ × ℕ)
  exec_lua script flags =
      transaction link (request2 oc_chdk 7 (bit_or 0 flags)) dp_senddata (script ++ 0 ∷ [])
      >>= two_params

  -- `*major` and `*minor`.
  unfoldable pub get_version : M D (ℕ × ℕ)
  get_version = transaction link (request1 oc_chdk 0) dp_nodata [] >>= two_params

  unfoldable pub get_script_status : M D ℕ
  get_script_status = transaction link (request1 oc_chdk 8) dp_nodata [] >>= one_param

  unfoldable pub get_script_support : M D ℕ
  get_script_support = transaction link (request1 oc_chdk 9) dp_nodata [] >>= one_param

  -- An empty message is refused, because the camera would hang.
  unfoldable pub write_script_msg : List ℕ → ℕ → M D ℕ
  write_script_msg bytes target_script_id =
      if length bytes == 0
      then fail error_badparam
      else transaction link (request2 oc_chdk 11 target_script_id) dp_senddata bytes >>= one_param

  unfoldable pub read_script_msg : M D ScriptMsg
  read_script_msg = transaction link (request1 oc_chdk 10) dp_getdata [] >>= script_msg

  -- `*data` and `*data_size`.
  unfoldable pub get_live_data : ℕ → M D (Option (List ℕ) × ℕ)
  get_live_data flags =
      transaction link (request2 oc_chdk 12 flags) dp_getdata [] >>= λ r. pure (r.1, r.0.param1)

  -- The arguments are `int`s as they stand in memory.
  unfoldable pub call_function : List ℕ → M D ℕ
  call_function args = transaction link (request1 oc_chdk 3) dp_senddata (ints args) >>= one_param
