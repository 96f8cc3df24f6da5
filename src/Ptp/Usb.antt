-- ===== src/Ptp/Usb.antt =====
-- PTP over USB bulk pipes (ptp.c): `ptp_usb_sendreq`, `ptp_usb_senddata`, `ptp_usb_read_control`,
-- `ptp_usb_getdata` and `ptp_usb_getresp`. Memory for a reply is taken to be there.
pub mod Header
pub mod GetData
pub mod Response
pub mod GetResp
pub mod Refusal
pub mod SendData
use chdkptp_astro.Base.{
  ℕ, zero, suc, ◌+◌, ◌-◌, ◌*◌, ◌%◌, ◌/◌, ◌^◌, bit_and, List, [], ◌++◌, Bool, true, false, not, ltb,
  ◌==◌, ◌&&◌, Option, none, some, if◌then◌else◌, length, take, drop,
}
use chdkptp_astro.Ptp.Codes.{
  rc_ok, error_badparam, error_data_expected, error_resp_expected, bulk_hdr_len, bulk_payload_len,
  bulk_req_len, container_command, container_data, container_response,
}
use chdkptp_astro.Ptp.State.{
  Port, Params, Outcome, done, failed, overrun, diverged, M, ◌>>=◌, pure, fail,
}
use chdkptp_astro.Ptp.Endian.{htod16a, htod32a, htod32}
use chdkptp_astro.Ptp.Container.{Container, send, field16, field32}
use chdkptp_astro.Ptp.Transport.{control_read_buffered, usb_read_data}

-- The twelve bytes of a bulk container in front of its payload.
abbrev pub header : ℕ → ℕ → ℕ → ℕ → ℕ → List ℕ
header order len type code trans_id =
    htod32a order len ++ (htod16a order type ++ (htod16a order code ++ htod32a order trans_id))

-- The whole request container, all five parameters.
abbrev pub request : ℕ → ℕ → Container → List ℕ
request order len req =
    header order len container_command req.code req.transaction_id
    ++ (htod32a order req.param1
        ++ (htod32a order req.param2
            ++ (htod32a order req.param3
                ++ (htod32a order req.param4 ++ htod32a order req.param5))))

-- `PTP_USB_BULK_REQ_LEN-(sizeof(uint32_t)*(5-req->Nparam))`.
abbrev pub request_len : Container → ℕ
request_len req = bulk_req_len + 4 * req.nparam - 4 * 5

module _ {D : Type 0} (port : Port D) where
  -- Bytes behind the fifth parameter were never set: C promises nothing about them.
  unfoldable pub usb_sendreq : Container → M D (Unit {0})
  usb_sendreq req s =
      if ltb 5 req.nparam
      then overrun
      else send port (take (request_len req) (request s.byteorder (request_len req) req)) s

  -- The packet of no bytes that ends a transfer of whole packets; its result is not looked at.
  pub end_transfer : List ℕ → ℕ → M D (Unit {0})
  end_transfer rest len s =
      if bit_and (htod32 s.byteorder (len % 2 ^ 32)) ((s.max_packet_size + 2 ^ 32 - 1) % 2 ^ 32)
        == 0
      then done tt (record s { device = (port.write_func [] s.device).1 })
      else done tt s

  -- What does not fit in the first packet.
  pub send_rest : List ℕ → M D (Unit {0})
  send_rest bytes s =
      if ltb bulk_payload_len (length bytes)
      then send port (drop bulk_payload_len bytes) s
      else done tt s

  -- The container goes out with the first 500 bytes of the data in one write.
  unfoldable pub usb_senddata : Container → List ℕ → M D (Unit {0})
  usb_senddata ptp bytes s =
      let len = bulk_hdr_len + length bytes in
      (send port (
            header s.byteorder len container_data ptp.code ptp.transaction_id
            ++ take bulk_payload_len bytes)
          >>= λ _. send_rest bytes >>= λ _. end_transfer bytes len)
        s

  -- The parameters of a response. `PTPUSBBulkContainer` has room for 500 bytes behind the header. A
  -- size from 2 ^ 31 on is negative as the `int` that it becomes: C promises nothing then.
  pub read_params : ℕ → ℕ → List ℕ → M D (List ℕ)
  read_params fuel len hdr =
      if ltb (len - bulk_hdr_len) (2 ^ 31)
      then (control_read_buffered port fuel (len - bulk_hdr_len) >>= λ rest s.
          if ltb bulk_payload_len (length rest) then overrun else done (hdr ++ rest) s)
      else λ s. overrun

  -- `PTP_USB_CONTAINER_DATA` leaves its payload to be read; anything else but a response is refused.
  pub read_by_type : ℕ → List ℕ → M D (List ℕ)
  read_by_type fuel hdr s =
      let len = field32 s.byteorder hdr 0 in
      let type = field16 s.byteorder hdr 4 in
      if type == container_response
      then (if ltb bulk_hdr_len len then read_params fuel len hdr s else done hdr s)
      else if type == container_data
      then done hdr s
      else failed error_badparam s

  unfoldable pub usb_read_control : ℕ → M D (List ℕ)
  usb_read_control fuel = control_read_buffered port fuel bulk_hdr_len >>= read_by_type fuel

  -- The header of the data phase of the operation `code`, checked, and the length of the payload.
  -- Another code in it is the result of the function; if that code is PTP_RC_OK, the caller goes on
  -- with no data, `none`.
  pub check_data_header : ℕ → List ℕ → M D (Option ℕ)
  check_data_header code pkt s =
      let got_code = field16 s.byteorder pkt 6 in
      if not (field16 s.byteorder pkt 4 == container_data)
      then failed error_data_expected s
      else if not (got_code == code)
      then (if got_code == rc_ok then done none s else failed got_code s)
      else done (some ((field32 s.byteorder pkt 0 + 2 ^ 32 - bulk_hdr_len) % 2 ^ 32)) s

  pub read_payload : ℕ → Option ℕ → M D (Option (List ℕ))
  read_payload fuel none s = done none s
  read_payload fuel (some total) s =
      (usb_read_data port fuel total >>= λ bytes. pure (some bytes)) s

  -- `ptp_usb_getdata` without a handler: `gdparams->ret_data`.
  unfoldable pub usb_getdata : ℕ → Container → M D (Option (List ℕ))
  usb_getdata fuel ptp = usb_read_control fuel >>= check_data_header ptp.code >>= read_payload fuel

  -- `while(to_read > 0)`: each block goes to the handler, which may change what is behind
  -- `params->data` and may refuse.
  pub read_blocks : (List ℕ → M D (Unit {0})) → ℕ → ℕ → ℕ → M D (Unit {0})
  read_blocks handler zero block_size to_read = λ s. if to_read == 0 then done tt s else diverged
  read_blocks handler (suc fuel) block_size to_read =
      let read_size = if ltb block_size to_read then block_size else to_read in
      let again = λ (s : Params D). read_blocks handler fuel block_size (to_read - read_size) s in
      if to_read == 0
      then pure tt
      else (usb_read_data port (suc read_size) read_size >>= handler >>= λ _. again)

  -- The default of 2 MiB, and at least 1024.
  pub choose_block_size : ℕ → ℕ
  choose_block_size size =
      if size == 0 then 1024 * 1024 * 2 else if ltb size 1024 then 1024 else size

  pub hand_over : (List ℕ → M D (Unit {0})) → ℕ → Option ℕ → M D (Unit {0})
  hand_over handler block_size none = pure tt
  hand_over handler block_size (some total) =
      read_blocks handler total (choose_block_size block_size) total

  -- `ptp_usb_getdata` with a handler.
  unfoldable pub usb_getdata_handler :
      ℕ → Container → (List ℕ → M D (Unit {0})) → ℕ → M D (Unit {0})
  usb_getdata_handler fuel ptp handler block_size =
      usb_read_control fuel >>= check_data_header ptp.code >>= hand_over handler block_size

  -- The response in `resp`, whose code is still that of the operation.
  pub take_response : Container → List ℕ → M D Container
  take_response resp pkt s =
      let order = s.byteorder in
      let code = field16 order pkt 6 in
      if not (field16 order pkt 4 == container_response)
      then failed error_resp_expected s
      else if not (code == resp.code) && not (code == rc_ok)
      then failed code s
      else done
          (record {
            code = code;
            session_id = s.session_id;
            transaction_id = field32 order pkt 8;
            param1 = field32 order pkt 12;
            param2 = field32 order pkt 16;
            param3 = field32 order pkt 20;
            param4 = field32 order pkt 24;
            param5 = field32 order pkt 28;
            nparam = (field32 order pkt 0 + 2 ^ 32 - 12) % 2 ^ 32 / 4 % 256;
          })
          s

  unfoldable pub usb_getresp : ℕ → Container → M D Container
  usb_getresp fuel resp = usb_read_control fuel >>= take_response resp
