-- ===== src/Ptp/Tcp.antt =====
-- PTP over TCP (ptp.c): `ptp_tcp_read_control`, `ptp_tcp_sendreq`, `ptp_tcp_senddata`,
-- `ptp_tcp_getdata` and `ptp_tcp_getresp`. A packet has its length and type in 32 bits each in front;
-- `PTPIPContainer` has room for 256 bytes behind them.
pub mod Packet
pub mod GetData
pub mod SendData
use chdkptp_astro.Base.{
  ℕ, zero, suc, ◌+◌, ◌-◌, ◌*◌, ◌%◌, ◌/◌, ◌^◌, List, [], ◌∷◌, ◌++◌, Bool, true, false, not, ltb,
  ◌==◌, ◌&&◌, ◌||◌, Option, none, some, if◌then◌else◌, length, take, get_or,
}
use chdkptp_astro.Ptp.Codes.{rc_ok, error_badparam, error_data_expected, error_resp_expected}
use chdkptp_astro.Ptp.State.{
  Port, Params, Outcome, done, failed, overrun, diverged, M, ◌>>=◌, pure, fail,
}
use chdkptp_astro.Ptp.Endian.{htod16a, htod32a, bytes32}
use chdkptp_astro.Ptp.Container.{Container, send, field16, field32}
use chdkptp_astro.Ptp.Transport.{control_read_buffered, tcp_read_data}
use chdkptp_astro.Ptp.Usb.{choose_block_size}

-- PTPIP_HEADER_LEN and PTPIP_CMD_PAYLOAD_LEN.
abbrev pub ptpip_header_len : ℕ
ptpip_header_len = 8

abbrev pub ptpip_payload_len : ℕ
ptpip_payload_len = 256

-- PTPIP_TYPE_INIT_CMD_ACK and so on.
abbrev pub type_init_cmd_ack : ℕ
type_init_cmd_ack = 0x2

abbrev pub type_init_fail : ℕ
type_init_fail = 0x5

abbrev pub type_req : ℕ
type_req = 0x6

abbrev pub type_resp : ℕ
type_resp = 0x7

abbrev pub type_start_data : ℕ
type_start_data = 0x9

abbrev pub type_data : ℕ
type_data = 0xa

abbrev pub type_end_data : ℕ
type_end_data = 0xc

-- `sizeof(pkt.req) + 8 - 4*(5-ptp->Nparam)`.
abbrev pub tcp_request_len : Container → ℕ
tcp_request_len ptp = 30 + 8 + 4 * ptp.nparam - 4 * 5

abbrev pub tcp_request : ℕ → ℕ → Container → List ℕ
tcp_request order len ptp =
    htod32a order len
    ++ (htod32a order type_req
        ++ (htod32a order 0
            ++ (htod16a order ptp.code
                ++ (htod32a order ptp.transaction_id
                    ++ (htod32a order ptp.param1
                        ++ (htod32a order ptp.param2
                            ++ (htod32a order ptp.param3
                                ++ (htod32a order ptp.param4 ++ htod32a order ptp.param5))))))))

-- The packets around the data; the 64 bit length is in the order of the host, as is the length of
-- the last packet, and the packet in front of the data has no transaction id.
abbrev pub start_packet : ℕ → Container → ℕ → List ℕ
start_packet order ptp size =
    htod32a order 20
    ++ (htod32a order type_start_data
        ++ (htod32a order ptp.transaction_id ++ (bytes32 size ++ bytes32 0)))

abbrev pub data_packet : ℕ → ℕ → List ℕ
data_packet order size =
    htod32a order ((12 + size) % 2 ^ 32) ++ (htod32a order type_data ++ bytes32 0)

abbrev pub end_packet : ℕ → Container → List ℕ
end_packet order ptp =
    bytes32 12 ++ (htod32a order type_end_data ++ htod32a order ptp.transaction_id)

-- A 64 bit number in the order of the host, which is little-endian.
abbrev pub host64 : List ℕ → ℕ → ℕ
host64 pkt off =
    get_or pkt off 0
    + 2 ^ 8 * get_or pkt (off + 1) 0
    + 2 ^ 16 * get_or pkt (off + 2) 0
    + 2 ^ 24 * get_or pkt (off + 3) 0
    + 2 ^ 32 * get_or pkt (off + 4) 0
    + 2 ^ 40 * get_or pkt (off + 5) 0
    + 2 ^ 48 * get_or pkt (off + 6) 0
    + 2 ^ 56 * get_or pkt (off + 7) 0

module _ {D : Type 0} (port : Port D) where
  -- More bytes of a packet behind its header. A size from 2 ^ 31 on is negative as the `int` that it
  -- becomes: C promises nothing then.
  pub read_more : ℕ → ℕ → List ℕ → M D (List ℕ)
  read_more fuel size hdr =
      if ltb size (2 ^ 31)
      then (control_read_buffered port fuel size >>= λ rest s.
          if ltb ptpip_payload_len (length rest) then overrun else done (hdr ++ rest) s)
      else λ s. overrun

  pub tcp_read_by_type : ℕ → List ℕ → M D (List ℕ)
  tcp_read_by_type fuel hdr s =
      let len = field32 s.byteorder hdr 0 in
      let type = field32 s.byteorder hdr 4 in
      if type == type_init_cmd_ack
        || type == type_init_fail
        || type == type_resp
        || type == type_start_data
      then (if ltb ptpip_header_len len
          then read_more fuel (len - ptpip_header_len) hdr s
          else done hdr s)
      else if type == type_data || type == type_end_data
      then read_more fuel 4 hdr s
      else failed error_badparam s

  unfoldable pub tcp_read_control : ℕ → M D (List ℕ)
  tcp_read_control fuel = control_read_buffered port fuel ptpip_header_len >>= tcp_read_by_type fuel

  -- Bytes behind the fifth parameter were never set: C promises nothing about them.
  unfoldable pub tcp_sendreq : Container → M D (Unit {0})
  tcp_sendreq ptp s =
      if ltb 5 ptp.nparam
      then overrun
      else send port
          (take (tcp_request_len ptp) (tcp_request s.byteorder (tcp_request_len ptp) ptp)) s

  -- A write whose result is overwritten by that of the next one.
  pub put : List ℕ → M D (Unit {0})
  put bytes s = done tt (record s { device = (port.write_func bytes s.device).1 })

  -- Only the result of the last write is returned.
  unfoldable pub tcp_senddata : Container → List ℕ → M D (Unit {0})
  tcp_senddata ptp bytes s =
      (put (start_packet s.byteorder ptp (length bytes)) >>= λ _.
      put (data_packet s.byteorder (length bytes)) >>= λ _.
      put bytes >>= λ _. send port (end_packet s.byteorder ptp))
        s

  pub tcp_take_response : Container → List ℕ → M D Container
  tcp_take_response resp pkt s =
      let order = s.byteorder in
      let code = field16 order pkt 8 in
      if not (field16 order pkt 4 == type_resp)
      then failed error_resp_expected s
      else if not (code == resp.code) && not (code == rc_ok)
      then failed code s
      else done
          (record {
            code = code;
            session_id = s.session_id;
            transaction_id = field32 order pkt 10;
            param1 = field32 order pkt 14;
            param2 = field32 order pkt 18;
            param3 = field32 order pkt 22;
            param4 = field32 order pkt 26;
            param5 = field32 order pkt 30;
            nparam = (field32 order pkt 0 + 2 ^ 32 - (8 + 6)) % 2 ^ 32 / 4 % 256;
          })
          s

  unfoldable pub tcp_getresp : ℕ → Container → M D Container
  tcp_getresp fuel resp = tcp_read_control fuel >>= tcp_take_response resp

  -- The packet PTPIP_TYPE_START_DATA, and the length that it announces, which is indeterminate if the
  -- packet is too short for it.
  pub check_start : List ℕ → M D ℕ
  check_start pkt s =
      if not (field32 s.byteorder pkt 4 == type_start_data)
      then failed error_data_expected s
      else if ltb (length pkt) 20
      then overrun
      else done (host64 pkt 12) s

  -- A packet in the data phase: whether it is the last, and how many bytes of data follow it.
  pub check_packet : Bool → List ℕ → M D (Bool × ℕ)
  check_packet got_end pkt s =
      let type = field32 s.byteorder pkt 4 in
      let pkt_len = (field32 s.byteorder pkt 0 + 2 ^ 32 - 12) % 2 ^ 32 in
      if type == type_end_data
      then done (true, pkt_len) s
      else if type == type_data
      then done (got_end, pkt_len) s
      else failed error_data_expected s

  -- `ret=params->read_data_func(params, pkt_len, p)`, to a buffer of `total` bytes.
  pub read_chunk : ℕ → ℕ → List ℕ → Bool × ℕ → M D (Bool × List ℕ)
  read_chunk fuel total dst (got_end, pkt_len) =
      if ltb total (length dst + pkt_len)
      then (λ s. overrun)
      else tcp_read_data port fuel pkt_len >>= λ bytes. pure (got_end, dst ++ bytes)

  -- `do { … } while (total_read < total_len)` without a handler.
  pub read_packets : ℕ → ℕ → ℕ → Bool → List ℕ → M D (Bool × List ℕ)
  read_packets zero fuel total got_end dst = λ s. diverged
  read_packets (suc rounds) fuel total got_end dst =
      tcp_read_control fuel >>= check_packet got_end >>= read_chunk fuel total dst >>= λ r s.
      elim (ltb (length r.1) total) [
        | true ↦ read_packets rounds fuel total r.0 r.1 s
        | false ↦ done r s
      ]

  pub check_end : List ℕ → M D (Unit {0})
  check_end pkt s =
      if field32 s.byteorder pkt 4 == type_end_data then done tt s else failed error_data_expected s

  -- The packet PTPIP_TYPE_END_DATA, if it has not come yet.
  pub read_end : {A : Type 0} → ℕ → Bool × A → M D A
  read_end fuel (got_end, a) =
      if got_end then pure a else (tcp_read_control fuel >>= check_end >>= λ _. pure a)

  -- `ptp_tcp_getdata` without a handler: `gdparams->ret_data`.
  unfoldable pub tcp_getdata : ℕ → ℕ → M D (Option (List ℕ))
  tcp_getdata rounds fuel =
      tcp_read_control fuel
      >>= check_start
      >>= (λ total. read_packets rounds fuel total false [])
      >>= read_end fuel
      >>= λ bytes. pure (some bytes)

  -- A full block goes to the handler.
  pub flush : (List ℕ → M D (Unit {0})) → ℕ → List ℕ → M D (List ℕ)
  flush handler block_size block =
      if length block == block_size then (handler block >>= λ _. pure []) else pure block

  -- `while(pkt_read < pkt_len)`, with `left` bytes of the packet to go.
  pub read_pieces : ℕ → (List ℕ → M D (Unit {0})) → ℕ → ℕ → List ℕ → M D (List ℕ)
  read_pieces zero handler block_size left block = λ s. if left == 0 then done block s else diverged
  read_pieces (suc fuel) handler block_size left block =
      let block_left = block_size - length block in
      let read_size = if ltb block_left left then block_left else left in
      let again =
        λ (b : List ℕ) (s : Params D). read_pieces fuel handler block_size (left - read_size) b s in
      if left == 0
      then pure block
      else (tcp_read_data port (suc read_size) read_size >>= λ bytes.
          flush handler block_size (block ++ bytes) >>= again)

  -- The same loop with a handler, `total_read` bytes in.
  pub handle_packets :
      ℕ → ℕ → (List ℕ → M D (Unit {0})) → ℕ → ℕ → Bool → ℕ → List ℕ → M D (Bool × List ℕ)
  handle_packets zero fuel handler block_size total got_end total_read block = λ s. diverged
  handle_packets (suc rounds) fuel handler block_size total got_end total_read block =
      tcp_read_control fuel >>= check_packet got_end >>= λ p.
      read_pieces p.1 handler block_size p.1 block >>= λ rest s.
      elim (ltb (total_read + p.1) total) [
        | true ↦ handle_packets rounds fuel handler block_size total p.0 (total_read + p.1) rest s
        | false ↦ done (p.0, rest) s
      ]

  -- The last block, if it is not empty.
  pub final_flush : (List ℕ → M D (Unit {0})) → Bool × List ℕ → M D (Bool × Unit {0})
  final_flush handler (got_end, block) =
      if length block == 0 then pure (got_end, tt) else (handler block >>= λ _. pure (got_end, tt))

  -- `ptp_tcp_getdata` with a handler.
  unfoldable pub tcp_getdata_handler : ℕ → ℕ → (List ℕ → M D (Unit {0})) → ℕ → M D (Unit {0})
  tcp_getdata_handler rounds fuel handler block_size =
      tcp_read_control fuel
      >>= check_start
      >>= (λ total.
          handle_packets rounds fuel handler (choose_block_size port block_size) total false 0 [])
      >>= final_flush handler
      >>= read_end fuel
