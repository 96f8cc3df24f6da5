-- ===== src/Ptp/Tests/Sending.antt =====
-- Data phases out, over a device that keeps what it is sent, and packets in over TCP.
use chdkptp_astro.Base.{ℕ, ◌+◌, refl, List, [], ◌∷◌, ◌++◌, arith}
use chdkptp_astro.Ptp.Codes.{rc_ok, bulk_hdr_len, container_data}
use chdkptp_astro.Ptp.State.{broken, Port, Params, Returns}
use chdkptp_astro.Ptp.Endian.{bytes32, htod32a}
use chdkptp_astro.Ptp.Container.{Container, cleared}
use chdkptp_astro.Ptp.Usb.{header, usb_senddata}
use chdkptp_astro.Ptp.Usb.Response.{response}
use chdkptp_astro.Ptp.Usb.GetData.{Payload}
use chdkptp_astro.Ptp.Usb.SendData.{Records, Sent, usb_senddata-Sent}
use chdkptp_astro.Ptp.Tcp.{type_start_data, type_end_data, tcp_getdata}
use chdkptp_astro.Ptp.Tcp.Packet.{packet}
use chdkptp_astro.Ptp.Tcp.GetData.{wire_chunks, joined, tcp_getdata-Payload}
use chdkptp_astro.Ptp.Transaction.{usb_link}
use chdkptp_astro.Ptp.Operations.{opensession}
use chdkptp_astro.Ptp.Operations.Session.{Opened, opensession-Opened}
use chdkptp_astro.Ptp.Tests.Cable.{cable, cable-Delivers}
use chdkptp_astro.Ptp.Tests.Session.{empty_buffer, empty_buffer-IsBuffer, opened}

abbrev recorder : Port (List ℕ)
recorder = record { read_func = λ n d. (broken, d); write_func = λ bs d. (rc_ok, d ++ bs) }

recorder-Records : Records recorder (λ d. d)
recorder-Records = record { accepts = λ bs d. refl; appends = λ bs d. refl }

abbrev recording : Params (List ℕ)
recording = record {
  byteorder = 0x0f;
  transaction_id = 4;
  session_id = 1;
  max_packet_size = 512;
  pkt_buf = empty_buffer;
  device = 9 ∷ [];
}

abbrev write_memory : Container
write_memory = record cleared { code = 0x9999; transaction_id = 3; param1 = 2; nparam = 1 }

usb_senddata-Sent_example :
    Returns
      (Sent recorder
        (λ d. d)
        recorder-Records
        (header 0x0f (bulk_hdr_len + 2) container_data 0x9999 3 ++ 8 ∷ 7 ∷ [])
        recording)
      (usb_senddata recorder write_memory (8 ∷ 7 ∷ []) recording)
usb_senddata-Sent_example =
    usb_senddata-Sent recorder (λ d. d) recorder-Records write_memory (8 ∷ 7 ∷ []) recording

-- Two packets of three bytes and of one.
abbrev tcp_stream : List ℕ
tcp_stream =
    packet 0x0f 20 type_start_data (htod32a 0x0f 4 ++ (bytes32 4 ++ bytes32 0))
    ++ (wire_chunks 0x0f (htod32a 0x0f 4) ((1 ∷ 2 ∷ 3 ∷ []) ∷ (4 ∷ []) ∷ [])
        ++ (packet 0x0f 12 type_end_data (htod32a 0x0f 4) ++ 5 ∷ []))

tcp_getdata-Payload_example :
    Returns
      (Payload cable
        (λ d. d.stream)
        cable-Delivers
        (1 ∷ 2 ∷ 3 ∷ 4 ∷ [])
        (5 ∷ [])
        (opened tcp_stream))
      (tcp_getdata cable 2 64 (opened tcp_stream))
unfolding wire_chunks joined
tcp_getdata-Payload_example =
    tcp_getdata-Payload cable (λ d. d.stream) cable-Delivers 2 64 4 (1 ∷ 2 ∷ 3 ∷ []) ((4 ∷ []) ∷ [])
      (5 ∷ []) (opened tcp_stream) empty_buffer-IsBuffer refl (omega arith) (omega arith)
      (omega arith) (omega arith)

opensession-Opened_example :
    Returns
      (Opened cable (λ d. d.stream) cable-Delivers 7 [] (opened (response 0x0f rc_ok 0 [] ++ [])))
      (opensession (usb_link cable 64) 7 (opened (response 0x0f rc_ok 0 [] ++ [])))
opensession-Opened_example =
    opensession-Opened cable (λ d. d.stream) cable-Delivers 64 7 0 [] []
      (opened (response 0x0f rc_ok 0 [] ++ [])) empty_buffer-IsBuffer
      (record { params_fit = omega arith; accepted = refl; reply_bytes = refl }) (omega arith)
      (omega arith) tt (omega arith)
