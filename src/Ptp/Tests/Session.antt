-- ===== src/Ptp/Tests/Session.antt =====
-- A whole transaction: a camera that replies with three bytes of data and one parameter.
use chdkptp_astro.Base.{ℕ, List, [], ◌∷◌, ◌++◌, refl, replicate, arith}
use chdkptp_astro.Ptp.Codes.{rc_ok, container_data}
use chdkptp_astro.Ptp.State.{PacketBuffer, Params, Returns}
use chdkptp_astro.Ptp.Transport.Buffer.{IsBuffer}
use chdkptp_astro.Ptp.Container.{Container, cleared}
use chdkptp_astro.Ptp.Usb.{header, usb_getdata, usb_getresp}
use chdkptp_astro.Ptp.Usb.GetData.{Payload, usb_getdata-Payload}
use chdkptp_astro.Ptp.Usb.Response.{response}
use chdkptp_astro.Ptp.Usb.GetResp.{Responded, usb_getresp-Responded}
use chdkptp_astro.Ptp.Tests.Cable.{Cable, cable, cable-Delivers}

abbrev pub empty_buffer : PacketBuffer
empty_buffer = record { bytes = replicate 512 0; pos = 0; len = 0 }

pub empty_buffer-IsBuffer : IsBuffer empty_buffer
empty_buffer-IsBuffer = record { full_size = refl; within = omega arith; rewound = λ z. refl }

abbrev pub opened : List ℕ → Params Cable
opened bytes = record {
  byteorder = 0x0f;
  transaction_id = 4;
  session_id = 1;
  max_packet_size = 512;
  pkt_buf = empty_buffer;
  device = record { stream = bytes; sent = [] };
}

-- PTP_OC_CHDK with one parameter.
abbrev version_request : Container
version_request = record cleared { code = 0x9999; param1 = 3; nparam = 1 }

abbrev payload : List ℕ
payload = 10 ∷ 20 ∷ 30 ∷ []

abbrev answered : List ℕ
answered = response 0x0f rc_ok 4 (77 ∷ []) ++ []

abbrev reply : List ℕ
reply = header 0x0f 15 container_data 0x9999 4 ++ (payload ++ answered)

usb_getdata-Payload_example :
    Returns
      (Payload cable (λ d. d.stream) cable-Delivers payload answered (opened reply))
      (usb_getdata cable 64 version_request (opened reply))
usb_getdata-Payload_example =
    usb_getdata-Payload cable (λ d. d.stream) cable-Delivers 64 version_request 4 payload answered
      (opened reply) empty_buffer-IsBuffer refl (omega arith) (omega arith) (omega arith)
      (omega arith)

usb_getresp-Responded_example :
    Returns
      (Responded cable (λ d. d.stream) cable-Delivers 4 (77 ∷ []) [] (opened answered))
      (usb_getresp cable 64 version_request (opened answered))
usb_getresp-Responded_example =
    usb_getresp-Responded cable (λ d. d.stream) cable-Delivers 64 version_request 4 (77 ∷ []) []
      (opened answered) empty_buffer-IsBuffer refl (omega arith) (omega arith) (omega arith)
      (omega arith)
