-- ===== src/Ptp/Codes.antt =====
-- Return codes, sizes and container types of ptp.h.
use chdkptp_astro.Base.{ℕ, ◌+◌, ◌-◌, ◌*◌}

abbrev pub rc_ok : ℕ
rc_ok = 0x2001

abbrev pub error_io : ℕ
error_io = 0x02ff

abbrev pub error_data_expected : ℕ
error_data_expected = 0x02fe

abbrev pub error_resp_expected : ℕ
error_resp_expected = 0x02fd

abbrev pub error_badparam : ℕ
error_badparam = 0x02fc

-- PTP_USB_BULK_HS_MAX_PACKET_LEN, PTP_USB_BULK_HDR_LEN and the sizes made of them.
abbrev pub bulk_max_packet_len : ℕ
bulk_max_packet_len = 512

abbrev pub packet_buffer_size : ℕ
packet_buffer_size = bulk_max_packet_len

abbrev pub bulk_hdr_len : ℕ
bulk_hdr_len = 2 * 4 + 2 * 2

abbrev pub bulk_payload_len : ℕ
bulk_payload_len = bulk_max_packet_len - bulk_hdr_len

abbrev pub bulk_req_len : ℕ
bulk_req_len = bulk_hdr_len + 5 * 4

-- PTP_USB_CONTAINER_COMMAND, _DATA and _RESPONSE.
abbrev pub container_command : ℕ
container_command = 1

abbrev pub container_data : ℕ
container_data = 2

abbrev pub container_response : ℕ
container_response = 3
