-- ===== src/Ptp/Tests/Operations.antt =====
-- Operations over a cable that replies as a camera does.
use chdkptp_astro.Base.{ℕ, ◌+◌, refl, List, [], ◌∷◌, ◌++◌, none, some, length, arith}
use chdkptp_astro.Ptp.Codes.{rc_ok, bulk_hdr_len, container_data}
use chdkptp_astro.Ptp.State.{Returns}
use chdkptp_astro.Ptp.Usb.{header}
use chdkptp_astro.Ptp.Usb.Response.{response}
use chdkptp_astro.Ptp.Pack.Located.{wire_array32}
use chdkptp_astro.Ptp.Pack.Arrays.Laws.{words32, words16}
use chdkptp_astro.Ptp.Pack.Text.RoundTrip.{encode}
use chdkptp_astro.Ptp.Pack.DeviceInfo.Layout.{wire, described}
use chdkptp_astro.Ptp.Transaction.{dp_nodata, transaction, usb_link}
use chdkptp_astro.Ptp.Transaction.OverUsb.{Completed}
use chdkptp_astro.Ptp.Transaction.NoData.{transaction_nodata}
use chdkptp_astro.Ptp.Operations.{
  request0, request1, request3, request4, getdeviceinfo, getobjecthandles,
}
use chdkptp_astro.Ptp.Operations.OverUsb.{
  Replies, Obtained, getdeviceinfo-Obtained, getobjecthandles-Obtained,
}
use chdkptp_astro.Ptp.Chdk.{oc_chdk, read_script_msg, get_memory, get_version}
use chdkptp_astro.Ptp.Chdk.Messages.{
  read_script_msg-Obtained, get_memory-Obtained, get_version-Obtained,
}
use chdkptp_astro.Ptp.Tests.Cable.{Cable, cable, cable-Delivers}
use chdkptp_astro.Ptp.Tests.Session.{opened, empty_buffer-IsBuffer}
use chdkptp_astro.Ptp.Tests.Datasets.{camera, camera-IsDescription, camera-fits}

abbrev pending : Cable → List ℕ
pending d = d.stream

-- What comes over the cable: data for the operation `code`, and a response.
abbrev data_reply : ℕ → List ℕ → List ℕ → List ℕ
data_reply code bytes ps =
    header 0x0f (length bytes + bulk_hdr_len) container_data code 4
    ++ (bytes ++ (response 0x0f rc_ok 4 ps ++ []))

abbrev handles : List ℕ
handles = 0x10 ∷ 0xdeadbeef ∷ []

handles-Replies :
    Replies cable pending cable-Delivers 64
      (request3 0x1007 1 0 0)
      (wire_array32 0x0f handles)
      (opened (data_reply 0x1007 (wire_array32 0x0f handles) []))
unfolding words32
handles-Replies = record {
  data_id = 4;
  trans_id = 4;
  ps = [];
  next = [];
  sound = empty_buffer-IsBuffer;
  answers = record { params_fit = omega arith; accepted = refl; reply_bytes = refl };
  known_code = omega arith;
  fits = omega arith;
  trans_id_small = omega arith;
  few = omega arith;
  small = tt;
  enough_fuel = omega arith;
}

getobjecthandles-Obtained_example :
    Returns
      (Obtained cable pending cable-Delivers handles handles-Replies.next
        (opened (data_reply 0x1007 (wire_array32 0x0f handles) [])))
      (getobjecthandles
        (usb_link cable 64)
        1
        0
        0
        (opened (data_reply 0x1007 (wire_array32 0x0f handles) [])))
getobjecthandles-Obtained_example =
    getobjecthandles-Obtained cable pending cable-Delivers 64 1 0 0 handles
      (opened (data_reply 0x1007 (wire_array32 0x0f handles) [])) (omega arith) (omega arith)
      handles-Replies

camera-Replies :
    Replies cable pending cable-Delivers 0x11000
      (request0 0x1001)
      (wire 0x0f camera)
      (opened (data_reply 0x1001 (wire 0x0f camera) []))
unfolding words16 encode
camera-Replies = record {
  data_id = 4;
  trans_id = 4;
  ps = [];
  next = [];
  sound = empty_buffer-IsBuffer;
  answers = record { params_fit = omega arith; accepted = refl; reply_bytes = refl };
  known_code = omega arith;
  fits = omega arith;
  trans_id_small = omega arith;
  few = omega arith;
  small = tt;
  enough_fuel = omega arith;
}

getdeviceinfo-Obtained_example :
    Returns
      (Obtained cable pending cable-Delivers
        (described camera)
        camera-Replies.next
        (opened (data_reply 0x1001 (wire 0x0f camera) [])))
      (getdeviceinfo (usb_link cable 0x11000) (opened (data_reply 0x1001 (wire 0x0f camera) [])))
getdeviceinfo-Obtained_example =
    getdeviceinfo-Obtained cable pending cable-Delivers 0x11000 camera
      (opened (data_reply 0x1001 (wire 0x0f camera) [])) camera-IsDescription camera-fits
      camera-Replies

-- A string of two characters that a script sent.
abbrev script_text : List ℕ
script_text = 0x68 ∷ 0x69 ∷ []

abbrev message_replies :
    Replies cable pending cable-Delivers 64
      (request1 oc_chdk 10)
      script_text
      (opened (data_reply oc_chdk script_text (3 ∷ 4 ∷ 9 ∷ 2 ∷ [])))
message_replies = record {
  data_id = 4;
  trans_id = 4;
  ps = 3 ∷ 4 ∷ 9 ∷ 2 ∷ [];
  next = [];
  sound = empty_buffer-IsBuffer;
  answers = record { params_fit = omega arith; accepted = refl; reply_bytes = refl };
  known_code = omega arith;
  fits = omega arith;
  trans_id_small = omega arith;
  few = omega arith;
  small = omega arith;
  enough_fuel = omega arith;
}

read_script_msg-Obtained_example :
    Returns
      (Obtained cable pending cable-Delivers
        (record { script_id = 9; type = 3; subtype = 4; bytes = script_text })
        message_replies.next
        (opened (data_reply oc_chdk script_text (3 ∷ 4 ∷ 9 ∷ 2 ∷ []))))
      (read_script_msg
        (usb_link cable 64)
        (opened (data_reply oc_chdk script_text (3 ∷ 4 ∷ 9 ∷ 2 ∷ []))))
read_script_msg-Obtained_example =
    read_script_msg-Obtained cable pending cable-Delivers 64 3 4 9 script_text
      (opened (data_reply oc_chdk script_text (3 ∷ 4 ∷ 9 ∷ 2 ∷ []))) (omega arith) message_replies
      refl

memory-Replies :
    Replies cable pending cable-Delivers 64
      (request4 oc_chdk 1 0x1900 2 0)
      script_text
      (opened (data_reply oc_chdk script_text []))
memory-Replies = record {
  data_id = 4;
  trans_id = 4;
  ps = [];
  next = [];
  sound = empty_buffer-IsBuffer;
  answers = record { params_fit = omega arith; accepted = refl; reply_bytes = refl };
  known_code = omega arith;
  fits = omega arith;
  trans_id_small = omega arith;
  few = omega arith;
  small = tt;
  enough_fuel = omega arith;
}

get_memory-Obtained_example :
    Returns
      (Obtained cable pending cable-Delivers
        (some script_text)
        memory-Replies.next
        (opened (data_reply oc_chdk script_text [])))
      (get_memory (usb_link cable 64) 0x1900 2 0 (opened (data_reply oc_chdk script_text [])))
get_memory-Obtained_example =
    get_memory-Obtained cable pending cable-Delivers 64 0x1900 2 0 script_text
      (opened (data_reply oc_chdk script_text [])) memory-Replies

get_version-Obtained_example :
    Returns
      (Obtained cable pending cable-Delivers
        (2, 9)
        []
        (opened (response 0x0f rc_ok 4 (2 ∷ 9 ∷ []) ++ [])))
      (get_version (usb_link cable 64) (opened (response 0x0f rc_ok 4 (2 ∷ 9 ∷ []) ++ [])))
get_version-Obtained_example =
    get_version-Obtained cable pending cable-Delivers 64 4 2 9 []
      (opened (response 0x0f rc_ok 4 (2 ∷ 9 ∷ []) ++ [])) empty_buffer-IsBuffer
      (record { params_fit = omega arith; accepted = refl; reply_bytes = refl }) (omega arith)
      (omega arith) (omega arith) (omega arith)

transaction_nodata_example :
    Returns
      (Completed cable pending cable-Delivers 4
        (5 ∷ [])
        none
        []
        (opened (response 0x0f rc_ok 4 (5 ∷ []) ++ [])))
      (transaction
        (usb_link cable 64)
        (request1 0x1003 0)
        dp_nodata
        []
        (opened (response 0x0f rc_ok 4 (5 ∷ []) ++ [])))
transaction_nodata_example =
    transaction_nodata cable pending cable-Delivers 64 (request1 0x1003 0) 4 (5 ∷ []) []
      (opened (response 0x0f rc_ok 4 (5 ∷ []) ++ [])) empty_buffer-IsBuffer
      (record { params_fit = omega arith; accepted = refl; reply_bytes = refl }) (omega arith)
      (omega arith) (omega arith) (omega arith)
