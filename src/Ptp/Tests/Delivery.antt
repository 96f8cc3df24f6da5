-- ===== src/Ptp/Tests/Delivery.antt =====
-- The transport over a cable that cuts the stream, with bytes left over in the buffer.
use chdkptp_astro.Base.{
  ℕ, ◌%◌, ◌<◌, ◌≡◌, ◌⊎◌, inl, inr, [], ◌∷◌, refl, replicate, arith, min, take, drop, length,
  length-take, length-drop, take-append-drop, ◌==◌, if◌then◌else◌, three_ways,
}
use chdkptp_astro.Ptp.State.{PacketBuffer, Port, Params, Returns, got, broken}
use chdkptp_astro.Ptp.Codes.{rc_ok}
use chdkptp_astro.Ptp.Transport.Packets.{DeliversPackets, usb_read_data-Packets}
use chdkptp_astro.Ptp.Transport.{control_read_buffered, tcp_read_data, usb_read_data}
use chdkptp_astro.Ptp.Transport.Buffer.{IsBuffer}
use chdkptp_astro.Ptp.Transport.Delivery.{Delivered, control_read_buffered-Delivered}
use chdkptp_astro.Ptp.Transport.DataPhase.{tcp_read_data-Delivered, usb_read_data-Delivered}
use chdkptp_astro.Ptp.Tests.Cable.{Cable, cable, cable-Delivers}

-- Two bytes wait in the buffer, and seven in the cable.
abbrev two_left : PacketBuffer
two_left = record { bytes = 9 ∷ 1 ∷ 2 ∷ replicate 509 0; pos = 1; len = 2 }

abbrev connected : Params Cable
connected = record {
  byteorder = 0x0f;
  transaction_id = 4;
  session_id = 1;
  max_packet_size = 512;
  pkt_buf = two_left;
  device = record { stream = 3 ∷ 4 ∷ 5 ∷ 6 ∷ 7 ∷ 8 ∷ 9 ∷ []; sent = [] };
}

two_left-IsBuffer : IsBuffer two_left
two_left-IsBuffer = record {
  full_size = refl;
  within = omega arith;
  rewound = λ z. absurd (omega arith);
}

control_read_buffered-Delivered_example :
    Returns (Delivered (λ d. d.stream) 6 connected) (control_read_buffered cable 6 6 connected)
control_read_buffered-Delivered_example =
    control_read_buffered-Delivered cable (λ d. d.stream) cable-Delivers 6 6 connected
      two_left-IsBuffer (omega arith) (omega arith) (omega arith)

tcp_read_data-Delivered_example :
    Returns (Delivered (λ d. d.stream) 6 connected) (tcp_read_data cable 6 6 connected)
tcp_read_data-Delivered_example =
    tcp_read_data-Delivered cable (λ d. d.stream) cable-Delivers 6 6 connected two_left-IsBuffer
      (omega arith) (omega arith) (omega arith)

usb_read_data-Delivered_example :
    Returns (Delivered (λ d. d.stream) 6 connected) (usb_read_data cable 7 6 connected)
usb_read_data-Delivered_example =
    usb_read_data-Delivered cable (λ d. d.stream) cable-Delivers 7 6 connected two_left-IsBuffer
      (omega arith) (omega arith) (omega arith)

-- A pipe that gives one packet for a read of whole packets, and an error for any other.
abbrev pipe : Port Cable
pipe = record {
  read_func = λ n d. (
    if n % 512 == 0 then got (take (min n 512) d.stream) else broken,
    record d { stream = drop (min n 512) d.stream },
  );
  write_func = λ bs d. (rc_ok, d);
}

pipe-DeliversPackets : DeliversPackets pipe (λ d. d.stream)
pipe-DeliversPackets = record {
  reads = λ n d pos whole.
      let k = min n 512 in
      let got_len = length-take k d.stream in
      (
        take k d.stream,
        rw whole refl,
        omega arith,
        take-append-drop k d.stream,
        one_or_last n d pos whole,
      );
}
  where
    one_or_last :
        (n : ℕ) (d : Cable)
        → 0 < n
        → n % 512 ≡ 0
        → ((length (take (min n 512) d.stream) % 512 ≡ 0)
            × (0 < length (take (min n 512) d.stream)))
          ⊎ (length (drop (min n 512) d.stream) ≡ 0)
    one_or_last n d pos whole =
        let k : min n 512 ≡ 512 = omega arith in
        let taken = length-take 512 d.stream in
        let dropped = length-drop 512 d.stream in
        rw k (elim (three_ways 512 (length d.stream)) [
          | inl h ↦ inl (omega arith, omega arith)
          | inr (inl h) ↦ inl (omega arith, omega arith)
          | inr (inr h) ↦ inr (omega arith)
        ])

-- Two bytes in the buffer, and a packet of 512 and one of five in the pipe.
abbrev in_transfer : Params Cable
in_transfer = record connected { device = record { stream = replicate 517 7; sent = [] } }

usb_read_data-Packets_example :
    Returns (Delivered (λ d. d.stream) 518 in_transfer) (usb_read_data pipe 519 518 in_transfer)
usb_read_data-Packets_example =
    usb_read_data-Packets pipe (λ d. d.stream) pipe-DeliversPackets 518 518 in_transfer
      two_left-IsBuffer (omega arith) (omega arith) (omega arith)
