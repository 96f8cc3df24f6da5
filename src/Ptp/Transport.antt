-- ===== src/Ptp/Transport.antt =====
-- The transport buffer of ptp.c: `ptp_transport_read_from_buffer`, `ptp_transport_read_to_buffer`,
-- `ptp_control_read_buffered`, and the data readers `ptp_usb_read_data` and `ptp_tcp_read_data`.
-- What a function stores at `dst` is its result. C's `int` and `unsigned` agree with the natural
-- numbers below 2 ^ 31. The data readers are also called with sizes from there on, which are
-- negative as an `int`: what they do then is written out. A loop round costs one unit of fuel.
pub mod Buffer
pub mod Stream
pub mod Fill
pub mod Delivery
pub mod DataPhase
pub mod Packets
use chdkptp_astro.Base.{
  ℕ, zero, suc, ◌+◌, ◌-◌, ◌%◌, ◌^◌, List, [], ◌++◌, Bool, true, false, ltb, ◌==◌, if◌then◌else◌,
  length, take, drop, not, min, ◌||◌,
}
use chdkptp_astro.Ptp.Codes.{error_io, error_badparam, bulk_max_packet_len, packet_buffer_size}
use chdkptp_astro.Ptp.State.{
  PacketBuffer, Received, got, broken, Port, Params, Outcome, done, failed, overrun, diverged, M,
  ◌>>=◌, pure, fail,
}
use Buffer.{read_from_buffer, write_at}

-- The result of a step that uses only the packet buffer.
abbrev pub from_buffer : {D : Type 0} → ℕ → M D (List ℕ)
from_buffer max_size s =
    let (bytes, b) = read_from_buffer s.pkt_buf max_size in done bytes (record s { pkt_buf = b })

-- `b->len = n`.
abbrev pub set_len : {D : Type 0} → ℕ → Params D → Params D
set_len n s = record s { pkt_buf = record (s.pkt_buf) { len = n } }

module _ {D : Type 0} (port : Port D) where
  -- One round of the `do` loop of `ptp_transport_read_to_buffer`: read at `p`, `total` bytes in.
  pub fill_once : ℕ → M D ℕ
  fill_once total s =
      let (r, d) = port.read_func (packet_buffer_size - total) s.device in
      elim r [
        | got bs ↦ done (total + length bs) (record s {
          pkt_buf = record (s.pkt_buf) { bytes = write_at total bs s.pkt_buf.bytes };
          device = d;
        })
        | broken ↦ failed error_io (record s { device = d })
      ]

  -- `do { … } while(total < min_size)`.
  pub fill : ℕ → ℕ → ℕ → M D ℕ
  fill zero min_size total = λ s. diverged
  fill (suc fuel) min_size total = fill_once total >>= λ n t. elim (ltb n min_size) [
    | true ↦ fill fuel min_size n t
    | false ↦ done n t
  ]

  pub read_to_buffer : ℕ → ℕ → M D (Unit {0})
  read_to_buffer fuel min_size s =
      let b = s.pkt_buf in
      if not (b.len == 0) || not (b.pos == 0) || ltb packet_buffer_size min_size
      then failed error_badparam s
      else (fill fuel min_size 0 >>= λ total s'. done tt (set_len total s')) s

  -- Both callers fill the empty buffer and take from it at once.
  pub refill : ℕ → ℕ → M D (List ℕ)
  refill fuel left = read_to_buffer fuel left >>= λ _. from_buffer left

  -- The second read of `ptp_control_read_buffered`, `left` bytes short.
  pub finish_control : ℕ → ℕ → List ℕ → M D (List ℕ)
  finish_control fuel left first = refill fuel left >>= λ more.
      if length more == left then pure (first ++ more) else fail error_badparam

  -- `ptp_control_read_buffered` behind its first read.
  pub control_rest : ℕ → ℕ → List ℕ → M D (List ℕ)
  control_rest fuel size first =
      if ltb (length first) size
      then finish_control fuel (size - length first) first
      else pure first

  pub control_read_buffered : ℕ → ℕ → M D (List ℕ)
  control_read_buffered fuel size = from_buffer size >>= control_rest fuel size

  -- `while(rtotal < total) { rlen = read_func(dst + rtotal, total - rtotal); … }`, the loop of both
  -- data readers; `dst` is what has been stored so far. More bytes than were asked for are an access
  -- beyond the object, and `rtotal` is an `int`, whose overflow is undefined.
  pub read_direct : ℕ → ℕ → List ℕ → M D (List ℕ)
  read_direct zero total dst s = if ltb (length dst) total then diverged else done dst s
  read_direct (suc fuel) total dst s = elim (ltb (length dst) total) [
    | false ↦ done dst s
    | true ↦
        let (r, d) = port.read_func (total - length dst) s.device in
        elim r [
          | got bs ↦ elim (ltb (min total (2 ^ 31 - 1)) (length dst + length bs)) [
            | true ↦ overrun
            | false ↦ read_direct fuel total (dst ++ bs) (record s { device = d })
          ]
          | broken ↦ failed error_io (record s { device = d })
        ]
  ]

  -- From 2 ^ 31 on, `size` is negative as the `int` that `ptp_transport_read_from_buffer` takes, and a
  -- negative number of the bytes in the buffer is copied: C promises nothing then. An empty buffer is
  -- left alone.
  pub tcp_read_data : ℕ → ℕ → M D (List ℕ)
  tcp_read_data fuel size s =
      if ltb size (2 ^ 31)
      then (from_buffer size >>= read_direct fuel size) s
      else if s.pkt_buf.len == 0
      then read_direct fuel size [] s
      else overrun

  -- The end of `ptp_usb_read_data`: the rest that is no whole packet, by way of the buffer.
  pub finish_data : ℕ → ℕ → ℕ → List ℕ → M D (List ℕ)
  finish_data fuel size rest dst = refill fuel rest >>= λ more.
      if length (dst ++ more) == size then pure (dst ++ more) else fail error_io

  -- `ptp_usb_read_data` behind its first read, for a size below 2 ^ 31: `toread`, `rest` and
  -- `bulktotal` are not negative then.
  pub data_rest : ℕ → ℕ → List ℕ → M D (List ℕ)
  data_rest fuel size dst =
      if ltb (length dst) size
      then (let rest = (size - length dst) % bulk_max_packet_len in
          read_direct fuel (size - rest) dst >>= finish_data fuel size rest)
      else pure dst

  -- The same for a size from 2 ^ 31 on. As `int`s, `size` is negative, and `toread`, `rest` and
  -- `bulktotal` are not positive. With bytes in the buffer, a negative number of them is copied:
  -- C promises nothing then. With none, nothing is read directly, the buffer is filled once, and
  -- `rest` bytes, none or a negative number, are taken from what it holds.
  pub read_negative : ℕ → ℕ → M D (List ℕ)
  read_negative fuel size s =
      if s.pkt_buf.len == 0
      then (read_to_buffer fuel 0 >>= λ _ t.
            if t.pkt_buf.len == 0 || size % bulk_max_packet_len == 0
            then failed error_io t
            else overrun)
          s
      else overrun

  -- `size` is a `uint32_t` of the callers.
  pub usb_read_data : ℕ → ℕ → M D (List ℕ)
  usb_read_data fuel size s =
      if ltb size (2 ^ 31)
      then (from_buffer size >>= data_rest fuel size) s
      else read_negative fuel size s
