-- ===== src/Ptp/Transport/Packets.antt =====
-- `ptp_usb_read_data` on a pipe that can only be read in whole packets.
use chdkptp_astro.Base.{
  ℕ, zero, suc, ◌+◌, ◌-◌, ◌%◌, ◌^◌, ◌≤◌, ◌<◌, List, ◌++◌, ◌≡◌, refl, sym, ap, ◌∙◌, true, false, ltb,
  ◌==◌, length, min, take, drop, arith, length-append, Bool-cases, inl, inr, ◌⊎◌, not_ltb→le,
  ltb→lt, le→not_ltb, lt→ltb,
}
use chdkptp_astro.Ptp.Codes.{bulk_max_packet_len, packet_buffer_size}
use chdkptp_astro.Ptp.State.{got, done, Port, Params, ◌>>=◌, Returns, Returns->>=, Returns-weaken}
use chdkptp_astro.Ptp.Transport.{
  data_rest, refill, from_buffer, read_direct, usb_read_data, finish_data, read_to_buffer, fill,
  fill_once, set_len,
}
use chdkptp_astro.Ptp.Transport.Buffer.{IsBuffer, write_at}
use chdkptp_astro.Ptp.Transport.Fill.{SameSession, length-write_at, take-write_at}
use chdkptp_astro.Ptp.Transport.Delivery.{
  view, Delivered, Taken, from_buffer-Taken, view_empty, whole, SameSession-trans,
}
use chdkptp_astro.Ptp.Transport.DataPhase.{
  Direct, Delivered-Direct, Direct-step, missing, read_direct-whole, finish_data-Delivered,
}

-- The pipe of one transfer, with `pending d` still to come: a read for whole packets stores whole
-- packets, at least one, or all that is left. Nothing is known of a read for any other number of
-- bytes, which libusb may answer with an overflow error.
pub record DeliversPackets {D : Type 0} (port : Port D) (pending : D → List ℕ) : Type 0 where
  pub reads :
      (n : ℕ) (d : D)
      → 0 < n
      → n % bulk_max_packet_len ≡ 0
      → (bs : List ℕ) × ((port.read_func n d).0 ≡ got bs)
        × (length bs ≤ n)
        × (bs ++ pending (port.read_func n d).1 ≡ pending d)
        × (((length bs % bulk_max_packet_len ≡ 0) × (0 < length bs))
            ⊎ (length (pending (port.read_func n d).1) ≡ 0))

module _ {D : Type 0} (port : Port D) (pending : D → List ℕ)
    (law : DeliversPackets port pending) where
  -- After a read within what is left, whole packets are missing, and fewer of them.
  still_whole :
      (n got_len left after : ℕ)
      → 0 < n
      → n % 512 ≡ 0
      → got_len ≤ n
      → n ≤ left
      → got_len + after ≡ left
      → ((got_len % 512 ≡ 0) × (0 < got_len)) ⊎ (after ≡ 0)
      → ((n - got_len) % 512 ≡ 0) × (0 < got_len)
  still_whole n k left after pos w le enough sum (inl p) =
      let a = p.0 in let b = p.1 in (omega arith, b)
  still_whole n k left after pos w le enough sum (inr e) =
      let zero_left : n - k ≡ 0 = omega arith in (rw zero_left refl, omega arith)

  read_direct-Packets :
      (fuel total : ℕ) (dst : List ℕ) (s : Params D)
      → total < 2 ^ 31
      → length dst ≤ total
      → total ≤ length dst + length (pending s.device)
      → (total - length dst) % bulk_max_packet_len ≡ 0
      → total - length dst ≤ fuel
      → Returns (Direct pending total dst s) (read_direct port fuel total dst s)
  unfolding read_direct
  read_direct-Packets zero total dst s small below enough w f =
      read_direct-whole port pending zero total dst s (omega arith)
  read_direct-Packets (suc fuel) total dst s small below enough w f =
      elim (Bool-cases (ltb (length dst) total)) [
        | inr e ↦
            let over : total ≤ length dst = not_ltb→le (length dst) total e in
            read_direct-whole port pending (suc fuel) total dst s (omega arith)
        | inl e ↦
            let short : length dst < total = ltb→lt (length dst) total e in
            let n = total - length dst in
            let (bs, g, few, split, ends) = law.reads n s.device (omega arith) w in
            let d = (port.read_func n s.device).1 in
            let u : Params D = record s { device = d } in
            let sum : length bs + length (pending d) ≡ length (pending s.device) =
              omega
                (arith, length-append {0} bs (pending d), ap (λ (l : List ℕ). length l) split) in
            let next = still_whole n (length bs) _ _ (omega arith) w few (omega arith) sum ends in
            let left = next.0 in
            let some_bytes = next.1 in
            let m : length (dst ++ bs) ≡ length dst + length bs = length-append dst bs in
            let fits : ltb (min total (2 ^ 31 - 1)) (length dst + length bs) ≡ false =
              le→not_ltb (min total (2 ^ 31 - 1)) (length dst + length bs) (omega arith) in
            rw (e, g, fits, read_direct)
              (Returns-weaken (Direct pending total (dst ++ bs) u) (Direct pending total dst s)
                (read_direct port fuel total (dst ++ bs) u)
                (read_direct-Packets fuel total (dst ++ bs) u small (omega arith) (omega arith)
                  (omega arith) (omega arith))
                (λ out t r. Direct-step pending bs d split r))
      ]

  -- The state after `bs` were read into the empty buffer.
  abbrev loaded : List ℕ → Params D → Params D
  loaded bs s = record s {
    pkt_buf = record (s.pkt_buf) { bytes = write_at 0 bs s.pkt_buf.bytes };
    device = (port.read_func 512 s.device).1;
  }

  abbrev IsLoaded : List ℕ → Params D → ℕ → Params D → Type 0
  IsLoaded bs s n t = (n ≡ length bs) × (t ≡ loaded bs s)

  fill_once-IsLoaded :
      (bs : List ℕ) (s : Params D)
      → (port.read_func 512 s.device).0 ≡ got bs
      → Returns (IsLoaded bs s) (fill_once port 0 s)
  unfolding fill_once
  fill_once-IsLoaded bs s g = rw (g, Returns) (omega arith, refl)

  -- One round of the loop is enough.
  fill-IsLoaded :
      (fuel rest : ℕ) (bs : List ℕ) (s : Params D)
      → (port.read_func 512 s.device).0 ≡ got bs
      → ltb (length bs) rest ≡ false
      → Returns (IsLoaded bs s) (fill port (suc fuel) rest 0 s)
  unfolding fill
  fill-IsLoaded fuel rest bs s g stop =
      Returns->>= (IsLoaded bs s) (IsLoaded bs s) (fill_once port 0) _ s (fill_once-IsLoaded bs s g)
        λ n t h. let over : ltb n rest ≡ false = ap (λ k. ltb k rest) h.0 ∙ stop in rw over h

  -- The buffer was empty, and holds the next packet now.
  record Loaded (rest : ℕ) (s : Params D) (u : Unit {0}) (t : Params D) : Type 0 where
    stream : view pending t ≡ pending s.device
    enough : rest ≤ t.pkt_buf.len
    sound : IsBuffer t.pkt_buf
    same : SameSession s t

  read_to_buffer-Loaded :
      (fuel rest : ℕ) (s : Params D)
      → IsBuffer s.pkt_buf
      → s.pkt_buf.len ≡ 0
      → rest < bulk_max_packet_len
      → rest ≤ length (pending s.device)
      → Returns (Loaded rest s) (read_to_buffer port (suc fuel) rest s)
  unfolding read_to_buffer
  read_to_buffer-Loaded fuel rest s v empty small enough =
      let e₁ : (s.pkt_buf.len == 0) ≡ true = ground arith in
      let p0 : s.pkt_buf.pos ≡ 0 = v.rewound empty in
      let e₂ : (s.pkt_buf.pos == 0) ≡ true = ground arith in
      let e₃ : ltb packet_buffer_size rest ≡ false = ground arith in
      let (bs, g, few, split, ends) = law.reads 512 s.device (omega arith) refl in
      let d = (port.read_func 512 s.device).1 in
      let all : length bs + length (pending d) ≡ length (pending s.device) =
        omega (arith, length-append {0} bs (pending d), ap (λ (l : List ℕ). length l) split) in
      let full : rest ≤ length bs = filled rest (length bs) _ _ small enough all ends in
      let stop : ltb (length bs) rest ≡ false = le→not_ltb (length bs) rest full in
      let zero_add : length bs ≡ 0 + length bs = omega arith in
      let room : 0 + length bs ≤ length s.pkt_buf.bytes = omega (arith, v.full_size) in
      rw (e₁, e₂, e₃)
        (Returns->>= (IsLoaded bs s) (Loaded rest s) (fill port (suc fuel) rest 0)
          (λ total t. done tt (set_len total t)) s (fill-IsLoaded fuel rest bs s g stop)
          λ n t h.
            rw (h.0, h.1)
              (record {
                stream =
                    ap (λ k. take (length bs) (drop k (write_at 0 bs s.pkt_buf.bytes)) ++ pending d)
                      p0
                    ∙ ap (λ k. take k (write_at 0 bs s.pkt_buf.bytes) ++ pending d) zero_add
                    ∙ ap (λ l. l ++ pending d) (take-write_at 0 bs s.pkt_buf.bytes room)
                    ∙ split;
                enough = full;
                sound = record {
                  full_size = length-write_at 0 bs s.pkt_buf.bytes room ∙ v.full_size;
                  within = omega arith;
                  rewound = λ z. p0;
                };
                same = record {
                  byteorder = refl;
                  transaction_id = refl;
                  session_id = refl;
                  max_packet_size = refl;
                };
              }))
    where
      filled :
          (rest k left after : ℕ)
          → rest < 512
          → rest ≤ left
          → k + after ≡ left
          → ((k % 512 ≡ 0) × (0 < k)) ⊎ (after ≡ 0)
          → rest ≤ k
      filled rest k left after small enough sum (inl p) = let a = p.0 in let b = p.1 in omega arith
      filled rest k left after small enough sum (inr e) = omega arith

  -- One packet, and of it what was missing.
  refill-Packets :
      (fuel rest : ℕ) (s : Params D)
      → IsBuffer s.pkt_buf
      → s.pkt_buf.len ≡ 0
      → rest < bulk_max_packet_len
      → rest ≤ length (pending s.device)
      → Returns (Delivered pending rest s) (refill port (suc fuel) rest s)
  unfolding refill
  refill-Packets fuel rest s v empty small enough =
      Returns->>= (Loaded rest s) (Delivered pending rest s) (read_to_buffer port (suc fuel) rest)
        (λ _. from_buffer rest) s (read_to_buffer-Loaded fuel rest s v empty small enough)
        λ u t r.
          Returns-weaken (Taken pending rest t) (Delivered pending rest s) (from_buffer rest t)
            (from_buffer-Taken pending rest t r.sound)
            λ bs w k. record {
              split = k.delivered.split ∙ r.stream ∙ sym (view_empty pending s empty);
              count = omega (arith, k.delivered.count, r.enough);
              sound = k.delivered.sound;
              same = SameSession-trans r.same k.delivered.same;
            }

  packets_then_rest :
      (fuel size : ℕ) (s : Params D) (first : List ℕ) (t : Params D)
      → IsBuffer s.pkt_buf
      → size < 2 ^ 31
      → size ≤ length (view pending s)
      → size ≤ fuel
      → Taken pending size s first t
      → length first < size
      → let rest = (size - length first) % bulk_max_packet_len in
        Returns (Delivered pending size s) (
          (read_direct port (suc fuel) (size - rest) first
              >>= finish_data port (suc fuel) size rest)
            t)
  packets_then_rest fuel size s first t v small enough f h short =
      let rest = (size - length first) % bulk_max_packet_len in
      let total = size - rest in
      let empty : t.pkt_buf.len ≡ 0 = omega (arith, h.left, h.delivered.count) in
      let more : size ≤ length first + length (pending t.device) =
        missing pending size s first t v enough h short in
      Returns->>= (Direct pending total first t) (Delivered pending size s)
        (read_direct port (suc fuel) total first) (finish_data port (suc fuel) size rest) t
        (read_direct-Packets (suc fuel) total first t (omega arith) (omega arith) (omega arith)
          (omega arith) (omega arith))
        λ out u r.
          let n : length out + length (pending u.device)
              ≡ length first + length (pending t.device) =
            omega (
              arith,
              ap (λ (l : List ℕ). length l) r.split,
              length-append {0} out (pending u.device),
              length-append {0} first (pending t.device),
            ) in
          finish_data-Delivered port pending (suc fuel) size rest s out u (omega arith)
            (refill-Packets fuel rest u (let e = r.buffer in rw e h.delivered.sound)
              (ap (λ b. b.len) r.buffer ∙ empty) (omega arith) (omega (arith, r.count)))
            (Delivered-Direct pending h.delivered empty r)

  -- On a pipe that can only be read in whole packets, with at least `size` bytes of the transfer
  -- still to be read, behind any bytes in the buffer, `size` below 2 ^ 31 and fuel above it,
  -- `ptp_usb_read_data` gives exactly the next `size` bytes and leaves the rest of the transfer in
  -- order: past the buffer it asks for whole packets only, also when the device cuts its
  -- transfers between packets.
  pub usb_read_data-Packets :
      (fuel size : ℕ) (s : Params D)
      → IsBuffer s.pkt_buf
      → size < 2 ^ 31
      → size ≤ length (view pending s)
      → size ≤ fuel
      → Returns (Delivered pending size s) (usb_read_data port (suc fuel) size s)
  unfolding usb_read_data data_rest
  usb_read_data-Packets fuel size s v small enough f = rw (lt→ltb size (2 ^ 31) small) (
      Returns->>= (Taken pending size s) (Delivered pending size s) (from_buffer size)
        (data_rest port (suc fuel) size) s (from_buffer-Taken pending size s v)
        λ first t h. elim (Bool-cases (ltb (length first) size)) [
          | inr e ↦ rw e (whole pending size s first t h (not_ltb→le _ _ e))
          | inl e ↦
              let short : length first < size = ltb→lt _ _ e in
              rw e (packets_then_rest fuel size s first t v small enough f h short)
        ])
