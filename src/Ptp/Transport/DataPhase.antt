-- ===== src/Ptp/Transport/DataPhase.antt =====
-- What `ptp_tcp_read_data` and `ptp_usb_read_data` deliver: the next `size` bytes of the stream.
use chdkptp_astro.Base.{
  ℕ, zero, suc, ◌+◌, ◌-◌, ◌%◌, ◌^◌, ◌≤◌, ◌<◌, List, ◌++◌, ◌≡◌, refl, sym, ap, ◌∙◌, true, false, ltb,
  ◌==◌, length, min, arith, length-append, append_assoc, Bool-cases, inl, inr, not_ltb→le, ltb→lt,
  le→not_ltb, lt→ltb,
}
use chdkptp_astro.Ptp.Codes.{bulk_max_packet_len}
use chdkptp_astro.Ptp.State.{Port, Params, done, ◌>>=◌, Returns, Returns->>=, Returns-weaken}
use chdkptp_astro.Ptp.Transport.{
  data_rest, refill, from_buffer, read_direct, tcp_read_data, usb_read_data, finish_data,
}
use chdkptp_astro.Ptp.Transport.Buffer.{contents, IsBuffer}
use chdkptp_astro.Ptp.Transport.Fill.{Delivers, SameSession}
use chdkptp_astro.Ptp.Transport.Delivery.{
  view, Delivered, Delivered-append, Taken, from_buffer-Taken, refill-Delivered, length-view,
  view_empty, whole, SameSession-refl, SameSession-trans,
}

module _ {D : Type 0} (pending : D → List ℕ) where
  -- Reading past the buffer: `dst` grew to `total` bytes, and the buffer was left alone.
  pub record Direct (total : ℕ) (dst : List ℕ) (s : Params D) (out : List ℕ) (t : Params D)
      : Type 0 where
    pub split : out ++ pending t.device ≡ dst ++ pending s.device
    pub count : length out ≡ total
    pub buffer : t.pkt_buf ≡ s.pkt_buf
    pub same : SameSession s t

  -- One read of the loop.
  pub Direct-step :
      {total : ℕ} {s t : Params D} {dst out : List ℕ} (bs : List ℕ) (d : D)
      → bs ++ pending d ≡ pending s.device
      → Direct total (dst ++ bs) (record s { device = d }) out t
      → Direct total dst s out t
  Direct-step {dst} bs d split r = record {
    split = r.split ∙ append_assoc dst bs (pending d) ∙ ap (◌++◌ dst) split;
    count = r.count;
    buffer = r.buffer;
    same = record {
      byteorder = r.same.byteorder;
      transaction_id = r.same.transaction_id;
      session_id = r.same.session_id;
      max_packet_size = r.same.max_packet_size;
    };
  }

  -- The buffer gave all that it had, and then the device up to `total` bytes.
  pub Delivered-Direct :
      {n total : ℕ} {s t u : Params D} {first out : List ℕ}
      → Delivered pending n s first t
      → t.pkt_buf.len ≡ 0
      → Direct total first t out u
      → Delivered pending total s out u
  Delivered-Direct {t} {u} {first} {out} h empty r = record {
    split =
        ap (λ b. out ++ (contents b ++ pending u.device)) r.buffer
        ∙ ap (◌++◌ out) (view_empty pending (record u { pkt_buf = t.pkt_buf }) empty)
        ∙ r.split
        ∙ ap (◌++◌ first) (sym (view_empty pending t empty))
        ∙ h.split;
    count = r.count;
    sound = let e = r.buffer in rw e h.sound;
    same = SameSession-trans h.same r.same;
  }

  -- What the buffer could not give, the device has.
  pub missing :
      (size : ℕ) (s : Params D) (first : List ℕ) (t : Params D)
      → IsBuffer s.pkt_buf
      → size ≤ length (view pending s)
      → Taken pending size s first t
      → length first < size
      → size ≤ length first + length (pending t.device)
  missing size s first t v enough h short =
      omega
        (arith, h.delivered.count, length-view pending s v, ap (λ d. length (pending d)) h.device)

module _ {D : Type 0} (port : Port D) (pending : D → List ℕ) where
  pub read_direct_done :
      (fuel total : ℕ) (dst : List ℕ) (s : Params D)
      → total ≤ length dst
      → read_direct port fuel total dst s ≡ done dst s
  unfolding read_direct
  read_direct_done zero total dst s h = rw (le→not_ltb (length dst) total h)
  read_direct_done (suc fuel) total dst s h = rw (le→not_ltb (length dst) total h, read_direct)

  -- Nothing is missing.
  pub read_direct-whole :
      (fuel total : ℕ) (dst : List ℕ) (s : Params D)
      → length dst ≡ total
      → Returns (Direct pending total dst s) (read_direct port fuel total dst s)
  read_direct-whole fuel total dst s e =
      rw (read_direct_done fuel total dst s (omega arith))
        (record { split = refl; count = e; buffer = refl; same = SameSession-refl })

  pub finish_data-Delivered :
      (fuel size rest : ℕ) (s : Params D) (dst : List ℕ) (t : Params D)
      → rest ≤ size
      → Returns (Delivered pending rest t) (refill port fuel rest t)
      → Delivered pending (size - rest) s dst t
      → Returns (Delivered pending size s) (finish_data port fuel size rest dst t)
  unfolding finish_data
  finish_data-Delivered fuel size rest s dst t part refilled h =
      Returns->>= (Delivered pending rest t) (Delivered pending size s) (refill port fuel rest) _ t
        refilled
        λ more' u k.
          let c : length (dst ++ more') ≡ size =
            omega (arith, length-append {0} dst more', h.count, k.count) in
          let g : (length (dst ++ more') == size) ≡ true = ground arith in
          let n : size - rest + rest ≡ size = omega arith in
          rw g (rw n at (Delivered-append pending h k))

module _ {D : Type 0} (port : Port D) (pending : D → List ℕ) (law : Delivers port pending) where
  read_direct-Direct :
      (fuel total : ℕ) (dst : List ℕ) (s : Params D)
      → total < 2 ^ 31
      → length dst ≤ total
      → total ≤ length dst + length (pending s.device)
      → total - length dst ≤ fuel
      → Returns (Direct pending total dst s) (read_direct port fuel total dst s)
  unfolding read_direct
  read_direct-Direct zero total dst s small below enough f =
      read_direct-whole port pending zero total dst s (omega arith)
  read_direct-Direct (suc fuel) total dst s small below enough f =
      elim (Bool-cases (ltb (length dst) total)) [
        | inr e ↦
            let over : total ≤ length dst = not_ltb→le (length dst) total e in
            read_direct-whole port pending (suc fuel) total dst s (omega arith)
        | inl e ↦
            let short : length dst < total = ltb→lt (length dst) total e in
            let (bs, g, some_bytes, few, split) =
              law.reads (total - length dst) s.device (omega arith) (omega arith) in
            let d = (port.read_func (total - length dst) s.device).1 in
            let u : Params D = record s { device = d } in
            let n : length bs + length (pending d) ≡ length (pending s.device) =
              omega
                (arith, length-append {0} bs (pending d), ap (λ (l : List ℕ). length l) split) in
            let m : length (dst ++ bs) ≡ length dst + length bs = length-append dst bs in
            let fits : ltb (min total (2 ^ 31 - 1)) (length dst + length bs) ≡ false =
              le→not_ltb (min total (2 ^ 31 - 1)) (length dst + length bs) (omega arith) in
            rw (e, g, fits, read_direct)
              (Returns-weaken (Direct pending total (dst ++ bs) u) (Direct pending total dst s)
                (read_direct port fuel total (dst ++ bs) u)
                (read_direct-Direct fuel total (dst ++ bs) u small (omega arith) (omega arith)
                  (omega arith))
                (λ out t r. Direct-step pending bs d split r))
      ]

  -- If at least `size` bytes, fewer than 2 ^ 31, are still to be read of a socket that delivers a
  -- stream, then with fuel of `size` `ptp_tcp_read_data` gives exactly the next `size` bytes and
  -- leaves the rest in order.
  pub tcp_read_data-Delivered :
      (fuel size : ℕ) (s : Params D)
      → IsBuffer s.pkt_buf
      → size < 2 ^ 31
      → size ≤ length (view pending s)
      → size ≤ fuel
      → Returns (Delivered pending size s) (tcp_read_data port fuel size s)
  unfolding tcp_read_data
  tcp_read_data-Delivered fuel size s v small enough f = rw (lt→ltb size (2 ^ 31) small) (
      Returns->>= (Taken pending size s) (Delivered pending size s) (from_buffer size)
        (read_direct port fuel size) s (from_buffer-Taken pending size s v)
        λ first t h. elim (Bool-cases (ltb (length first) size)) [
          | inr e ↦
              let all : size ≤ length first = not_ltb→le _ _ e in
              rw (read_direct_done port pending fuel size first t all)
                (whole pending size s first t h all)
          | inl e ↦
              let short : length first < size = ltb→lt _ _ e in
              let c : length first ≡ s.pkt_buf.len = omega (arith, h.delivered.count) in
              let empty : t.pkt_buf.len ≡ 0 = omega (arith, h.left) in
              let more : size ≤ length first + length (pending t.device) =
                missing pending size s first t v enough h short in
              Returns-weaken (Direct pending size first t) (Delivered pending size s)
                (read_direct port fuel size first t)
                (read_direct-Direct fuel size first t small (omega arith) more (omega arith))
                (λ out u r. Delivered-Direct pending h.delivered empty r)
        ])

  -- The whole packets, and then the rest.
  packets :
      (fuel size : ℕ) (s : Params D) (first : List ℕ) (t : Params D)
      → IsBuffer s.pkt_buf
      → size < 2 ^ 31
      → size < length (view pending s)
      → size < fuel
      → Taken pending size s first t
      → length first < size
      → let rest = (size - length first) % bulk_max_packet_len in
        Returns
          (Delivered pending size s)
          ((read_direct port fuel (size - rest) first >>= finish_data port fuel size rest) t)
  packets fuel size s first t v small enough f h short =
      let rest = (size - length first) % bulk_max_packet_len in
      let total = size - rest in
      let c : length first ≡ s.pkt_buf.len = omega (arith, h.delivered.count) in
      let empty : t.pkt_buf.len ≡ 0 = omega (arith, h.left) in
      let more : size < length first + length (pending t.device) =
        omega (arith, length-view pending s v, ap (λ d. length (pending d)) h.device) in
      Returns->>= (Direct pending total first t) (Delivered pending size s)
        (read_direct port fuel total first) (finish_data port fuel size rest) t
        (read_direct-Direct fuel total first t (omega arith) (omega arith) (omega arith)
          (omega arith))
        λ out u r.
          let n : length out + length (pending u.device)
              ≡ length first + length (pending t.device) =
            omega (
              arith,
              ap (λ (l : List ℕ). length l) r.split,
              length-append {0} out (pending u.device),
              length-append {0} first (pending t.device),
            ) in
          finish_data-Delivered port pending fuel size rest s out u (omega arith)
            (refill-Delivered port pending law fuel rest u
              (let e = r.buffer in rw e h.delivered.sound) (ap (λ b. b.len) r.buffer ∙ empty)
              (omega arith) (omega (arith, r.count)) (omega (arith, r.count)) (omega arith)
              (omega arith))
            (Delivered-Direct pending h.delivered empty r)

  -- If more than `size` bytes are still to be read of a device that delivers a stream, and `size`
  -- is below 2 ^ 31, then with fuel above `size` `ptp_usb_read_data` gives exactly the next `size`
  -- bytes and leaves the rest in order, with what the buffer holds in front.
  pub usb_read_data-Delivered :
      (fuel size : ℕ) (s : Params D)
      → IsBuffer s.pkt_buf
      → size < 2 ^ 31
      → size < length (view pending s)
      → size < fuel
      → Returns (Delivered pending size s) (usb_read_data port fuel size s)
  unfolding usb_read_data data_rest
  usb_read_data-Delivered fuel size s v small enough f = rw (lt→ltb size (2 ^ 31) small) (
      Returns->>= (Taken pending size s) (Delivered pending size s) (from_buffer size)
        (data_rest port fuel size) s (from_buffer-Taken pending size s v)
        λ first t h. elim (Bool-cases (ltb (length first) size)) [
          | inr e ↦ rw e (whole pending size s first t h (not_ltb→le _ _ e))
          | inl e ↦
              let short : length first < size = ltb→lt _ _ e in
              rw e (packets fuel size s first t v small enough f h short)
        ])
