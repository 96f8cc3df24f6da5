-- ===== src/Ptp/Transport/Delivery.antt =====
-- What the buffered readers deliver: the next bytes of the stream, each once and in order.
use chdkptp_astro.Base.{
  ℕ, ◌+◌, ◌-◌, ◌≤◌, ◌<◌, min, List, ◌++◌, ◌≡◌, refl, sym, ap, ◌∙◌, true, false, ltb, ◌==◌, length,
  take, drop, arith, length-append, append_assoc, Bool-cases, inl, inr, not_ltb→le, ltb→lt,
}
use chdkptp_astro.Ptp.Codes.{packet_buffer_size}
use chdkptp_astro.Ptp.State.{Port, Params, done, Returns, Returns->>=, Returns-weaken}
use chdkptp_astro.Ptp.Transport.{
  control_rest, refill, read_to_buffer, set_len, fill, from_buffer, control_read_buffered,
  finish_control,
}
use chdkptp_astro.Ptp.Transport.Buffer.{read_from_buffer, contents, IsBuffer}
use chdkptp_astro.Ptp.Transport.Stream.{read_from_buffer-TakesPrefix, length-contents}
use chdkptp_astro.Ptp.Transport.Fill.{Delivers, SameSession, fill-Enough, Enough}

pub SameSession-refl : {D : Type 0} {s : Params D} → SameSession s s
SameSession-refl = record {
  byteorder = refl;
  transaction_id = refl;
  session_id = refl;
  max_packet_size = refl;
}

pub SameSession-trans :
    {D : Type 0} {s t u : Params D} → SameSession s t → SameSession t u → SameSession s u
SameSession-trans a b = record {
  byteorder = b.byteorder ∙ a.byteorder;
  transaction_id = b.transaction_id ∙ a.transaction_id;
  session_id = b.session_id ∙ a.session_id;
  max_packet_size = b.max_packet_size ∙ a.max_packet_size;
}

SameSession-set_len :
    {D : Type 0} {s t : Params D} (n : ℕ) → SameSession s t → SameSession s (set_len n t)
SameSession-set_len n a = record {
  byteorder = a.byteorder;
  transaction_id = a.transaction_id;
  session_id = a.session_id;
  max_packet_size = a.max_packet_size;
}

module _ {D : Type 0} (pending : D → List ℕ) where
  -- All bytes that are still to be read: those in the buffer, then those of the device.
  abbrev pub view : Params D → List ℕ
  view s = contents s.pkt_buf ++ pending s.device

  -- The step took the next `n` bytes of the stream, `bs`, and the rest is still to be read.
  pub record Delivered (n : ℕ) (s : Params D) (bs : List ℕ) (s' : Params D) : Type 0 where
    pub split : bs ++ view s' ≡ view s
    pub count : length bs ≡ n
    pub sound : IsBuffer s'.pkt_buf
    pub same : SameSession s s'

  pub Delivered-append :
      {n m : ℕ} {s t u : Params D} {bs cs : List ℕ}
      → Delivered n s bs t
      → Delivered m t cs u
      → Delivered (n + m) s (bs ++ cs) u
  Delivered-append {u} {bs} {cs} a b = record {
    split = append_assoc bs cs (view u) ∙ ap (◌++◌ bs) b.split ∙ a.split;
    count = omega (arith, length-append {0} bs cs, a.count, b.count);
    sound = b.sound;
    same = SameSession-trans a.same b.same;
  }

  pub view_empty : (s : Params D) → s.pkt_buf.len ≡ 0 → view s ≡ pending s.device
  view_empty s e = ap (λ n. take n (drop s.pkt_buf.pos s.pkt_buf.bytes) ++ pending s.device) e

  pub length-view :
      (s : Params D)
      → IsBuffer s.pkt_buf
      → length (view s) ≡ s.pkt_buf.len + length (pending s.device)
  length-view s v = omega (
    arith,
    length-append {0} (contents s.pkt_buf) (pending s.device),
    length-contents s.pkt_buf v,
  )

  -- What a read of at most `n` bytes from the buffer alone does.
  pub record Taken (n : ℕ) (s : Params D) (bs : List ℕ) (t : Params D) : Type 0 where
    pub delivered : Delivered (min n s.pkt_buf.len) s bs t
    pub device : t.device ≡ s.device
    pub left : t.pkt_buf.len ≡ s.pkt_buf.len - n

  pub from_buffer-Taken :
      (n : ℕ) (s : Params D) → IsBuffer s.pkt_buf → Returns (Taken n s) (from_buffer n s)
  from_buffer-Taken n s v =
      let p = read_from_buffer-TakesPrefix s.pkt_buf n v in
      let r = read_from_buffer s.pkt_buf n in
      record {
        delivered = record {
          split =
              sym (append_assoc r.0 (contents r.1) (pending s.device))
              ∙ ap (λ l. l ++ pending s.device) p.split;
          count = p.count;
          sound = p.sound;
          same = record {
            byteorder = refl;
            transaction_id = refl;
            session_id = refl;
            max_packet_size = refl;
          };
        };
        device = refl;
        left = p.left;
      }

  -- The buffer had all that was asked for.
  pub whole :
      (size : ℕ) (s : Params D) (first : List ℕ) (t : Params D)
      → Taken size s first t
      → size ≤ length first
      → Delivered size s first t
  whole size s first t h e =
      let n : min size s.pkt_buf.len ≡ size = omega (arith, h.delivered.count) in
      rw n at h.delivered

module _ {D : Type 0} (port : Port D) (pending : D → List ℕ) (law : Delivers port pending) where
  -- The buffer was empty, and holds at least `min_size` bytes of the stream now.
  record Refilled (min_size : ℕ) (s : Params D) (u : Unit {0}) (t : Params D) : Type 0 where
    stream : view pending t ≡ pending s.device
    enough : min_size ≤ t.pkt_buf.len
    sound : IsBuffer t.pkt_buf
    same : SameSession s t

  read_to_buffer-Refilled :
      (fuel min_size : ℕ) (s : Params D)
      → IsBuffer s.pkt_buf
      → s.pkt_buf.len ≡ 0
      → min_size ≤ packet_buffer_size
      → 0 < length (pending s.device)
      → min_size ≤ length (pending s.device)
      → min_size ≤ fuel
      → 0 < fuel
      → Returns (Refilled min_size s) (read_to_buffer port fuel min_size s)
  unfolding read_to_buffer
  read_to_buffer-Refilled fuel min_size s v empty fits more enough f pos =
      let e₁ : (s.pkt_buf.len == 0) ≡ true = ground arith in
      let e₂ : (s.pkt_buf.pos == 0) ≡ true = ground (arith, v.rewound empty) in
      let e₃ : ltb packet_buffer_size min_size ≡ false = ground arith in
      rw (e₁, e₂, e₃)
        (Returns->>= (Enough port pending law min_size 0 s) (Refilled min_size s)
          (fill port fuel min_size 0) (λ total t. done tt (set_len total t)) s
          (fill-Enough port pending law fuel min_size 0 s v.full_size (omega arith) fits more
            (omega arith) (omega arith) pos)
          λ n t h.
            let p : t.pkt_buf.pos ≡ 0 = h.0.pos ∙ v.rewound empty in
            record {
              stream = ap (λ k. take n (drop k t.pkt_buf.bytes) ++ pending t.device) p ∙ h.0.stream;
              enough = h.1;
              sound = record {
                full_size = h.0.full_size;
                within = omega (arith, h.0.bounded);
                rewound = λ z. p;
              };
              same = SameSession-set_len n h.0.same;
            })

  -- The first read emptied the buffer after `k` bytes, and `left` are missing.
  pub refill-Delivered :
      (fuel left : ℕ) (s : Params D)
      → IsBuffer s.pkt_buf
      → s.pkt_buf.len ≡ 0
      → left ≤ packet_buffer_size
      → 0 < length (pending s.device)
      → left ≤ length (pending s.device)
      → left ≤ fuel
      → 0 < fuel
      → Returns (Delivered pending left s) (refill port fuel left s)
  unfolding refill
  refill-Delivered fuel left s v empty fits more enough f pos =
      Returns->>= (Refilled left s) (Delivered pending left s) (read_to_buffer port fuel left)
        (λ _. from_buffer left) s
        (read_to_buffer-Refilled fuel left s v empty fits more enough f pos)
        λ u t r.
          Returns-weaken (Taken pending left t) (Delivered pending left s) (from_buffer left t)
            (from_buffer-Taken pending left t r.sound)
            λ bs w k. record {
              split = k.delivered.split ∙ r.stream ∙ sym (view_empty pending s empty);
              count = omega (arith, k.delivered.count, r.enough);
              sound = k.delivered.sound;
              same = SameSession-trans r.same k.delivered.same;
            }

  finish :
      (fuel size : ℕ) (s : Params D)
      → IsBuffer s.pkt_buf
      → size ≤ packet_buffer_size
      → size ≤ length (view pending s)
      → size ≤ fuel
      → (first : List ℕ) (t : Params D) → Taken pending size s first t
      → length first < size
      → Returns (Delivered pending size s) (finish_control port fuel (size - length first) first t)
  unfolding finish_control
  finish fuel size s v fits enough f first t h e =
      let left = size - length first in
      let c : length first ≡ s.pkt_buf.len = omega (arith, h.delivered.count) in
      let p : pending t.device ≡ pending s.device = ap pending h.device in
      let q : length (pending t.device) ≡ length (pending s.device) =
        ap (λ (l : List ℕ). length l) p in
      let r : length (view pending s) ≡ s.pkt_buf.len + length (pending s.device) =
        length-view pending s v in
      Returns->>= (Delivered pending left t) (Delivered pending size s) (refill port fuel left) _ t
        (refill-Delivered fuel left t h.delivered.sound (omega (arith, h.left)) (omega arith)
          (omega arith) (omega arith) (omega arith) (omega arith))
        λ more w k.
          let g : (length more == left) ≡ true = ground (arith, k.count) in
          let n : min size s.pkt_buf.len + left ≡ size = omega arith in
          rw g (rw n at (Delivered-append pending h.delivered k))

  -- If at least `size` bytes, at most 512, are still to be read of a device that delivers a
  -- stream, then with fuel of `size` `ptp_control_read_buffered` gives exactly the next `size`
  -- bytes, from the buffer and then from the device, and leaves the rest in order.
  pub control_read_buffered-Delivered :
      (fuel size : ℕ) (s : Params D)
      → IsBuffer s.pkt_buf
      → size ≤ packet_buffer_size
      → size ≤ length (view pending s)
      → size ≤ fuel
      → Returns (Delivered pending size s) (control_read_buffered port fuel size s)
  unfolding control_read_buffered control_rest
  control_read_buffered-Delivered fuel size s v fits enough f =
      Returns->>= (Taken pending size s) (Delivered pending size s) (from_buffer size)
        (control_rest port fuel size) s (from_buffer-Taken pending size s v)
        λ first t h. elim (Bool-cases (ltb (length first) size)) [
          | inl e ↦ rw e (finish fuel size s v fits enough f first t h (ltb→lt _ _ e))
          | inr e ↦ rw e (whole pending size s first t h (not_ltb→le _ _ e))
        ]
