-- ===== src/Ptp/Transport/Fill.antt =====
-- `ptp_transport_read_to_buffer` under a device that delivers a stream of bytes.
use chdkptp_astro.Base.{
  ℕ, zero, suc, ◌+◌, ◌-◌, ◌≤◌, ◌<◌, List, ◌++◌, ◌≡◌, refl, sym, ap, ◌∙◌, ltb, length, take, drop,
  arith, length-append, length-take, length-drop, take-append_le, take_all, append_assoc,
  Bool-cases, not_ltb→le, ltb→lt, inl, inr,
}
use chdkptp_astro.Ptp.Codes.{packet_buffer_size}
use chdkptp_astro.Ptp.State.{got, Port, Params, Returns, Returns->>=, Returns-weaken}
use chdkptp_astro.Ptp.Transport.{fill_once, fill}
use chdkptp_astro.Ptp.Transport.Buffer.{write_at}

-- What is behind `params->data` delivers a stream: `pending d` are the bytes still to come, and a
-- read stores at least one of them while there are any, at most as many as it was asked for, in
-- order.
pub record Delivers {D : Type 0} (port : Port D) (pending : D → List ℕ) : Type 0 where
  pub reads :
      (n : ℕ) (d : D)
      → 0 < n
      → 0 < length (pending d)
      → (bs : List ℕ) × ((port.read_func n d).0 ≡ got bs)
        × (0 < length bs)
        × (length bs ≤ n)
        × (bs ++ pending (port.read_func n d).1 ≡ pending d)

-- The fields that reading leaves alone.
pub record SameSession {D : Type 0} (s s' : Params D) : Type 0 where
  pub byteorder : s'.byteorder ≡ s.byteorder
  pub transaction_id : s'.transaction_id ≡ s.transaction_id
  pub session_id : s'.session_id ≡ s.session_id
  pub max_packet_size : s'.max_packet_size ≡ s.max_packet_size

pub length-write_at :
    (at : ℕ) (bs base : List ℕ)
    → at + length bs ≤ length base
    → length (write_at at bs base) ≡ length base
length-write_at at bs base h = omega (
  arith,
  length-append {0} (take at base) (bs ++ drop (at + length bs) base),
  length-append {0} bs (drop (at + length bs) base),
  length-take at base,
  length-drop (at + length bs) base,
)

pub take-write_at :
    (at : ℕ) (bs base : List ℕ)
    → at + length bs ≤ length base
    → take (at + length bs) (write_at at bs base) ≡ take at base ++ bs
take-write_at at bs base h =
    let front : length (take at base ++ bs) ≡ at + length bs =
      omega (arith, length-append {0} (take at base) bs, length-take at base) in
    ap (take (at + length bs)) (sym (append_assoc (take at base) bs (drop (at + length bs) base)))
    ∙ take-append_le (at + length bs) (take at base ++ bs) (drop (at + length bs) base)
        (omega arith)
    ∙ take_all (at + length bs) (take at base ++ bs) (omega arith)

module _ {D : Type 0} (port : Port D) (pending : D → List ℕ) (law : Delivers port pending) where
  -- From `total` bytes in the buffer to `n`, the stream cut nowhere.
  pub record Filled (total : ℕ) (s : Params D) (n : ℕ) (s' : Params D) : Type 0 where
    pub grows : total < n
    pub bounded : n ≤ packet_buffer_size
    pub full_size : length s'.pkt_buf.bytes ≡ packet_buffer_size
    pub stream :
        take n s'.pkt_buf.bytes ++ pending s'.device
        ≡ take total s.pkt_buf.bytes ++ pending s.device
    pub pos : s'.pkt_buf.pos ≡ s.pkt_buf.pos
    pub same : SameSession s s'

  fill_once-Filled :
      (total : ℕ) (s : Params D)
      → length s.pkt_buf.bytes ≡ packet_buffer_size
      → total < packet_buffer_size
      → 0 < length (pending s.device)
      → Returns (Filled total s) (fill_once port total s)
  unfolding fill_once
  fill_once-Filled total s full room more =
      let (bs, e, some_bytes, few, split) =
        law.reads (packet_buffer_size - total) s.device (omega arith) more in
      rw (e, Returns)
        (record {
          grows = omega arith;
          bounded = omega arith;
          full_size = length-write_at total bs s.pkt_buf.bytes (omega arith) ∙ full;
          stream = rw (take-write_at total bs s.pkt_buf.bytes (omega arith)) (
              append_assoc (take total s.pkt_buf.bytes) bs
                (pending (port.read_func (packet_buffer_size - total) s.device).1)
              ∙ ap (◌++◌ (take total s.pkt_buf.bytes)) split);
          pos = refl;
          same = record {
            byteorder = refl;
            transaction_id = refl;
            session_id = refl;
            max_packet_size = refl;
          };
        })

  Filled-trans :
      {total n m : ℕ} {s t u : Params D} → Filled total s n t → Filled n t m u → Filled total s m u
  Filled-trans a b = record {
    grows = omega arith;
    bounded = b.bounded;
    full_size = b.full_size;
    stream = b.stream ∙ a.stream;
    pos = b.pos ∙ a.pos;
    same = record {
      byteorder = b.same.byteorder ∙ a.same.byteorder;
      transaction_id = b.same.transaction_id ∙ a.same.transaction_id;
      session_id = b.same.session_id ∙ a.same.session_id;
      max_packet_size = b.same.max_packet_size ∙ a.same.max_packet_size;
    };
  }

  pub Filled-count :
      {total n : ℕ} {s t : Params D}
      → length s.pkt_buf.bytes ≡ packet_buffer_size
      → total < packet_buffer_size
      → Filled total s n t
      → n + length (pending t.device) ≡ total + length (pending s.device)
  Filled-count {total} {n} {s} {t} full room h = omega (
    arith,
    ap (λ (l : List ℕ). length l) h.stream,
    length-append {0} (take n t.pkt_buf.bytes) (pending t.device),
    length-append {0} (take total s.pkt_buf.bytes) (pending s.device),
    length-take n t.pkt_buf.bytes,
    length-take total s.pkt_buf.bytes,
  )

  abbrev pub Enough : ℕ → ℕ → Params D → ℕ → Params D → Type 0
  Enough min_size total s n s' = Filled total s n s' × (min_size ≤ n)

  -- With fuel for each byte that is missing the `do` loop ends, at least `min_size` bytes in.
  pub fill-Enough :
      (fuel min_size total : ℕ) (s : Params D)
      → length s.pkt_buf.bytes ≡ packet_buffer_size
      → total < packet_buffer_size
      → min_size ≤ packet_buffer_size
      → 0 < length (pending s.device)
      → min_size ≤ total + length (pending s.device)
      → min_size - total ≤ fuel
      → 0 < fuel
      → Returns (Enough min_size total s) (fill port fuel min_size total s)
  unfolding fill
  fill-Enough zero min_size total s full room cap more enough f pos = absurd (omega arith)
  fill-Enough (suc fuel) min_size total s full room cap more enough f pos =
      Returns->>= (Filled total s) (Enough min_size total s) (fill_once port total) _ s
        (fill_once-Filled total s full room more)
        λ n t h. elim (Bool-cases (ltb n min_size)) [
          | inl e ↦
              let short : n < min_size = ltb→lt n min_size e in
              let left : n + length (pending t.device) ≡ total + length (pending s.device) =
                Filled-count full room h in
              rw e (
                Returns-weaken (Enough min_size n t) (Enough min_size total s)
                  (fill port fuel min_size n t)
                  (fill-Enough fuel min_size n t h.full_size (omega arith) cap (omega arith)
                    (omega arith) (omega arith) (omega arith))
                  (λ m u r. (Filled-trans h r.0, r.1)))
          | inr e ↦ rw e (h, not_ltb→le n min_size e)
        ]
