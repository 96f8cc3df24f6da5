-- ===== src/Ptp/Tcp/GetData.antt =====
-- What `ptp_tcp_getdata` returns for data that comes in any number of packets.
use chdkptp_astro.Base.{
  ℕ, zero, suc, ◌+◌, ◌-◌, ◌%◌, ◌^◌, ◌≤◌, ◌<◌, ◌≡◌, refl, sym, ap, ap₂, ◌∙◌, List, [], ◌∷◌, ◌++◌,
  Bool, true, false, ltb, some, length, arith, append_assoc, append-nil, length-append,
}
use chdkptp_astro.Ptp.State.{
  Port, Params, done, M, ◌>>=◌, pure, Returns, Returns->>=, Returns-weaken,
}
use chdkptp_astro.Ptp.Endian.{bytes32, htod32a}
use chdkptp_astro.Ptp.Container.{field32}
use chdkptp_astro.Ptp.Transport.{tcp_read_data}
use chdkptp_astro.Ptp.Transport.Buffer.{IsBuffer}
use chdkptp_astro.Ptp.Transport.Fill.{Delivers, SameSession}
use chdkptp_astro.Ptp.Transport.Delivery.{view, Delivered, SameSession-trans}
use chdkptp_astro.Ptp.Transport.DataPhase.{tcp_read_data-Delivered}
use chdkptp_astro.Ptp.Usb.Header.{Reads, Delivered-Reads}
use chdkptp_astro.Ptp.Usb.GetData.{Payload}
use chdkptp_astro.Ptp.Tcp.{
  type_start_data, type_data, type_end_data, tcp_read_control, check_start, check_packet,
  read_chunk, read_packets, check_end, read_end, tcp_getdata, host64,
}
use chdkptp_astro.Ptp.Tcp.Packet.{
  packet, packet_len, packet_type, read_start, read_data, read_end_data,
}

-- The data phase as it comes: packets of data, each with its own length.
unfoldable pub wire_chunks : ℕ → List ℕ → List (List ℕ) → List ℕ
wire_chunks order id [] = []
wire_chunks order id (c ∷ cs) =
    packet order (12 + length c) type_data id ++ (c ++ wire_chunks order id cs)

unfoldable pub joined : List (List ℕ) → List ℕ
joined [] = []
joined (c ∷ cs) = c ++ joined cs

-- No packet is empty, and each is shorter than 2 ^ 31 bytes.
abbrev pub IsChunks : List (List ℕ) → Type 0
IsChunks [] = Unit
IsChunks (c ∷ cs) = (0 < length c) × (length c < 2 ^ 31) × IsChunks cs

module _ {D : Type 0} (port : Port D) (pending : D → List ℕ) (law : Delivers port pending) where
  -- A step with the result `a`, after which `rest` is still to come.
  record Got {A : Type 0} (a : A) (rest : List ℕ) (s : Params D) (out : A) (t : Params D)
      : Type 0 where
    result : out ≡ a
    left : view pending t ≡ rest
    sound : IsBuffer t.pkt_buf
    same : SameSession s t

  check_packet_data :
      (n : ℕ) (pkt : List ℕ) (t : Params D)
      → field32 t.byteorder pkt 4 ≡ type_data
      → field32 t.byteorder pkt 0 ≡ 12 + n
      → 12 + n < 2 ^ 32
      → check_packet port false pkt t ≡ done (false, n) t
  unfolding check_packet
  check_packet_data n pkt t e4 e0 small =
      let k : (12 + n + 2 ^ 32 - 12) % 2 ^ 32 ≡ n = omega arith in rw (e4, e0, k)

  -- The header of a packet of data.
  announce-Got :
      (fuel : ℕ) (id c rest : List ℕ) (s : Params D)
      → IsBuffer s.pkt_buf
      → view pending s ≡ packet s.byteorder (12 + length c) type_data id ++ rest
      → length id ≡ 4
      → length c < 2 ^ 31
      → 12 ≤ fuel
      → Returns
          (Got (false, length c) rest s)
          ((tcp_read_control port fuel >>= check_packet port false) s)
  announce-Got fuel id c rest s v e n small f =
      let order = s.byteorder in
      let len = 12 + length c in
      let pkt = packet order len type_data id in
      Returns->>= (Reads port pending law pkt rest s) (Got (false, length c) rest s)
        (tcp_read_control port fuel) (check_packet port false) s
        (read_data port pending law fuel len id rest s v e n f)
        λ out t r.
          rw
            (check_packet_data (length c) out t
              (ap₂ (λ o l. field32 o l 4) r.same.byteorder r.result
                ∙ packet_type order len type_data id (omega arith))
              (ap₂ (λ o l. field32 o l 0) r.same.byteorder r.result
                ∙ packet_len order len type_data id (omega arith))
              (omega arith))
            (record { result = refl; left = r.left; sound = r.sound; same = r.same })

  read_chunk-Got :
      (fuel total : ℕ) (dst c rest : List ℕ) (s t : Params D) (p : Bool × ℕ)
      → Got (false, length c) (c ++ rest) s p t
      → length c < 2 ^ 31
      → length dst + length c ≤ total
      → total ≤ fuel
      → Returns (Got (false, dst ++ c) rest s) (read_chunk port fuel total dst p t)
  unfolding read_chunk
  read_chunk-Got fuel total dst c rest s t p h small room f =
      let fits : ltb total (length dst + length c) ≡ false = ground arith in
      let l : length (view pending t) ≡ length c + length rest =
        ap (λ (l : List ℕ). length l) h.left ∙ length-append c rest in
      rw (h.result, fits)
        (Returns->>= (Delivered pending (length c) t) (Got (false, dst ++ c) rest s)
          (tcp_read_data port fuel (length c)) (λ bytes. pure (false, dst ++ bytes)) t
          (tcp_read_data-Delivered port pending law fuel (length c) t h.sound small (omega arith)
            (omega arith))
          λ out u d.
            let r : Reads port pending law c rest t out u =
              Delivered-Reads port pending law c rest h.left refl d in
            record {
              result = ap (λ b. (false, dst ++ b)) r.result;
              left = r.left;
              sound = r.sound;
              same = SameSession-trans h.same r.same;
            })

  -- One packet.
  one-Got :
      (fuel total : ℕ) (id dst c rest : List ℕ) (s : Params D)
      → IsBuffer s.pkt_buf
      → view pending s ≡ packet s.byteorder (12 + length c) type_data id ++ (c ++ rest)
      → length id ≡ 4
      → length c < 2 ^ 31
      → length dst + length c ≤ total
      → total + 12 ≤ fuel
      → Returns (Got (false, dst ++ c) rest s) (
          (tcp_read_control port fuel
              >>= check_packet port false
              >>= read_chunk port fuel total dst)
            s)
  one-Got fuel total id dst c rest s v e n small room f =
      Returns->>= (Got (false, length c) (c ++ rest) s) (Got (false, dst ++ c) rest s)
        (tcp_read_control port fuel >>= check_packet port false) (read_chunk port fuel total dst) s
        (announce-Got fuel id c (c ++ rest) s v e n small (omega arith))
        λ p t h. read_chunk-Got fuel total dst c rest s t p h small room (omega arith)

  read_packets-Got :
      (rounds fuel total : ℕ) (id dst c : List ℕ) (cs : List (List ℕ)) (rest : List ℕ)
      (s : Params D)
      → IsBuffer s.pkt_buf
      → view pending s ≡ wire_chunks s.byteorder id (c ∷ cs) ++ rest
      → length id ≡ 4
      → IsChunks (c ∷ cs)
      → length dst + length (joined (c ∷ cs)) ≡ total
      → total + 12 ≤ fuel
      → length cs < rounds
      → Returns
          (Got (false, dst ++ joined (c ∷ cs)) rest s)
          (read_packets port rounds fuel total false dst s)
  unfolding read_packets wire_chunks joined
  read_packets-Got zero fuel total id dst c cs rest s v e n h sum f enough = absurd (omega arith)
  read_packets-Got (suc rounds) fuel total id dst c [] rest s v e n h sum f enough =
      let pkt = packet s.byteorder (12 + length c) type_data id in
      let m : length (c ++ []) ≡ length c = ap (λ (l : List ℕ). length l) (append-nil c) in
      let whole : view pending s ≡ pkt ++ (c ++ rest) =
        e ∙ append_assoc pkt (c ++ []) rest ∙ ap (λ z. pkt ++ (z ++ rest)) (append-nil c) in
      let all : length (dst ++ c) ≡ length dst + length c = length-append dst c in
      let over : ltb (length (dst ++ c)) total ≡ false = ground arith in
      let again : Bool × List ℕ → M D (Bool × List ℕ) = λ r u. elim (ltb (length r.1) total) [
        | true ↦ read_packets port rounds fuel total r.0 r.1 u
        | false ↦ done r u
      ] in
      let taken : Bool × List ℕ = (false, dst ++ c) in
      let final : Bool × List ℕ = (false, dst ++ (c ++ [])) in
      Returns->>= (Got taken rest s) (Got final rest s)
        (tcp_read_control port fuel >>= check_packet port false >>= read_chunk port fuel total dst)
        again s (one-Got fuel total id dst c rest s v whole n h.1 (omega arith) f)
        λ r t g.
          rw (g.result, over, append-nil c)
            (record { result = g.result; left = g.left; sound = g.sound; same = g.same })
  read_packets-Got (suc rounds) fuel total id dst c (d ∷ ds) rest s v e n h sum f enough =
      let pkt = packet s.byteorder (12 + length c) type_data id in
      let more = wire_chunks s.byteorder id (d ∷ ds) in
      let whole : view pending s ≡ pkt ++ (c ++ (more ++ rest)) =
        e ∙ append_assoc pkt (c ++ more) rest ∙ ap (◌++◌ pkt) (append_assoc c more rest) in
      let all : length (dst ++ c) ≡ length dst + length c = length-append dst c in
      let parts : length (c ++ joined (d ∷ ds)) ≡ length c + length (joined (d ∷ ds)) =
        length-append c (joined (d ∷ ds)) in
      let last : length (joined (d ∷ ds)) ≡ length d + length (joined ds) =
        length-append d (joined ds) in
      let under : ltb (length (dst ++ c)) total ≡ true = ground arith in
      let again : Bool × List ℕ → M D (Bool × List ℕ) = λ r u. elim (ltb (length r.1) total) [
        | true ↦ read_packets port rounds fuel total r.0 r.1 u
        | false ↦ done r u
      ] in
      let taken : Bool × List ℕ = (false, dst ++ c) in
      let final : Bool × List ℕ = (false, dst ++ (c ++ joined (d ∷ ds))) in
      Returns->>= (Got taken (more ++ rest) s) (Got final rest s)
        (tcp_read_control port fuel >>= check_packet port false >>= read_chunk port fuel total dst)
        again s (one-Got fuel total id dst c (more ++ rest) s v whole n h.1 (omega arith) f)
        λ r t g.
          let ended : r.0 ≡ false = ap (λ x. x.0) g.result in
          let so_far : r.1 ≡ dst ++ c = ap (λ x. x.1) g.result in
          rw (so_far, under, ended, so_far)
            (Returns-weaken (Got (false, (dst ++ c) ++ joined (d ∷ ds)) rest t)
              (Got (false, dst ++ (c ++ joined (d ∷ ds))) rest s)
              (read_packets port rounds fuel total false (dst ++ c) t)
              (read_packets-Got rounds fuel total id (dst ++ c) d ds rest t g.sound
                (g.left ∙ ap (λ o. wire_chunks o id (d ∷ ds) ++ rest) (sym g.same.byteorder)) n h.2
                (omega arith) f (omega arith))
              (λ out u k. record {
                result = k.result ∙ ap (λ z. (false, z)) (append_assoc dst c (joined (d ∷ ds)));
                left = k.left;
                sound = k.sound;
                same = SameSession-trans g.same k.same;
              }))

  -- The 64 bit length in the start packet.
  start_len :
      (order total id : ℕ)
      → total < 2 ^ 32
      → host64
          (packet order 20 type_start_data (htod32a order id ++ (bytes32 total ++ bytes32 0)))
          12
        ≡ total
  start_len order total id small = omega arith

  check_start_data :
      (total : ℕ) (pkt : List ℕ) (t : Params D)
      → field32 t.byteorder pkt 4 ≡ type_start_data
      → length pkt ≡ 20
      → host64 pkt 12 ≡ total
      → check_start port pkt t ≡ done total t
  unfolding check_start
  check_start_data total pkt t e4 n e = rw (e4, n, e)

  start-Got :
      (fuel total id : ℕ) (rest : List ℕ) (s : Params D)
      → IsBuffer s.pkt_buf
      → view pending s
        ≡ packet s.byteorder 20 type_start_data
            (htod32a s.byteorder id ++ (bytes32 total ++ bytes32 0))
          ++ rest
      → total < 2 ^ 32
      → 20 ≤ fuel
      → Returns (Got total rest s) ((tcp_read_control port fuel >>= check_start port) s)
  start-Got fuel total id rest s v e small f =
      let order = s.byteorder in
      let body = htod32a order id ++ (bytes32 total ++ bytes32 0) in
      let pkt = packet order 20 type_start_data body in
      Returns->>= (Reads port pending law pkt rest s) (Got total rest s)
        (tcp_read_control port fuel) (check_start port) s
        (read_start port pending law fuel body rest s v e refl f)
        λ out t r.
          rw
            (check_start_data total out t
              (ap₂ (λ o l. field32 o l 4) r.same.byteorder r.result
                ∙ packet_type order 20 type_start_data body (omega arith))
              (ap (λ (l : List ℕ). length l) r.result)
              (ap (λ l. host64 l 12) r.result ∙ start_len order total id small))
            (record { result = refl; left = r.left; sound = r.sound; same = r.same })

  check_end_data :
      (pkt : List ℕ) (t : Params D)
      → field32 t.byteorder pkt 4 ≡ type_end_data
      → check_end port pkt t ≡ done tt t
  unfolding check_end
  check_end_data pkt t e4 = rw e4

  -- The end packet behind the data.
  read_end-Got :
      (fuel id : ℕ) (bytes next : List ℕ) (s : Params D)
      → IsBuffer s.pkt_buf
      → view pending s ≡ packet s.byteorder 12 type_end_data (htod32a s.byteorder id) ++ next
      → 12 ≤ fuel
      → Returns (Got bytes next s) (read_end port fuel (false, bytes) s)
  unfolding read_end
  read_end-Got fuel id bytes next s v e f =
      let order = s.byteorder in
      let pkt = packet order 12 type_end_data (htod32a order id) in
      let ended : Unit {0} → Params D → Type 0 = λ u t. Got bytes next s bytes t in
      Returns->>= ended (Got bytes next s) (tcp_read_control port fuel >>= check_end port) _ s
        (Returns->>= (Reads port pending law pkt next s) ended (tcp_read_control port fuel)
          (check_end port) s
          (read_end_data port pending law fuel 12 (htod32a order id) next s v e refl f)
          λ out t r.
            rw
              (check_end_data out t (
                ap₂ (λ o l. field32 o l 4) r.same.byteorder r.result
                ∙ packet_type order 12 type_end_data (htod32a order id) (omega arith)))
              (record { result = refl; left = r.left; sound = r.sound; same = r.same }))
        λ u t h. h

  -- If the bytes still to be read of a socket that delivers a stream are a start packet with a
  -- length below 2 ^ 32, any number of data packets, at least one, none of them empty and each
  -- of fewer than 2 ^ 31 bytes, that have this length together, and an end packet without data, then with a round for each packet
  -- and fuel for the data and 20 more `ptp_tcp_getdata` returns all the data as one, and consumes
  -- exactly these packets.
  pub tcp_getdata-Payload :
      (rounds fuel id : ℕ) (c : List ℕ) (cs : List (List ℕ)) (next : List ℕ) (s : Params D)
      → IsBuffer s.pkt_buf
      → view pending s
        ≡ packet s.byteorder 20 type_start_data
            (htod32a s.byteorder id ++ (bytes32 (length (joined (c ∷ cs))) ++ bytes32 0))
          ++ (wire_chunks s.byteorder (htod32a s.byteorder id) (c ∷ cs)
              ++ (packet s.byteorder 12 type_end_data (htod32a s.byteorder id) ++ next))
      → IsChunks (c ∷ cs)
      → length (joined (c ∷ cs)) < 2 ^ 32
      → length cs < rounds
      → length (joined (c ∷ cs)) + 20 ≤ fuel
      → Returns (Payload port pending law (joined (c ∷ cs)) next s) (tcp_getdata port rounds fuel s)
  unfolding tcp_getdata
  tcp_getdata-Payload rounds fuel id c cs next s v e h small enough f =
      let order = s.byteorder in
      let total = length (joined (c ∷ cs)) in
      let bytes = joined (c ∷ cs) in
      let stop = λ (o : ℕ). packet o 12 type_end_data (htod32a order id) ++ next in
      let chunks = λ (o : ℕ). wire_chunks o (htod32a order id) (c ∷ cs) in
      let read = λ (total : ℕ). read_packets port rounds fuel total false [] in
      Returns->>= (Got bytes next s) (Payload port pending law bytes next s)
        (tcp_read_control port fuel >>= check_start port >>= read >>= read_end port fuel)
        (λ b. pure (some b)) s
        (Returns->>= (Got (false, bytes) (stop order) s) (Got bytes next s)
          (tcp_read_control port fuel >>= check_start port >>= read) (read_end port fuel) s
          (Returns->>= (Got total (chunks order ++ stop order) s)
            (Got (false, bytes) (stop order) s) (tcp_read_control port fuel >>= check_start port)
            read s (start-Got fuel total id (chunks order ++ stop order) s v e small (omega arith))
            λ n t g. rw g.result (
              Returns-weaken (Got (false, bytes) (stop order) t) (Got (false, bytes) (stop order) s)
                (read total t)
                (read_packets-Got rounds fuel total (htod32a order id) [] c cs (stop order) t
                  g.sound (g.left ∙ ap (λ o. chunks o ++ stop order) (sym g.same.byteorder)) refl h
                  (omega arith) (omega arith) enough)
                (λ out u k. record {
                  result = k.result;
                  left = k.left;
                  sound = k.sound;
                  same = SameSession-trans g.same k.same;
                })))
          λ r t g. rw g.result (
            Returns-weaken (Got bytes next t) (Got bytes next s)
              (read_end port fuel (false, bytes) t)
              (read_end-Got fuel id bytes next t g.sound
                (g.left
                  ∙ ap (λ o. packet o 12 type_end_data (htod32a o id) ++ next)
                      (sym g.same.byteorder))
                (omega arith))
              (λ out u k. record {
                result = k.result;
                left = k.left;
                sound = k.sound;
                same = SameSession-trans g.same k.same;
              })))
        λ out t g. record {
          result = ap some g.result;
          left = g.left;
          sound = g.sound;
          same = g.same;
        }
