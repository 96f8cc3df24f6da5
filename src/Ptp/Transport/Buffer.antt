-- ===== src/Ptp/Transport/Buffer.antt =====
-- `ptp_transport_read_from_buffer` (ptp.c), and a write at an offset of a C array.
use chdkptp_astro.Base.{
  ℕ, ◌+◌, ◌-◌, ◌≤◌, List, [], ◌++◌, ltb, ◌==◌, if◌then◌else◌, length, take, drop, ◌≡◌,
}
use chdkptp_astro.Ptp.Codes.{packet_buffer_size}
use chdkptp_astro.Ptp.State.{PacketBuffer}

-- `memcpy(base + at, bs, …)`.
abbrev pub write_at : ℕ → List ℕ → List ℕ → List ℕ
write_at at bs base = take at base ++ (bs ++ drop (at + length bs) base)

-- The bytes stored at `dst`, as many as the function returns, and the buffer left.
unfoldable pub read_from_buffer : PacketBuffer → ℕ → List ℕ × PacketBuffer
read_from_buffer b max_size =
    if b.len == 0
    then ([], b)
    else (let len = if ltb max_size b.len then max_size else b.len in
        let left = b.len - len in
        (
          take len (drop b.pos b.bytes),
          record b { len = left; pos = if left == 0 then 0 else b.pos + len },
        ))

-- The bytes that the buffer still holds.
abbrev pub contents : PacketBuffer → List ℕ
contents b = take b.len (drop b.pos b.bytes)

pub record IsBuffer (b : PacketBuffer) : Type 0 where
  pub full_size : length b.bytes ≡ packet_buffer_size
  pub within : b.pos + b.len ≤ packet_buffer_size
  pub rewound : b.len ≡ 0 → b.pos ≡ 0
