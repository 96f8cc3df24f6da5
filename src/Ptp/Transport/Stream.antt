-- ===== src/Ptp/Transport/Stream.antt =====
-- The promise of the transport: the bytes of the device arrive once, in order, however the
-- device cuts its transfers and however much the buffer took in advance.
use chdkptp_astro.Base.{
  ℕ, ◌+◌, ◌-◌, ◌≤◌, ◌<◌, min, List, ◌++◌, ◌≡◌, refl, ◌∙◌, false, ltb, ◌==◌, length, take, drop,
  arith, length-take, length-drop, take-add, drop-drop, append-nil, Bool-cases, inl, inr,
}
use chdkptp_astro.Ptp.State.{PacketBuffer}
use chdkptp_astro.Ptp.Transport.Buffer.{read_from_buffer, contents, IsBuffer}

-- A take from the buffer gives a prefix of its contents, leaves the rest, and keeps it in order.
pub record TakesPrefix (b : PacketBuffer) (n : ℕ) (r : List ℕ × PacketBuffer) : Type 0 where
  pub split : r.0 ++ contents r.1 ≡ contents b
  pub count : length r.0 ≡ min n b.len
  pub left : r.1.len ≡ b.len - n
  pub sound : IsBuffer r.1

pub length-contents : (b : PacketBuffer) → IsBuffer b → length (contents b) ≡ b.len
length-contents b v =
    omega (arith, length-take b.len (drop b.pos b.bytes), length-drop b.pos b.bytes)

take_some :
    (b : PacketBuffer) (n : ℕ)
    → IsBuffer b
    → n ≤ b.len
    → take n (drop b.pos b.bytes) ++ take (b.len - n) (drop (b.pos + n) b.bytes) ≡ contents b
take_some b n v h =
    let e : n + (b.len - n) ≡ b.len = omega arith in
    rw (← drop-drop b.pos n b.bytes) (take-add n (b.len - n) (drop b.pos b.bytes) ∙ rw e)

pub read_from_buffer-TakesPrefix :
    (b : PacketBuffer) (n : ℕ) → IsBuffer b → TakesPrefix b n (read_from_buffer b n)
unfolding read_from_buffer
read_from_buffer-TakesPrefix b n v = elim (Bool-cases (b.len == 0)) [
  | inl e ↦ rw e (record { split = refl; count = ground arith; left = ground arith; sound = v })
  | inr e ↦ elim (Bool-cases (ltb n b.len)) [
    | inl h ↦
        let f : (b.len - n == 0) ≡ false = ground arith in
        let fits : n < b.len = ground arith in
        rw (e, h, f)
          (record {
            split = take_some b n v (omega arith);
            count = omega (arith, length-take n (drop b.pos b.bytes), length-drop b.pos b.bytes, v);
            left = refl;
            sound = record {
              full_size = v.full_size;
              within = omega (arith, v);
              rewound = λ z. absurd (omega arith);
            };
          })
    | inr h ↦
        let f : b.len - b.len ≡ 0 = omega arith in
        let all : b.len ≤ n = ground arith in
        rw (e, h, f)
          (record {
            split = append-nil (contents b);
            count = omega (arith, length-contents b v);
            left = omega arith;
            sound = record { full_size = v.full_size; within = omega arith; rewound = λ z. refl };
          })
  ]
]
