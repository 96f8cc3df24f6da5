-- ===== src/Ptp/State.antt =====
-- The connection state of ptp.h (`PTPParams`, `PTPPacketBuffer`), and the way an operation on it
-- ends. The raw I/O functions, which reach libusb or a socket, are a parameter of the model.
use chdkptp_astro.Base.{ℕ, List}

-- `int pos, len` are never negative, so they are natural numbers here.
pub record PacketBuffer : Type 0 where
  pub bytes : List ℕ
  pub pos : ℕ
  pub len : ℕ

-- What `params->read_func` returns: the bytes that it stored, or a negative result.
pub data Received : Type 0 where
  got : List ℕ → Received
  broken : Received

-- `read_func` and `write_func` over the state `D` of what lies behind `params->data`.
-- `write_func` returns a PTP code.
pub record Port (D : Type 0) : Type 0 where
  pub read_func : ℕ → D → Received × D
  pub write_func : List ℕ → D → ℕ × D

pub record Params (D : Type 0) : Type 0 where
  pub byteorder : ℕ
  pub transaction_id : ℕ
  pub session_id : ℕ
  pub max_packet_size : ℕ
  pub pkt_buf : PacketBuffer
  pub device : D

-- A function of ptp.c returns PTP_RC_OK with a result, or another code. `overrun` is an access
-- beyond an object, or another step for which C promises nothing. `diverged` says that the fuel of a
-- loop ran out.
pub data Outcome (D A : Type 0) : Type 0 where
  done : A → Params D → Outcome D A
  failed : ℕ → Params D → Outcome D A
  overrun diverged : Outcome D A

abbrev pub M : Type 0 → Type 0 → Type 0
M D A = Params D → Outcome D A

infixl 5 ◌>>=◌
abbrev pub ◌>>=◌ : {D A B : Type 0} → M D A → (A → M D B) → M D B
◌>>=◌ m f s = elim (m s) [
  | done a s' ↦ f a s'
  | failed c s' ↦ failed c s'
  | overrun ↦ overrun
  | diverged ↦ diverged
]

abbrev pub pure : {D A : Type 0} → A → M D A
pure a s = done a s

abbrev pub fail : {D A : Type 0} → ℕ → M D A
fail c s = failed c s

-- The run ends in PTP_RC_OK, and its result and final state are as `P` says.
abbrev pub Returns : {D A : Type 0} → (A → Params D → Type 0) → Outcome D A → Type 0
Returns P o = elim o [ done a s ↦ P a s | failed c s ↦ ⊥ | overrun ↦ ⊥ | diverged ↦ ⊥ ]

-- The rule for a sequence: what the first part ensures is what the second may use.
pub Returns->>= :
    {D A B : Type 0} (P : A → Params D → Type 0) (Q : B → Params D → Type 0) (m : M D A)
    (f : A → M D B) (s : Params D)
    → Returns P (m s)
    → ((a : A) (t : Params D) → P a t → Returns Q (f a t))
    → Returns Q ((m >>= f) s)
Returns->>= {D} {A} {B} P Q m f s h k = go (m s) h
  where
    go :
        (o : Outcome D A)
        → Returns P o
        → Returns Q (elim o [
          | done a t ↦ f a t
          | failed c t ↦ failed c t
          | overrun ↦ overrun
          | diverged ↦ diverged
        ])
    go (done a t) p = k a t p
    go (failed c t) p = p
    go overrun p = p
    go diverged p = p

pub Returns-weaken :
    {D A : Type 0} (P Q : A → Params D → Type 0) (o : Outcome D A)
    → Returns P o
    → ((a : A) (t : Params D) → P a t → Q a t)
    → Returns Q o
Returns-weaken P Q (done a t) p k = k a t p
Returns-weaken P Q (failed c t) p k = p
Returns-weaken P Q overrun p k = p
Returns-weaken P Q diverged p k = p
