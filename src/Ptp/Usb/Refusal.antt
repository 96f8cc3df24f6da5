-- ===== src/Ptp/Usb/Refusal.antt =====
-- `ptp_usb_getresp` on a response of another code than PTP_RC_OK.
use chdkptp_astro.Base.{
  ℕ, ◌+◌, ◌*◌, ◌^◌, ◌≤◌, ◌<◌, ◌≡◌, refl, sym, ap, ap₂, ◌∙◌, List, ◌++◌, false, length, arith, ◌==◌,
}
use chdkptp_astro.Ptp.Codes.{rc_ok, bulk_hdr_len, container_response}
use chdkptp_astro.Ptp.State.{
  Port, Params, Outcome, done, failed, overrun, diverged, M, ◌>>=◌, Returns,
}
use chdkptp_astro.Ptp.Container.{Container, field16}
use chdkptp_astro.Ptp.Transport.Buffer.{IsBuffer}
use chdkptp_astro.Ptp.Transport.Fill.{Delivers, SameSession}
use chdkptp_astro.Ptp.Transport.Delivery.{view, SameSession-trans}
use chdkptp_astro.Ptp.Usb.{usb_read_control, take_response, usb_getresp}
use chdkptp_astro.Ptp.Usb.Header.{header_type, header_code, Reads}
use chdkptp_astro.Ptp.Usb.Response.{response}
use chdkptp_astro.Ptp.Usb.GetResp.{read_control_response}

-- The run ends in the error `c`, and its final state is as `Q` says.
abbrev pub Fails : {D A : Type 0} → ℕ → (Params D → Type 0) → Outcome D A → Type 0
Fails c Q o = elim o [ done a s ↦ ⊥ | failed e s ↦ (e ≡ c) × Q s | overrun ↦ ⊥ | diverged ↦ ⊥ ]

-- The second part of a sequence fails after what the first ensures.
pub Returns-Fails :
    {D A B : Type 0} (P : A → Params D → Type 0) (c : ℕ) (Q : Params D → Type 0) (m : M D A)
    (f : A → M D B) (s : Params D)
    → Returns P (m s)
    → ((a : A) (t : Params D) → P a t → Fails c Q (f a t))
    → Fails c Q ((m >>= f) s)
Returns-Fails {D} {A} {B} P c Q m f s h k = go (m s) h
  where
    go :
        (o : Outcome D A)
        → Returns P o
        → Fails c Q (elim o [
          | done a t ↦ f a t
          | failed e t ↦ failed e t
          | overrun ↦ overrun
          | diverged ↦ diverged
        ])
    go (done a t) p = k a t p
    go (failed e t) p = elim p [ ]
    go overrun p = elim p [ ]
    go diverged p = elim p [ ]

-- The first part of a sequence fails.
pub Fails->>= :
    {D A B : Type 0} (c : ℕ) (Q : Params D → Type 0) (m : M D A) (f : A → M D B) (s : Params D)
    → Fails c Q (m s)
    → Fails c Q ((m >>= f) s)
Fails->>= {D} {A} {B} c Q m f s h = go (m s) h
  where
    go :
        (o : Outcome D A)
        → Fails c Q o
        → Fails c Q (elim o [
          | done a t ↦ f a t
          | failed e t ↦ failed e t
          | overrun ↦ overrun
          | diverged ↦ diverged
        ])
    go (done a t) p = elim p [ ]
    go (failed e t) p = p
    go overrun p = elim p [ ]
    go diverged p = elim p [ ]

module _ {D : Type 0} (port : Port D) (pending : D → List ℕ) (law : Delivers port pending) where
  -- The connection is ready for the next transaction.
  pub record Ready (next : List ℕ) (s t : Params D) : Type 0 where
    pub left : view pending t ≡ next
    pub sound : IsBuffer t.pkt_buf
    pub same : SameSession s t

  take_response_refused :
      (resp : Container) (pkt : List ℕ) (code : ℕ) (t : Params D)
      → field16 t.byteorder pkt 4 ≡ container_response
      → field16 t.byteorder pkt 6 ≡ code
      → ¬ code ≡ rc_ok
      → ¬ code ≡ resp.code
      → take_response port resp pkt t ≡ failed code t
  unfolding take_response
  take_response_refused resp pkt code t e4 e6 n m =
      let a : (code == rc_ok) ≡ false = ground arith in
      let b : (code == resp.code) ≡ false = ground arith in rw (e4, e6, a, b) refl

  pub usb_getresp-Fails :
      (fuel : ℕ) (resp : Container) (code trans_id : ℕ) (ps next : List ℕ) (s t : Params D)
      → IsBuffer t.pkt_buf
      → SameSession s t
      → view pending t ≡ response s.byteorder code trans_id ps ++ next
      → code < 2 ^ 16
      → ¬ code ≡ rc_ok
      → ¬ code ≡ resp.code
      → length ps ≤ 5
      → 20 ≤ fuel
      → Fails code (Ready next s) (usb_getresp port fuel resp t)
  unfolding usb_getresp
  usb_getresp-Fails fuel resp code trans_id ps next s t v same e small n m few f =
      let order = t.byteorder in
      let all = response order code trans_id ps in
      let len = 4 * length ps + bulk_hdr_len in
      Returns-Fails (Reads port pending law all next t) code (Ready next s)
        (usb_read_control port fuel) (take_response port resp) t
        (read_control_response port pending law fuel code trans_id ps next t v
          (e ∙ ap (λ o. response o code trans_id ps ++ next) (sym same.byteorder)) few f)
        λ out u r.
          rw
            (take_response_refused resp out code u
              (ap₂ (λ o l. field16 o l 4) r.same.byteorder r.result
                ∙ header_type order len container_response code trans_id (omega arith))
              (ap₂ (λ o l. field16 o l 6) r.same.byteorder r.result
                ∙ header_code order len container_response code trans_id small)
              n m)
            (refl, record { left = r.left; sound = r.sound; same = SameSession-trans same r.same })
