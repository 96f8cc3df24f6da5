-- ===== src/Ptp/Usb/Response.antt =====
-- What `ptp_usb_getresp` returns for a response container on the pipe.
use chdkptp_astro.Base.{
  ℕ, ◌+◌, ◌*◌, ◌^◌, ◌<◌, ◌≡◌, ap, ◌∙◌, List, [], ◌∷◌, ◌++◌, length, arith, length-append, get_or,
}
use chdkptp_astro.Ptp.Codes.{bulk_hdr_len, container_response}
use chdkptp_astro.Ptp.Endian.{dtoh32, htod32}
use chdkptp_astro.Ptp.Endian.Laws.{dtoh32-htod32, htod32-lt}
use chdkptp_astro.Ptp.Pack.Arrays.Laws.{words32, AllBelow, length-words32}
use chdkptp_astro.Ptp.Container.{field32}
use chdkptp_astro.Ptp.Usb.{header}

dtoh32-zero : (order : ℕ) → dtoh32 order 0 ≡ 0
unfolding dtoh32
dtoh32-zero order = ground arith

word_first :
    (order : ℕ) (ps : List ℕ)
    → AllBelow (2 ^ 32) ps
    → field32 order (words32 order ps) 0 ≡ get_or ps 0 0
unfolding words32
word_first order [] h = dtoh32-zero order
word_first order (p ∷ ps) h =
    let k : htod32 order p < 2 ^ 32 = htod32-lt order p h.0 in
    ap (dtoh32 order) (omega arith) ∙ dtoh32-htod32 order p h.0

-- A response container: the header and the parameters that are there.
abbrev pub response : ℕ → ℕ → ℕ → List ℕ → List ℕ
response order code trans_id ps =
    header order (4 * length ps + bulk_hdr_len) container_response code trans_id ++ words32 order ps

pub length-response :
    (order code trans_id : ℕ) (ps : List ℕ)
    → length (response order code trans_id ps) ≡ 4 * length ps + bulk_hdr_len
length-response order code trans_id ps = omega (
  arith,
  length-append {0} (header order (4 * length ps + bulk_hdr_len) container_response code trans_id)
      (words32 order ps),
  length-words32 order ps,
)

module _ (order code trans_id : ℕ) where
  pub response_param1 :
      (ps : List ℕ)
      → AllBelow (2 ^ 32) ps
      → field32 order (response order code trans_id ps) 12 ≡ get_or ps 0 0
  response_param1 ps h = word_first order ps h

  pub response_param2 :
      (ps : List ℕ)
      → AllBelow (2 ^ 32) ps
      → field32 order (response order code trans_id ps) 16 ≡ get_or ps 1 0
  unfolding words32
  response_param2 [] h = dtoh32-zero order
  response_param2 (a ∷ ps) h = word_first order ps h.1

  pub response_param3 :
      (ps : List ℕ)
      → AllBelow (2 ^ 32) ps
      → field32 order (response order code trans_id ps) 20 ≡ get_or ps 2 0
  unfolding words32
  response_param3 [] h = dtoh32-zero order
  response_param3 (a ∷ []) h = dtoh32-zero order
  response_param3 (a ∷ b ∷ ps) h = word_first order ps h.1.1

  pub response_param4 :
      (ps : List ℕ)
      → AllBelow (2 ^ 32) ps
      → field32 order (response order code trans_id ps) 24 ≡ get_or ps 3 0
  unfolding words32
  response_param4 [] h = dtoh32-zero order
  response_param4 (a ∷ []) h = dtoh32-zero order
  response_param4 (a ∷ b ∷ []) h = dtoh32-zero order
  response_param4 (a ∷ b ∷ c ∷ ps) h = word_first order ps h.1.1.1

  pub response_param5 :
      (ps : List ℕ)
      → AllBelow (2 ^ 32) ps
      → field32 order (response order code trans_id ps) 28 ≡ get_or ps 4 0
  unfolding words32
  response_param5 [] h = dtoh32-zero order
  response_param5 (a ∷ []) h = dtoh32-zero order
  response_param5 (a ∷ b ∷ []) h = dtoh32-zero order
  response_param5 (a ∷ b ∷ c ∷ []) h = dtoh32-zero order
  response_param5 (a ∷ b ∷ c ∷ d ∷ ps) h = word_first order ps h.1.1.1.1

  pub response_trans_id :
      (ps : List ℕ)
      → trans_id < 2 ^ 32
      → field32 order (response order code trans_id ps) 8 ≡ trans_id
  response_trans_id ps h =
      let k : htod32 order trans_id < 2 ^ 32 = htod32-lt order trans_id h in
      ap (dtoh32 order) (omega arith) ∙ dtoh32-htod32 order trans_id h
