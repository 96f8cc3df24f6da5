-- ===== src/Ptp/Usb/SendData.antt =====
-- What `ptp_usb_senddata` puts on the pipe.
use chdkptp_astro.Base.{
  ℕ, ◌+◌, ◌-◌, ◌%◌, ◌^◌, ◌≡◌, refl, sym, ap, ◌∙◌, List, [], ◌++◌, ltb, ◌==◌, length, take, drop,
  append_assoc, append-nil, take-append-drop, drop_all, subst, Bool-cases, inl, inr, bit_and,
  not_ltb→le,
}
use chdkptp_astro.Ptp.Codes.{rc_ok, bulk_hdr_len, bulk_payload_len, container_data}
use chdkptp_astro.Ptp.State.{Port, Params, ◌>>=◌, Returns, Returns->>=, Returns-weaken}
use chdkptp_astro.Ptp.Endian.{htod32}
use chdkptp_astro.Ptp.Container.{Container, send}
use chdkptp_astro.Ptp.Transport.Fill.{SameSession}
use chdkptp_astro.Ptp.Transport.Delivery.{SameSession-refl, SameSession-trans}
use chdkptp_astro.Ptp.Usb.{header, send_rest, end_transfer, usb_senddata}

-- The device takes every write, and `log d` are the bytes that it took, in order.
pub record Records {D : Type 0} (port : Port D) (log : D → List ℕ) : Type 0 where
  pub accepts : (bs : List ℕ) (d : D) → (port.write_func bs d).0 ≡ rc_ok
  pub appends : (bs : List ℕ) (d : D) → log (port.write_func bs d).1 ≡ log d ++ bs

module _ {D : Type 0} (port : Port D) (log : D → List ℕ) (law : Records port log) where
  -- Exactly `bs` went out, and the rest of the connection is as it was.
  pub record Sent (bs : List ℕ) (s : Params D) (u : Unit {0}) (t : Params D) : Type 0 where
    pub logged : log t.device ≡ log s.device ++ bs
    pub buffer : t.pkt_buf ≡ s.pkt_buf
    pub same : SameSession s t

  pub send-Sent : (bs : List ℕ) (s : Params D) → Returns (Sent bs s) (send port bs s)
  unfolding send
  send-Sent bs s = rw (law.accepts bs s.device) (record {
    logged = law.appends bs s.device;
    buffer = refl;
    same = record {
      byteorder = refl;
      transaction_id = refl;
      session_id = refl;
      max_packet_size = refl;
    };
  })

  send_rest-Sent :
      (bs : List ℕ) (s : Params D)
      → Returns (Sent (drop bulk_payload_len bs) s) (send_rest port bs s)
  unfolding send_rest
  send_rest-Sent bs s = elim (Bool-cases (ltb bulk_payload_len (length bs))) [
    | inl e ↦ rw e (send-Sent (drop bulk_payload_len bs) s)
    | inr e ↦
        let none_left : drop bulk_payload_len bs ≡ [] =
          drop_all bulk_payload_len bs (not_ltb→le _ _ e) in
        rw (e, none_left)
          (record {
            logged = sym (append-nil (log s.device));
            buffer = refl;
            same = SameSession-refl;
          })
  ]

  end_transfer-Sent :
      (bs : List ℕ) (len : ℕ) (s : Params D) → Returns (Sent [] s) (end_transfer port bs len s)
  unfolding end_transfer
  end_transfer-Sent bs len s =
      elim (Bool-cases (
        bit_and (htod32 s.byteorder (len % 2 ^ 32)) ((s.max_packet_size + 2 ^ 32 - 1) % 2 ^ 32)
        == 0)) [
          | inl e ↦ rw e (record {
            logged = law.appends [] s.device;
            buffer = refl;
            same = record {
              byteorder = refl;
              transaction_id = refl;
              session_id = refl;
              max_packet_size = refl;
            };
          })
          | inr e ↦ rw e (record {
            logged = sym (append-nil (log s.device));
            buffer = refl;
            same = SameSession-refl;
          })
        ]

  pub Sent-append :
      {bs cs : List ℕ} {s t v : Params D} {u w : Unit {0}}
      → Sent bs s u t
      → Sent cs t w v
      → Sent (bs ++ cs) s w v
  Sent-append {bs} {cs} {s} a b = record {
    logged = b.logged ∙ ap (λ l. l ++ cs) a.logged ∙ append_assoc (log s.device) bs cs;
    buffer = b.buffer ∙ a.buffer;
    same = SameSession-trans a.same b.same;
  }

  -- Over a device that takes every write (`Records`), data of any size goes out as one data
  -- container, the header and then all the bytes, each once and in order, whatever the packet
  -- size of the endpoint is; nothing else of the connection changes.
  pub usb_senddata-Sent :
      (ptp : Container) (bytes : List ℕ) (s : Params D)
      → Returns
          (Sent
            (header s.byteorder
                (bulk_hdr_len + length bytes)
                container_data
                ptp.code
                ptp.transaction_id
              ++ bytes)
            s)
          (usb_senddata port ptp bytes s)
  unfolding usb_senddata
  usb_senddata-Sent ptp bytes s =
      let len = bulk_hdr_len + length bytes in
      let hdr = header s.byteorder len container_data ptp.code ptp.transaction_id in
      let first = hdr ++ take bulk_payload_len bytes in
      let both : first ++ drop bulk_payload_len bytes ≡ hdr ++ bytes =
        append_assoc hdr (take bulk_payload_len bytes) (drop bulk_payload_len bytes)
        ∙ ap (◌++◌ hdr) (take-append-drop bulk_payload_len bytes) in
      Returns->>= (Sent first s) (Sent (hdr ++ bytes) s) (send port first)
        (λ _. send_rest port bytes >>= λ _. end_transfer port bytes len) s (send-Sent first s)
        λ u t a.
          Returns->>= (Sent (drop bulk_payload_len bytes) t) (Sent (hdr ++ bytes) s)
            (send_rest port bytes) (λ _. end_transfer port bytes len) t (send_rest-Sent bytes t)
            λ u' v b.
              Returns-weaken (Sent [] v) (Sent (hdr ++ bytes) s) (end_transfer port bytes len v)
                (end_transfer-Sent bytes len v)
                (λ w x c.
                  subst (λ l. Sent l s w x) (append-nil (hdr ++ bytes))
                    (Sent-append (subst (λ l. Sent l s u' v) both (Sent-append a b)) c))
