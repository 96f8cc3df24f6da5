-- ===== src/Ptp/Operations/OverUsb.antt =====
-- Operations that receive a dataset, over USB.
use chdkptp_astro.Base.{
  ℕ, ◌+◌, ◌^◌, ◌≤◌, ◌<◌, ◌≡◌, refl, List, [], ◌++◌, Option, none, some, length, arith,
}
use chdkptp_astro.Ptp.Codes.{rc_ok, bulk_hdr_len, container_data}
use chdkptp_astro.Ptp.State.{Port, Params, ◌>>=◌, Returns, Returns->>=}
use chdkptp_astro.Ptp.Container.{Container}
use chdkptp_astro.Ptp.Pack.Arrays.{unpack_oh}
use chdkptp_astro.Ptp.Pack.Arrays.Laws.{AllBelow}
use chdkptp_astro.Ptp.Pack.Located.{wire_array32, At-whole, unpack_uint32_array-At}
use chdkptp_astro.Ptp.Pack.DeviceInfo.{unpack_di}
use chdkptp_astro.Ptp.Pack.DeviceInfo.Layout.{
  Description, IsDescription, wire, described, unpack_di-wire,
}
use chdkptp_astro.Ptp.Transport.Buffer.{IsBuffer}
use chdkptp_astro.Ptp.Transport.Fill.{Delivers, SameSession}
use chdkptp_astro.Ptp.Transport.Delivery.{view}
use chdkptp_astro.Ptp.Usb.{header}
use chdkptp_astro.Ptp.Usb.Response.{response}
use chdkptp_astro.Ptp.Transaction.{dp_getdata, counted, transaction, usb_link}
use chdkptp_astro.Ptp.Transaction.OverUsb.{Answers, Completed, transaction_getdata}
use chdkptp_astro.Ptp.Operations.{
  unpack_with, defined, request0, request3, getdeviceinfo, getobjecthandles,
}

module _ {D : Type 0} (port : Port D) (pending : D → List ℕ) (law : Delivers port pending) where
  -- The camera takes the request and replies with the data `bytes`, fewer than 2 ^ 31, and an OK response, and there is
  -- fuel for that.
  pub record Replies (fuel : ℕ) (ptp : Container) (bytes : List ℕ) (s : Params D) : Type 0 where
    pub data_id : ℕ
    pub trans_id : ℕ
    pub ps : List ℕ
    pub next : List ℕ
    pub sound : IsBuffer s.pkt_buf
    pub answers : Answers port pending law ptp s (
        header s.byteorder (length bytes + bulk_hdr_len) container_data ptp.code data_id
        ++ (bytes ++ (response s.byteorder rc_ok trans_id ps ++ next)))
    pub known_code : ptp.code < 2 ^ 16
    pub fits : length bytes < 2 ^ 31
    pub trans_id_small : trans_id < 2 ^ 32
    pub few : length ps ≤ 5
    pub small : AllBelow (2 ^ 32) ps
    pub enough_fuel : length bytes + 20 ≤ fuel

  -- The transaction of such a reply.
  pub Replies-Completed :
      {fuel : ℕ} {ptp : Container} {bytes : List ℕ} {s : Params D} (r : Replies fuel ptp bytes s)
      → Returns
          (Completed port pending law r.trans_id r.ps (some bytes) r.next s)
          (transaction (usb_link port fuel) ptp dp_getdata [] s)
  Replies-Completed {fuel} {ptp} {bytes} {s} r =
      transaction_getdata port pending law fuel ptp r.data_id r.trans_id bytes r.ps r.next s r.sound
        r.answers r.known_code r.fits r.trans_id_small r.few r.small r.enough_fuel

  -- The operation returns `a`, and the connection is ready for the next one.
  pub record Obtained {A : Type 0} (a : A) (next : List ℕ) (s : Params D) (out : A) (t : Params D)
      : Type 0 where
    pub value : out ≡ a
    pub left : view pending t ≡ next
    pub sound : IsBuffer t.pkt_buf
    pub same : SameSession (counted s) t

  unpack_with-Obtained :
      {A : Type 0} (f : ℕ → List ℕ → Option A) (a : A) {fuel : ℕ} {ptp : Container} {bytes : List ℕ}
      {s : Params D} (r : Replies fuel ptp bytes s)
      → f s.byteorder bytes ≡ some a
      → (out : Container × Option (List ℕ)) (t : Params D)
      → Completed port pending law r.trans_id r.ps (some bytes) r.next s out t
      → Returns (Obtained a r.next s) (unpack_with f out t)
  unfolding unpack_with defined
  unpack_with-Obtained f a r e (reply, none) t h = cc h.result
  unpack_with-Obtained f a {bytes} {s} r e (reply, some got) t h =
      let same_data : got ≡ bytes = cc h.result in
      let here : f t.byteorder got ≡ some a = rw (same_data, h.same.byteorder) e in
      rw here (record { value = refl; left = h.left; sound = h.sound; same = h.same })

  -- What an operation makes of its data, it returns.
  pub receive-Obtained :
      {A : Type 0} (f : ℕ → List ℕ → Option A) (a : A) {fuel : ℕ} {ptp : Container} {bytes : List ℕ}
      {s : Params D} (r : Replies fuel ptp bytes s)
      → f s.byteorder bytes ≡ some a
      → Returns
          (Obtained a r.next s)
          ((transaction (usb_link port fuel) ptp dp_getdata [] >>= unpack_with f) s)
  receive-Obtained f a {fuel} {ptp} {bytes} {s} r e =
      Returns->>= (Completed port pending law r.trans_id r.ps (some bytes) r.next s)
        (Obtained a r.next s) (transaction (usb_link port fuel) ptp dp_getdata []) (unpack_with f) s
        (Replies-Completed r) (unpack_with-Obtained f a r e)

  -- `ptp_getdeviceinfo` over USB: when the camera replies (`Replies`) with the dataset of a
  -- description whose fields fit their types and that is shorter than 64 KiB, the operation
  -- returns that description, and the connection is ready for the next operation.
  pub getdeviceinfo-Obtained :
      (fuel : ℕ) (d : Description) (s : Params D)
      → IsDescription d
      → length (wire s.byteorder d) < 2 ^ 16
      → (r : Replies fuel (request0 0x1001) (wire s.byteorder d) s)
      → Returns (Obtained (described d) r.next s) (getdeviceinfo (usb_link port fuel) s)
  unfolding getdeviceinfo
  getdeviceinfo-Obtained fuel d s v near r =
      receive-Obtained unpack_di (described d) r (unpack_di-wire s.byteorder d v near)

  -- `ptp_getobjecthandles` over USB: when the camera replies (`Replies`) with an array of 32 bit
  -- handles of fewer than 2 ^ 31 bytes, the operation returns these handles, and the connection is ready for the next
  -- operation.
  pub getobjecthandles-Obtained :
      (fuel storage format parent : ℕ) (handles : List ℕ) (s : Params D)
      → length handles < 2 ^ 32
      → AllBelow (2 ^ 32) handles
      → (r : Replies fuel
          (request3 0x1007 storage format parent)
          (wire_array32 s.byteorder handles)
          s)
      → Returns
          (Obtained handles r.next s)
          (getobjecthandles (usb_link port fuel) storage format parent s)
  unfolding getobjecthandles unpack_oh
  getobjecthandles-Obtained fuel storage format parent handles s few small r =
      receive-Obtained unpack_oh handles r (
        unpack_uint32_array-At s.byteorder handles (At-whole (wire_array32 s.byteorder handles))
          (omega arith) few small)
