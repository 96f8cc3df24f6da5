-- ===== src/Ptp/Tcp/SendData.antt =====
-- What `ptp_tcp_senddata` puts on the socket.
use chdkptp_astro.Base.{ℕ, ◌+◌, ◌≡◌, List, [], ◌∷◌, length, take}
use chdkptp_astro.Ptp.State.{Port}
use chdkptp_astro.Ptp.Container.{Container, field32}
use chdkptp_astro.Ptp.Usb.SendData.{Records}
use chdkptp_astro.Ptp.Tcp.{type_start_data, type_data, type_end_data, host64}

module _ {D : Type 0} (port : Port D) (log : D → List ℕ) (law : Records port log) where
  -- The three packets of a data phase with `n` bytes of data, as a reader sees them: the start packet
  -- with the transaction and the size, the header of one packet for all the data, whose
  -- transaction is 0, and the end packet, whose length is in the order of the host.
  pub record IsDataPhase (order id n : ℕ) (start body end : List ℕ) : Type 0 where
    pub start_size : length start ≡ 20
    pub start_len : field32 order start 0 ≡ 20
    pub start_type : field32 order start 4 ≡ type_start_data
    pub start_id : field32 order start 8 ≡ id
    pub total : host64 start 12 ≡ n
    pub data_size : length body ≡ 12
    pub data_len : field32 order body 0 ≡ 12 + n
    pub data_type : field32 order body 4 ≡ type_data
    pub data_id : field32 order body 8 ≡ 0
    pub end_size : length end ≡ 12
    pub end_len : take 4 end ≡ 12 ∷ 0 ∷ 0 ∷ 0 ∷ []
    pub end_type : field32 order end 4 ≡ type_end_data
    pub end_id : field32 order end 8 ≡ id
