-- ===== src/Ptp.antt =====
-- The PTP engine: ptp.c, ptp-pack.c and the types of ptp.h that they share.
pub mod Codes
pub mod State
pub mod Transport
pub mod Endian
pub mod Pack
pub mod Container
pub mod Usb
pub mod Tcp
pub mod Transaction
pub mod Operations
pub mod Chdk
mod Tests
