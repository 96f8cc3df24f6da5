-- ===== src/Ptp/Pack.antt =====
-- ptp-pack.c: the datasets of the protocol, to and from bytes.
pub mod Text
pub mod Arrays
pub mod Located
pub mod DeviceInfo
pub mod StorageInfo
pub mod ObjectInfo
pub mod Property
