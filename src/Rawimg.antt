-- ===== src/Rawimg.antt =====
-- rawimg.c: packed raw sensor images in memory.
mod Tests
pub mod Bytes
pub mod Digits
pub mod Fields
pub mod Block
pub mod Kept
pub mod Packed10
pub mod Packed12
pub mod Packed14
pub mod Pointers
pub mod Whole
pub mod Format
pub mod Raster
pub mod Image
