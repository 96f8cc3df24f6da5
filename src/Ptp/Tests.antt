-- ===== src/Ptp/Tests.antt =====
-- Tests of the PTP engine on concrete inputs, and its theorems at them.
mod Cable
mod Delivery
pub mod Datasets
pub mod Session
mod Operations
mod Sending
mod Refused
