-- ===== src/Pdu.antt =====
-- src/hako/data/hako_pdu_data.hpp: `HakoPduData`, the channels by which assets exchange data.
pub mod Types
pub mod Channels
pub mod Area
pub mod Transfer
pub mod Sync
pub mod Layout
pub mod Memory
pub mod Cache
pub mod Register
pub mod Late
pub mod SpinLock
pub mod Sharing
pub mod Reset
pub mod RoundTrip
