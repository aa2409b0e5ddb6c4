-- ===== src/Windows.antt =====
-- The files of the Windows backend, below src/hako/utils/hako_share/impl/win.
pub mod FileIo
pub mod Flock
pub mod Mmap
pub mod Mapped
pub mod Requests
pub mod Processes
pub mod Acquired
pub mod Ranges
pub mod Exclusion
pub mod Equivalence
