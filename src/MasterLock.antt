-- ===== src/MasterLock.antt =====
-- src/hako/utils/hako_share/impl/hako_sem_flock.cpp and hako_master_lock.hpp: the master lock of the
-- mmap backend. Its state is in one file: an array of counters and, behind it, an owner record.
pub mod Metadata
pub mod Inspect
pub mod Acquire
pub mod Release
pub mod Semaphore
pub mod Shapes
pub mod Protocol
pub mod System
pub mod Startup
pub mod Diagnosis
