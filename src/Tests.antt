-- ===== src/Tests.antt =====
-- The operations at concrete inputs: small runs of each part of the code.
mod Locks
mod Assets
mod Registry
mod Channels
mod Times
mod Runs
mod Lifecycle
mod Files
mod Semaphores
mod Windows
mod Sessions
mod SpinLock
