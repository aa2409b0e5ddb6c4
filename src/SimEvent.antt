-- ===== src/SimEvent.antt =====
-- src/hako/hako_simevent_impl.cpp, src/hako/hako_simevent_states.hpp and `notify` of
-- src/hako/core/rpc/hako_internal_rpc.cpp: the state machine of the simulation.
-- The build does not set FIX_PDU_CREATE_TIMING. Diagnostic output is left out.
pub mod Publish
pub mod Handling
pub mod Broadcast
pub mod Barrier
pub mod Removal
pub mod Timeouts
pub mod Starting
