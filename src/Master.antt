-- ===== src/Master.antt =====
-- src/hako/data/hako_master_data.hpp and hako_base_data.hpp: the master data in shared memory.
pub mod Types
pub mod Assets
pub mod Table
pub mod WellFormed
pub mod Registry
