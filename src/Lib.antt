-- ===== src/Lib.antt =====
-- A model of the core of Hakoniwa (C++): a simulation hub in which processes, the assets, share data
-- and a clock through shared memory. A master process conducts them.
--
-- The parts and their files:
--   * FixedString: names in shared memory (src/hako/utils/hako_string.cpp).
--   * World: the conductor's clock (src/hako/core/simulation/time). Times are integers with no bound;
--     the code's are int64_t, whose overflow C++ leaves undefined.
--   * Identity: whether a recorded process still runs (hako_process_identity.cpp, on Linux). The OS is
--     the parameter `Os`: what kill and /proc answer.
--   * FlockWait: the bound on waits for the file lock (hako_flock_wait.cpp).
--   * Flock: the lock of a file (impl/posix/hako_flock.cpp), with the answers of flock as an argument.
--   * Windows: the same lock and the maps of files on Windows (src/hako/utils/hako_share/impl/win), over
--     what the Windows API answers. `Processes` is many processes at one file, of which LockFileEx locks byte ranges.
--   * Semaphores: the semaphores of System V (impl/posix/hako_sem.cpp), over the kernel's calls, with
--     what they promise in `IsKernel`, and the processes that use them.
--   * SharedMemory: the memory of a key (hako_shared_memory_mmap.cpp and posix/hako_mmap.cpp). A file is
--     never removed, so the mappings of a key are of one file. The system's answers are arguments.
--   * SystemV: the memory of a key over the segments of System V (posix/hako_shared_memory_shm.cpp). The
--     kernel's calls are the parameter `Kernel`, with what they promise in `IsKernel`.
--   * Command: the command line tool (sample/base-procs/hako-cmd/src/hako_cmd.cpp). `atoi`, files and
--     the content of new memory are arguments.
--   * Entry: the pointers of a process to the master data and the controllers (hako_impl.cpp), over any
--     memory `Memory` that has the operations of hako_shared_memory.hpp; `Backend` is the one by mmap,
--     and `OverSystemV` the other one.
--   * MasterLock: the lock in flock.bin (hako_sem_flock.cpp and hako_master_lock.hpp). Each call works
--     on the file under the lock of the OS, so a round is a function on the file. A write that fails is
--     taken to leave the file as it is. `System` runs the calls of many processes in any order.
--     `Diagnosis` is the inspection from outside.
--   * Master: the table of assets (src/hako/data/hako_master_data.hpp). The two arrays of entries and
--     events are one list of slots, as long as HAKO_DATA_MAX_ASSET_NUM. `Registry` is the set of names
--     that the table stands for.
--   * SimEvent: the state machine of the simulation (hako_simevent_impl.cpp), `notify` of
--     core/rpc/hako_internal_rpc.cpp, and the feedback of hako_asset_impl.cpp. What a client's callback
--     does to the data is the parameter `Host.invoke`.
--   * Pdu: the channels of data (src/hako/data/hako_pdu_data.hpp). A spin loop that has to wait gives
--     `spins`, and memory accessed outside of the area `faults`.
--     `SpinLock` is the locks of the extension, one step for each access to a flag, whose stores wait in a
--     buffer before they reach the memory. The accesses of read_pdu and write_pdu are not interleaved.
--   * Controller: the calls of an asset (hako_asset_impl.cpp), by its name and the names of channels, and
--     the thread that calls its callbacks (core/rpc/hako_internal_rpc.cpp). A call that waits for this
--     thread while its asset is in use is `spins`.
--   * Conductor: the step of the master (src/hako/hako_master_impl.cpp), which joins the event handling,
--     the clock and the area. Its `faults` also stands for a null pointer.
--     `Lifecycle` is the way from a start to the first step of the clock.
--   * MemoryLog: the log in shared memory (hako_master_data.hpp). A message is the text that vsnprintf makes.
--     `Overrun` is processes that log at the same time.
--   * Tests: runs at concrete inputs.
--
-- The master changes the table of assets under the master lock; the event handling reads the feedback
-- that assets leave in the table; assets exchange their data in the channels, whose area is made once.
--
-- All loops are over lists or counted, so no fuel is used. `lock_loop` takes the rounds that a call of
-- `master_lock` meets, and is `waiting` as long as it has not ended; so do the loops of Flock, where the
-- limit and the pause of 20 milliseconds bound the rounds.
--
-- The build is without FIX_PDU_CREATE_TIMING and, but for `Pdu.SpinLock`, HAKO_CORE_EXTENSION, and but
-- for Windows the one of Linux. Not modelled: console output, the texts of errors, the logger, the
-- reader of the configuration, and the sample programs but the command line tool.
pub mod Prelude
pub mod FixedString
pub mod Windows
pub mod World
pub mod Master
pub mod SimEvent
pub mod Pdu
pub mod Conductor
pub mod MemoryLog
pub mod Controller
pub mod Command
pub mod Identity
pub mod FlockWait
pub mod Flock
pub mod MasterLock
pub mod SharedMemory
pub mod SystemV
pub mod Semaphores
pub mod Entry
pub mod Tests
