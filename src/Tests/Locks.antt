-- ===== src/Tests/Locks.antt =====
-- Two processes, and the file that they share (hako_sem_flock.cpp).
use hakoniwa_core_cpp.Prelude.{
  ◌+◌, ◌%◌, ◌^◌, pos, Bool, true, false, [], none, some, ◌≡◌, refl, arith,
}
use hakoniwa_core_cpp.Identity.{IdentityStatus, alive, dead, ProcessIdentity}
use hakoniwa_core_cpp.FlockWait.{WaitState}
use hakoniwa_core_cpp.Flock.{granted, flock_try_acquire}
use hakoniwa_core_cpp.MasterLock.Metadata.{FlockFile, Metadata, new_metadata, read_metadata}
use hakoniwa_core_cpp.MasterLock.Inspect.{inspect_locked, header_fault}
use hakoniwa_core_cpp.MasterLock.Diagnosis.{
  inspect_master_lock, inspect_master_lock-abort, inspect_locked-dead,
}
use hakoniwa_core_cpp.MasterLock.Acquire.{Verdict, done, all_ok, commit_acquire, lock_attempt}
use hakoniwa_core_cpp.MasterLock.Release.{commit_release, unlock_as}
use hakoniwa_core_cpp.MasterLock.Semaphore.{initialize_new_flock}
use hakoniwa_core_cpp.MasterLock.Shapes.{IsFree, IsHeldBy}
use hakoniwa_core_cpp.MasterLock.Protocol.{
  commit_acquire-IsHeldBy, commit_release-IsFree, lock_attempt-commit, lock_attempt-IsFree,
  unlock-IsHeldBy,
}
use hakoniwa_core_cpp.MasterLock.Startup.{initialize-IsFree}
use hakoniwa_core_cpp.MasterLock.System.{
  System, Step, locks, unlocks, here, next, same_id, mutual_exclusion, fail_stop, after_lock,
}

abbrev first : ProcessIdentity
first = record { pid = pos 101; start_token = 7001 }

abbrev second : ProcessIdentity
second = record { pid = pos 102; start_token = 7002 }

-- A file that has just been made is empty.
abbrev empty_file : FlockFile
empty_file = record { size = 0; counters = []; metadata = new_metadata }

abbrev free_file : FlockFile
free_file = initialize_new_flock empty_file

free_file-IsFree : IsFree free_file
free_file-IsFree = initialize-IsFree empty_file

abbrev held_file : FlockFile
held_file = commit_acquire first free_file.metadata free_file

held_file-IsHeldBy : IsHeldBy first held_file
held_file-IsHeldBy = commit_acquire-IsHeldBy first (pos 1) free_file free_file-IsFree.file

abbrev freed_file : FlockFile
freed_file = commit_release held_file.metadata held_file

freed_file-IsFree : IsFree freed_file
freed_file-IsFree = commit_release-IsFree (pos 0) held_file held_file-IsHeldBy.file

abbrev all_alive : ProcessIdentity → IdentityStatus
all_alive q = alive

abbrev all_dead : ProcessIdentity → IdentityStatus
all_dead q = dead

first_acquires : lock_attempt all_alive false all_ok first free_file ≡ (held_file, done)
first_acquires = lock_attempt-commit all_alive false first free_file free_file-IsFree

first_releases :
    (unlock_as all_alive all_ok first held_file ≡ (freed_file, done)) × IsFree freed_file
first_releases = unlock-IsHeldBy all_alive first held_file held_file-IsHeldBy refl

lock_attempt-IsFree_example :
    (g : FlockFile) × (lock_attempt all_alive false all_ok first free_file ≡ (g, done))
    × IsHeldBy first g
    × (g.metadata.generation ≡ (free_file.metadata.generation + 1) % 2 ^ 64)
lock_attempt-IsFree_example = lock_attempt-IsFree all_alive false first free_file free_file-IsFree

unlock-IsHeldBy_example :
    (unlock_as all_alive all_ok first held_file ≡ (freed_file, done)) × IsFree freed_file
unlock-IsHeldBy_example = unlock-IsHeldBy all_alive first held_file held_file-IsHeldBy refl

abbrev no_end : ProcessIdentity → Bool
no_end q = false

abbrev at_start : System
at_start = record { file = free_file; holder = none; has_ended = no_end }

abbrev with_first : System
with_first = record { file = held_file; holder = some first; has_ended = no_end }

abbrev after_first : System
after_first = record { file = freed_file; holder = none; has_ended = no_end }

first_locks : Step at_start with_first
first_locks = locks all_alive false all_ok first refl first_acquires

first_unlocks : Step with_first after_first
first_unlocks = unlocks all_alive all_ok first refl first_releases.0

mutual_exclusion_example : after_first.holder ≡ none
mutual_exclusion_example =
    mutual_exclusion at_start after_first refl (next (next here first_locks) first_unlocks)
      all_alive true all_ok second (commit_acquire second freed_file.metadata freed_file)
      (lock_attempt-commit all_alive true second freed_file freed_file-IsFree)

-- The first process has ended while it held the lock.
abbrev first_ended : System
first_ended = record { file = held_file; holder = none; has_ended = λ q. same_id q first }

abbrev tried : FlockFile × Verdict
tried = lock_attempt all_dead true all_ok second held_file

abbrev after_try : System
after_try = record {
  file = tried.0;
  holder = after_lock second none tried.1;
  has_ended = λ q. same_id q first;
}

fail_stop_example : (after_try.has_ended first ≡ true) × (after_try.file ≡ held_file)
fail_stop_example =
    fail_stop first {s = first_ended} {t = after_try} refl
      (record {
        owner = held_file-IsHeldBy.owner;
        taken = λ e. omega (arith, e, held_file-IsHeldBy.state);
      })
      (next here (locks all_dead true all_ok second refl refl))

-- The first process holds the lock and has ended.
abbrev no_bound : WaitState
no_bound = record { enabled = false; options = record { timeout_ms = 0; is_interrupted = false } }

looked_at :
    inspect_master_lock true no_bound false 0 0 [] granted all_dead (some held_file)
    ≡ some (inspect_locked all_dead held_file)
unfolding inspect_master_lock flock_try_acquire
looked_at = refl

inspect_master_lock-abort_example :
    (f : FlockFile) × (m : Metadata) × (some held_file ≡ some f)
    × (read_metadata f ≡ some m)
    × (header_fault m ≡ none)
    × (all_dead (record { pid = m.owner_pid; start_token = m.owner_start_token }) ≡ dead)
inspect_master_lock-abort_example =
    inspect_master_lock-abort true no_bound false 0 0 [] granted all_dead (some held_file)
      (inspect_locked all_dead held_file) looked_at
      (inspect_locked-dead all_dead first held_file held_file-IsHeldBy refl)
