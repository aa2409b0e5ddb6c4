-- ===== src/MasterLock/Acquire.antt =====
-- hako_sem_flock.cpp: `master_lock`. One round of its loop runs under the OS file lock, so it is a
-- function on the file; between two rounds other processes may change the file.
use hakoniwa_core_cpp.Prelude.{
  ℕ, ◌+◌, ◌%◌, ◌^◌, pos, eqb_ℤ, Bool, true, false, ◌&&◌, not, if◌then◌else◌, Option, none, some,
  List, [], ◌∷◌,
}
use hakoniwa_core_cpp.Identity.{IdentityStatus, ProcessIdentity}
use hakoniwa_core_cpp.FlockWait.{WaitState, WaitError, wait_checkpoint}
use hakoniwa_core_cpp.MasterLock.Metadata.{
  LockState, unlocked, acquiring, locked, state_code, Metadata, FlockFile, read_metadata,
  write_metadata, write_counter,
}
use hakoniwa_core_cpp.MasterLock.Inspect.{
  Health, ok, abort, unknown_health, UnknownCause, identity, corrupt, system, Inspection,
  no_inspection, inspect_locked,
}

-- How a round of `master_lock`, or a call of `master_unlock`, ends.
pub data Verdict : Type 0 where
  done : Verdict
  again : Verdict
  throws : Inspection → Verdict

-- Which of the three writes of a transition succeed. One that fails is taken to leave the file.
pub record Writes : Type 0 where
  pub first_ok : Bool
  pub counter_ok : Bool
  pub last_ok : Bool

abbrev pub all_ok : Writes
all_ok = record { first_ok = true; counter_ok = true; last_ok = true }

abbrev pub is_ok : Health → Bool
is_ok ok = true
is_ok _ = false

abbrev pub is_unlocked : LockState → Bool
is_unlocked unlocked = true
is_unlocked _ = false

abbrev pub is_locked : LockState → Bool
is_locked locked = true
is_locked _ = false

abbrev pub is_identity : UnknownCause → Bool
is_identity identity = true
is_identity _ = false

abbrev pub is_unknown : Health → Bool
is_unknown unknown_health = true
is_unknown _ = false

-- The record that is written before the counter is taken, and the one after it.
unfoldable pub acquiring_record : ProcessIdentity → Metadata → Metadata
acquiring_record me m = record m {
  state = state_code acquiring;
  owner_pid = me.pid;
  owner_start_token = me.start_token;
  generation = (m.generation + 1) % 2 ^ 64;
}

unfoldable pub locked_record : ProcessIdentity → Metadata → Metadata
unfolding acquiring_record
locked_record me m = record (acquiring_record me m) { state = state_code locked }

-- The file after each of the three writes of an acquisition.
unfoldable pub begin_acquire : ProcessIdentity → Metadata → FlockFile → FlockFile
unfolding acquiring_record
begin_acquire me m f = write_metadata f (acquiring_record me m)

unfoldable pub take_counter : ProcessIdentity → Metadata → FlockFile → FlockFile
unfolding begin_acquire
take_counter me m f = write_counter (begin_acquire me m f) 0 (pos 0)

unfoldable pub commit_acquire : ProcessIdentity → Metadata → FlockFile → FlockFile
unfolding take_counter locked_record
commit_acquire me m f = write_metadata (take_counter me m f) (locked_record me m)

-- The writes of a round that has found the lock free.
unfoldable pub acquire :
    Writes → ProcessIdentity → Inspection → Metadata → FlockFile → FlockFile × Verdict
unfolding commit_acquire
acquire w me r m f =
    let lost : Inspection = record r {
      health = abort;
      owner = record r.owner { pid = me.pid };
      generation = (m.generation + 1) % 2 ^ 64;
    } in
    if not w.first_ok
    then (f, throws (record r { health = unknown_health; cause = system }))
    else if not w.counter_ok
    then (begin_acquire me m f, throws lost)
    else if not w.last_ok
    then (take_counter me m f, throws lost)
    else (commit_acquire me m f, done)

-- A round whose inspection found the lock in order.
unfoldable pub attempt_ok : Writes → ProcessIdentity → Inspection → FlockFile → FlockFile × Verdict
unfolding acquire
attempt_ok w me r f =
    if is_unlocked r.state && eqb_ℤ r.counter (pos 1)
    then elim (read_metadata f) [
      | none ↦ (f, throws (record r { health = unknown_health; cause = corrupt }))
      | some m ↦ acquire w me r m f
    ]
    else (f, again)

-- One round: inspect the file, and acquire, wait or throw. `bounded` is
-- `hako_flock_wait_is_enabled()`.
unfoldable pub lock_attempt :
    (ProcessIdentity → IdentityStatus)
    → Bool
    → Writes
    → ProcessIdentity
    → FlockFile
    → FlockFile × Verdict
unfolding attempt_ok
lock_attempt check bounded w me f =
    let r = inspect_locked check f in
    if is_ok r.health
    then attempt_ok w me r f
    else if is_unknown r.health && (is_identity r.cause && bounded)
    then (f, again)
    else (f, throws r)

-- What a round meets: the clock at its two checkpoints, the file, and what is known of processes.
pub record Round : Type 0 where
  pub before_ms : ℕ
  pub after_ms : ℕ
  pub file : FlockFile
  pub check : ProcessIdentity → IdentityStatus
  pub writes : Writes

-- How `master_lock` ends after the given rounds; `waiting` if it has not ended yet.
pub data LockResult : Type 0 where
  acquired : FlockFile → LockResult
  failed : Inspection → LockResult
  gave_up : WaitError → LockResult
  waiting : LockResult

unfoldable pub lock_loop : WaitState → ℕ → ProcessIdentity → List Round → LockResult
unfolding lock_attempt
lock_loop s started me [] = waiting
lock_loop s started me (r ∷ rs) =
    let rest = lock_loop s started me rs in
    elim (wait_checkpoint s started r.before_ms) [
      | some e ↦ gave_up e
      | none ↦
          let (f, v) = lock_attempt r.check s.enabled r.writes me r.file in
          elim v [
            | done ↦ acquired f
            | throws i ↦ failed i
            | again ↦ elim (wait_checkpoint s started r.after_ms) [
              | some e ↦ gave_up e
              | none ↦ rest
            ]
          ]
    ]

unfoldable pub master_lock : WaitState → ℕ → Option ProcessIdentity → List Round → LockResult
unfolding lock_loop
master_lock s started none rs = failed (record no_inspection { cause = identity })
master_lock s started (some me) rs = lock_loop s started me rs
