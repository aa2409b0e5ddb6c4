-- ===== src/MasterLock/Diagnosis.antt =====
-- `inspect_master_lock` of hako_sem_flock.cpp, which looks at the file of the master lock from outside,
-- under the lock of the OS. `has_path` is that `flock_path` throws no exception, and `file` is `none` where
-- flock.bin cannot be opened.
use hakoniwa_core_cpp.Prelude.{
  ℕ, ◌+◌, ◌*◌, ◌≤◌, pos, Bool, true, false, if◌then◌else◌, List, length, Option, none, some, ◌≡◌,
  ◌≢◌, refl, arith, Option-cases, inl, inr, ◌∙◌, ap, get_elem?,
}
use hakoniwa_core_cpp.Identity.{IdentityStatus, dead, ProcessIdentity}
use hakoniwa_core_cpp.FlockWait.{WaitState, enter_scope}
use hakoniwa_core_cpp.Flock.{
  new_object, Answer, Try, got, thrown, waiting, got_it, is_busy, try_error, flock_acquire,
  flock_try_acquire,
}
use hakoniwa_core_cpp.Flock.Waiting.{Ticks, flock_acquire-ne-waiting}
use hakoniwa_core_cpp.MasterLock.Shapes.{IsHeldBy, inspect-IsFile}
use hakoniwa_core_cpp.MasterLock.Metadata.{
  state_of_code, LockState, unlocked, acquiring, locked, releasing, Metadata, FlockFile,
  read_metadata,
}
use hakoniwa_core_cpp.MasterLock.Inspect.{
  abort, UnknownCause, contention, system, Inspection, no_inspection, header_fault, inspect_owner,
  with_owner, inspect_locked,
}

abbrev pub failed_inspection : UnknownCause → Inspection
failed_inspection c = record no_inspection { cause = c }

-- `none` as long as the forced wait has not ended.
unfoldable pub inspect_master_lock :
    Bool
    → WaitState
    → Bool
    → ℕ
    → ℕ
    → List Try
    → Answer
    → (ProcessIdentity → IdentityStatus)
    → Option FlockFile
    → Option Inspection
unfolding enter_scope
inspect_master_lock false s force_wait timeout_ms started tries answer check file =
    some no_inspection
inspect_master_lock true s force_wait timeout_ms started tries answer check none =
    some (failed_inspection system)
inspect_master_lock true s force_wait timeout_ms started tries answer check (some f) =
    if force_wait
    then elim (flock_acquire
        (enter_scope (record { timeout_ms = timeout_ms; is_interrupted = false }) s).0 started tries
        (new_object false)) [
          | waiting ↦ none
          | thrown e ↦ some (failed_inspection contention)
          | got o ↦ some (inspect_locked check f)
        ]
    else elim (flock_try_acquire answer (new_object false)).1 [
      | is_busy ↦ some (failed_inspection contention)
      | try_error ↦ some (failed_inspection system)
      | got_it ↦ some (inspect_locked check f)
    ]

abbrev scope : ℕ → WaitState
scope timeout_ms = record {
  enabled = true;
  options = record { timeout_ms = timeout_ms; is_interrupted = false };
}

-- A forced inspection whose rounds follow each other by 20 milliseconds or more, and are enough for the
-- time limit and one round more, ends. The clock does not reach 2^64.
pub inspect_master_lock-ne-none :
    (s : WaitState) (timeout_ms started : ℕ) (tries : List Try) (answer : Answer)
    (check : ProcessIdentity → IdentityStatus) (f : FlockFile)
    → Ticks started tries
    → timeout_ms + 20 ≤ 20 * length tries
    → inspect_master_lock true s true timeout_ms started tries answer check (some f) ≢ none
unfolding inspect_master_lock
inspect_master_lock-ne-none s timeout_ms started tries answer check f k enough =
    ground
      (arith, flock_acquire-ne-waiting (scope timeout_ms) started tries (new_object false) refl k)

inspect_owner-abort :
    (check : ProcessIdentity → IdentityStatus) (r : Inspection)
    → (inspect_owner check r).health ≡ abort
    → r.health ≢ abort
    → check r.owner ≡ dead
unfolding inspect_owner
inspect_owner-abort check r h new = go r.state (check r.owner) refl refl
  where
    go :
        (st : LockState) (v : IdentityStatus)
        → r.state ≡ st
        → check r.owner ≡ v
        → check r.owner ≡ dead
    go unlocked v e k = ground arith
    go acquiring v e k = ground arith
    go locked v e k = ground arith
    go releasing v e k = ground arith

inspect_locked-abort :
    (check : ProcessIdentity → IdentityStatus) (f : FlockFile)
    → (inspect_locked check f).health ≡ abort
    → (m : Metadata) × (read_metadata f ≡ some m)
      × (header_fault m ≡ none)
      × (check (record { pid = m.owner_pid; start_token = m.owner_start_token }) ≡ dead)
unfolding inspect_locked
inspect_locked-abort check f h = elim (Option-cases (get_elem? f.counters 0)) [
  | inl gone ↦ ground arith
  | inr (counter, there) ↦ elim (Option-cases (read_metadata f)) [
    | inl absent ↦ ground arith
    | inr (m, has) ↦ elim (Option-cases (header_fault m)) [
      | inr (c, bad) ↦ ground arith
      | inl sound ↦ (
        m,
        has,
        sound,
        inspect_owner-abort check (with_owner counter m) (ground arith) (ground arith),
      )
    ]
  ]
]

inspect_master_lock-inspected :
    (s : WaitState) (force_wait : Bool) (timeout_ms started : ℕ) (tries : List Try)
    (answer : Answer) (check : ProcessIdentity → IdentityStatus) (f : FlockFile) (r : Inspection)
    → inspect_master_lock true s force_wait timeout_ms started tries answer check (some f) ≡ some r
    → r.health ≡ abort
    → inspect_locked check f ≡ r
unfolding inspect_master_lock
inspect_master_lock-inspected s true timeout_ms started tries answer check f r e h = ground arith
inspect_master_lock-inspected s false timeout_ms started tries answer check f r e h = ground arith

-- An inspection, forced or not, that answers ABORT has read a record whose header, checksum and state
-- are in order, and whose owner the check of processes calls dead.
pub inspect_master_lock-abort :
    (has_path : Bool) (s : WaitState) (force_wait : Bool) (timeout_ms started : ℕ)
    (tries : List Try) (answer : Answer) (check : ProcessIdentity → IdentityStatus)
    (file : Option FlockFile) (r : Inspection)
    → inspect_master_lock has_path s force_wait timeout_ms started tries answer check file ≡ some r
    → r.health ≡ abort
    → (f : FlockFile) × (m : Metadata) × (file ≡ some f)
      × (read_metadata f ≡ some m)
      × (header_fault m ≡ none)
      × (check (record { pid = m.owner_pid; start_token = m.owner_start_token }) ≡ dead)
unfolding inspect_master_lock
inspect_master_lock-abort false s force_wait timeout_ms started tries answer check file r e h =
    ground arith
inspect_master_lock-abort true s force_wait timeout_ms started tries answer check none r e h =
    ground arith
inspect_master_lock-abort true s force_wait timeout_ms started tries answer check (some f) r e h =
    let inspected =
      inspect_master_lock-inspected s force_wait timeout_ms started tries answer check f r e h in
    let (m, has, sound, gone) =
      inspect_locked-abort check f (ap (λ (i : Inspection). i.health) inspected ∙ h) in
    (f, m, refl, has, sound, gone)

-- The inspection of a lock whose holder is dead answers ABORT.
pub inspect_locked-dead :
    (check : ProcessIdentity → IdentityStatus) (me : ProcessIdentity) (f : FlockFile)
    → IsHeldBy me f
    → check me ≡ dead
    → (inspect_locked check f).health ≡ abort
unfolding inspect_owner
inspect_locked-dead check me f v gone =
    ap (λ (i : Inspection). i.health) (inspect-IsFile check (pos 0) f v.file)
    ∙ dead_owner (with_owner (pos 0) f.metadata) (ap state_of_code v.state)
        (ap check v.owner ∙ gone)
  where
    dead_owner :
        (r : Inspection)
        → r.state ≡ locked
        → check r.owner ≡ dead
        → (inspect_owner check r).health ≡ abort
    dead_owner r e k = ground arith
