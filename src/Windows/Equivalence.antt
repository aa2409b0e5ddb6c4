-- ===== src/Windows/Equivalence.antt =====
-- win/hako_flock.cpp does what posix/hako_flock.cpp does, for calls that answer alike.
use hakoniwa_core_cpp.Prelude.{
  ℕ, ℤ, if◌then◌else◌, List, [], ◌∷◌, map, ◌≡◌, refl, ltb_ℤ, eqb_ℤ, pos, arith, Option-cases, inl,
  inr,
}
use hakoniwa_core_cpp.FlockWait.{WaitState, wait_checkpoint}
use hakoniwa_core_cpp.Flock
use hakoniwa_core_cpp.Windows.FileIo.{
  LockAnswer, lock_given, lock_violation, lock_failed, lock_request, win_flock_acquire,
  win_flock_try_acquire,
}
use hakoniwa_core_cpp.Windows.Flock.{
  WinFlock, Try, Acquired, got, thrown, waiting, wait_lock, flock_acquire, flock_try_acquire,
}

-- What both objects have.
abbrev pub common : WinFlock → Flock.FlockObject
common o = record { lock_count = o.lock_count; created = o.created }

abbrev pub common_end : Acquired → Flock.Acquired
common_end (got o) = Flock.got (common o)
common_end (thrown e) = Flock.thrown e
common_end waiting = Flock.waiting

-- The answer of `flock` that LockFileEx's corresponds to.
abbrev pub as_flock : LockAnswer → Flock.Answer
as_flock lock_given = Flock.granted
as_flock lock_violation = Flock.would_block
as_flock lock_failed = Flock.bad

abbrev pub answer_to : WinFlock → (ℕ → ℕ → LockAnswer) → Flock.Answer
answer_to o lock_file = as_flock (lock_file (lock_request o.fd).0 (lock_request o.fd).1)

abbrev pub as_round : WinFlock → Try → Flock.Try
as_round o t = record { now_ms = t.now_ms; answer = answer_to o t.lock_file }

abbrev pub as_result : ℤ → Flock.TryResult
as_result ret =
    if eqb_ℤ ret (pos 0)
    then Flock.got_it
    else if ltb_ℤ ret (pos 0)
    then Flock.try_error
    else Flock.is_busy

wait_lock-wait_bounded :
    (w : WaitState) (started : ℕ) (ts : List Try) (o : WinFlock)
    → common_end (wait_lock w started o ts)
      ≡ Flock.wait_bounded w started (common o) (map (as_round o) ts)
unfolding wait_lock win_flock_try_acquire Flock.wait_bounded
wait_lock-wait_bounded w started [] o = refl
wait_lock-wait_bounded w started (t ∷ ts) o =
    let rest = wait_lock-wait_bounded w started ts o in
    elim (Option-cases (wait_checkpoint w started t.now_ms)) [
      | inr (e, late) ↦ ground arith
      | inl on_time ↦ ground arith
    ]

-- hako_flock_acquire of Windows gives, throws and waits as the one of POSIX does, with the same count,
-- where flock answers each bounded round as LockFileEx does, and the one call of an unbounded wait: the
-- lock for the range, EWOULDBLOCK for ERROR_LOCK_VIOLATION, another error for another error.
pub flock_acquire-common :
    (w : WaitState) (started now : ℕ) (lock_file : ℕ → ℕ → LockAnswer) (ts : List Try)
    (o : WinFlock)
    → common_end (flock_acquire w started lock_file ts o)
      ≡ Flock.flock_acquire w started
          (if w.enabled
            then map (as_round o) ts
            else record { now_ms = now; answer = answer_to o lock_file } ∷ [])
          (common o)
unfolding flock_acquire win_flock_acquire Flock.flock_acquire Flock.wait_unbounded
flock_acquire-common w started now lock_file ts o =
    ground (arith, wait_lock-wait_bounded w started ts o)

-- hako_flock_try_acquire of Windows has the result and the count of the one of POSIX, where flock answers
-- as LockFileEx does.
pub flock_try_acquire-common :
    (lock_file : ℕ → ℕ → LockAnswer) (o : WinFlock)
    → (common (flock_try_acquire lock_file o).0, as_result (flock_try_acquire lock_file o).1)
      ≡ Flock.flock_try_acquire (answer_to o lock_file) (common o)
unfolding flock_try_acquire win_flock_try_acquire Flock.flock_try_acquire
flock_try_acquire-common lock_file o = ground arith
