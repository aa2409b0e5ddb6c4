-- ===== src/Flock.antt =====
-- src/hako/utils/hako_share/impl/posix/hako_flock.cpp: the lock of the file, which a process may take
-- several times, and its creation. The answers of the system calls are arguments.
pub mod Waiting
pub mod Bytes
pub mod Exclusion
use hakoniwa_core_cpp.Prelude.{
  ℕ, zero, suc, ◌-◌, Bool, true, false, ltb, ◌==◌, if◌then◌else◌, List, [], ◌∷◌, Option, none, some,
}
use hakoniwa_core_cpp.FlockWait.{WaitError, system_error, WaitState, wait_checkpoint}

-- `HakoFlockObjectType`, without its pointer. `lock_count` is an int that is never negative.
pub record FlockObject : Type 0 where
  pub lock_count : ℕ
  pub created : Bool

abbrev pub new_object : Bool → FlockObject
new_object created = record { lock_count = 0; created = created }

-- What `open` with O_EXCL answers: the file is new, it was there, or another error.
pub data Creation : Type 0 where
  is_new was_there cannot_create : Creation

-- `hako_flock_create`: whether the size could be set and the file be opened are the other arguments.
unfoldable pub flock_create : Creation → Bool → Bool → Option FlockObject
flock_create is_new sized opened =
    if sized then if opened then some (new_object true) else none else none
flock_create was_there sized opened = if opened then some (new_object false) else none
flock_create cannot_create sized opened = none

-- `hako_flock_open`: whether the file is there, and can be opened.
unfoldable pub flock_open : Bool → Bool → Option FlockObject
flock_open there opened = if there then if opened then some (new_object false) else none else none

-- What `flock` answers: success, EWOULDBLOCK or EAGAIN, EINTR, or another error.
pub data Answer : Type 0 where
  granted would_block was_interrupted bad : Answer

-- One round of a loop of `hako_flock_acquire`: the time before the call, and its answer.
pub record Try : Type 0 where
  pub now_ms : ℕ
  pub answer : Answer

-- How `hako_flock_acquire` ends; `waiting` is that it has not ended after these rounds.
pub data Acquired : Type 0 where
  got : FlockObject → Acquired
  thrown : WaitError → Acquired
  waiting : Acquired

abbrev pub locked_once : FlockObject → FlockObject
locked_once o = record o { lock_count = 1 }

unfoldable pub wait_unbounded : FlockObject → List Try → Acquired
wait_unbounded o [] = waiting
wait_unbounded o (t ∷ ts) =
    let rest = wait_unbounded o ts in
    elim t.answer [
      | granted ↦ got (locked_once o)
      | was_interrupted ↦ rest
      | would_block ↦ thrown system_error
      | bad ↦ thrown system_error
    ]

unfoldable pub wait_bounded : WaitState → ℕ → FlockObject → List Try → Acquired
wait_bounded s started o [] = waiting
wait_bounded s started o (t ∷ ts) =
    let rest = wait_bounded s started o ts in
    elim (wait_checkpoint s started t.now_ms) [
      | some e ↦ thrown e
      | none ↦ elim t.answer [
        | granted ↦ got (locked_once o)
        | was_interrupted ↦ rest
        | would_block ↦ rest
        | bad ↦ thrown system_error
      ]
    ]

unfoldable pub flock_acquire : WaitState → ℕ → List Try → FlockObject → Acquired
unfolding wait_unbounded wait_bounded
flock_acquire s started ts o =
    if ltb 0 o.lock_count
    then got (record o { lock_count = suc o.lock_count })
    else if s.enabled
    then wait_bounded s started o ts
    else wait_unbounded o ts

-- `hako_flock_try_acquire`: its results 0, 1 and -1.
pub data TryResult : Type 0 where
  got_it is_busy try_error : TryResult

unfoldable pub flock_try_acquire : Answer → FlockObject → FlockObject × TryResult
flock_try_acquire a o =
    if ltb 0 o.lock_count then (record o { lock_count = suc o.lock_count }, got_it) else elim a [
      | granted ↦ (locked_once o, got_it)
      | would_block ↦ (o, is_busy)
      | was_interrupted ↦ (o, is_busy)
      | bad ↦ (o, try_error)
    ]

-- `hako_flock_release`, with whether it gives the lock of the file back.
unfoldable pub flock_release : FlockObject → FlockObject × Bool
flock_release o =
    let left = o.lock_count - 1 in
    (record o { lock_count = left }, if left == 0 then true else false)
