-- ===== src/Windows/Flock.antt =====
-- win/hako_flock.cpp: the lock of the file on Windows, which a process may take several times.
use hakoniwa_core_cpp.Prelude.{
  ℕ, suc, ◌+◌, ◌-◌, ◌%◌, ◌^◌, ℤ, pos, eqb_ℤ, ltb_ℤ, Bool, true, false, ltb, ◌==◌, if◌then◌else◌,
  List, [], ◌∷◌, Option, none, some,
}
use hakoniwa_core_cpp.FlockWait.{WaitError, system_error, WaitState, wait_checkpoint}
use hakoniwa_core_cpp.Flock.{Creation}
use hakoniwa_core_cpp.Windows.FileIo.{
  WinHandle, win_open_rw, win_create_new_rw, file_size, LockAnswer, win_flock_acquire,
  win_flock_try_acquire, win_flock_release, IoAnswer, win_pwrite, win_pread,
}

-- `HakoFlockFileHandleObjectType` with its `HakoFlockObjectType`. `lock_count` is never negative.
pub record WinFlock : Type 0 where
  pub fd : WinHandle
  pub lock_count : ℕ
  pub created : Bool

-- What the API answers to `win_open_rw`.
pub record Opening : Type 0 where
  pub opened : Bool
  pub size_answer : Option ℤ

-- The end of `hako_flock_create` and of `hako_flock_open`: the object, unless a result is negative.
abbrev pub opened_flock : Bool → WinHandle × ℤ → Option WinFlock
opened_flock created (h, ret) =
    if ltb_ℤ ret (pos 0) then none else some (record { fd = h; lock_count = 0; created = created })

-- `hako_flock_create`, for a handle from malloc.
unfoldable pub flock_create : Creation → Bool → Bool → Opening → ℕ → WinHandle → Option WinFlock
unfolding win_create_new_rw win_open_rw
flock_create creation moved ended o create_size raw =
    let fresh = win_create_new_rw creation moved ended (record raw { size = create_size }) in
    if eqb_ℤ fresh.1 (pos 0)
    then opened_flock true fresh
    else if eqb_ℤ fresh.1 (pos 1)
    then opened_flock false (win_open_rw o.opened o.size_answer fresh.0)
    else opened_flock false fresh

unfoldable pub flock_open : Opening → WinHandle → Option WinFlock
unfolding win_open_rw
flock_open o raw = opened_flock false (win_open_rw o.opened o.size_answer raw)

-- One round of the loop of `hako_flock_acquire`: the time before the call, and LockFileEx.
pub record Try : Type 0 where
  pub now_ms : ℕ
  pub lock_file : ℕ → ℕ → LockAnswer

-- How `hako_flock_acquire` ends; `waiting` is that it has not ended after these rounds.
pub data Acquired : Type 0 where
  got : WinFlock → Acquired
  thrown : WaitError → Acquired
  waiting : Acquired

unfoldable pub wait_lock : WaitState → ℕ → WinFlock → List Try → Acquired
unfolding win_flock_try_acquire
wait_lock s started o [] = waiting
wait_lock s started o (t ∷ ts) =
    let tried = win_flock_try_acquire t.lock_file o.fd in
    let rest = wait_lock s started (record o { fd = tried.0 }) ts in
    elim (wait_checkpoint s started t.now_ms) [
      | some e ↦ thrown e
      | none ↦
          if eqb_ℤ tried.1 (pos 0)
          then got (record o { fd = tried.0; lock_count = 1 })
          else if ltb_ℤ tried.1 (pos 0)
          then thrown system_error
          else rest
    ]

-- Where the wait is not bounded, LockFileEx is called once and waits itself.
unfoldable pub flock_acquire : WaitState → ℕ → (ℕ → ℕ → LockAnswer) → List Try → WinFlock → Acquired
unfolding win_flock_acquire wait_lock
flock_acquire s started lock_file ts o =
    if ltb 0 o.lock_count
    then got (record o { lock_count = suc o.lock_count })
    else if s.enabled
    then wait_lock s started o ts
    else (let locked = win_flock_acquire lock_file o.fd in
        if eqb_ℤ locked.1 (pos 0)
        then got (record o { fd = locked.0; lock_count = 1 })
        else thrown system_error)

unfoldable pub flock_try_acquire : (ℕ → ℕ → LockAnswer) → WinFlock → WinFlock × ℤ
unfolding win_flock_try_acquire
flock_try_acquire lock_file o =
    let tried = win_flock_try_acquire lock_file o.fd in
    if ltb 0 o.lock_count then (record o { lock_count = suc o.lock_count }, pos 0) else (
      record o { fd = tried.0; lock_count = if eqb_ℤ tried.1 (pos 0) then 1 else o.lock_count },
      tried.1,
    )

-- `hako_flock_release`, with the error that it throws, if any, and the state of the system.
unfoldable pub flock_release {ℓ} :
    {S : Type ℓ} → (ℕ → ℕ → S → S × Bool) → S → WinFlock → S × (WinFlock × Option WaitError)
unfolding win_flock_release
flock_release unlock_file s o =
    let (after, (fd, ret)) = win_flock_release unlock_file s o.fd in
    if o.lock_count == 0
    then (s, (o, none))
    else if ltb 1 o.lock_count
    then (s, (record o { lock_count = o.lock_count - 1 }, none))
    else if eqb_ℤ ret (pos 0)
    then (after, (record o { fd = fd; lock_count = 0 }, none))
    else (after, (record o { fd = fd }, some system_error))

-- `hako_flock_write` of an int, which has 4 bytes: whether it reports an error.
unfoldable pub flock_write : IoAnswer → IoAnswer → Bool
unfolding win_pwrite
flock_write moved answer = ltb_ℤ (win_pwrite moved answer 4) (pos 0)

-- `hako_flock_read`.
unfoldable pub flock_read : IoAnswer → IoAnswer → Bool
unfolding win_pread
flock_read moved answer = ltb_ℤ (win_pread moved answer 4) (pos 0)

-- `hako_flock_write_bytes`, which keeps the size up with the end of what it writes.
unfoldable pub flock_write_bytes : IoAnswer → IoAnswer → ℕ → ℕ → WinFlock → WinFlock × Bool
unfolding win_pwrite
flock_write_bytes moved answer offset size o =
    let end = (offset + size) % 2 ^ 64 in
    if eqb_ℤ (win_pwrite moved answer size) (pos 0)
    then (if ltb o.fd.size end then record o { fd = record o.fd { size = end } } else o, true)
    else (o, false)

-- `hako_flock_read_bytes`, which does not ask for a byte behind the size.
unfoldable pub flock_read_bytes : IoAnswer → IoAnswer → ℕ → ℕ → WinFlock → Bool
unfolding win_pread
flock_read_bytes moved answer offset size o =
    if ltb o.fd.size offset
    then false
    else if ltb (o.fd.size - offset) size
    then false
    else eqb_ℤ (win_pread moved answer size) (pos 0)

-- `hako_flock_size`.
unfoldable pub flock_size : Option ℤ → WinFlock → WinFlock × ℕ
unfolding file_size
flock_size answer o = elim (file_size answer) [
  | none ↦ (o, 0)
  | some n ↦ (record o { fd = record o.fd { size = n } }, n)
]
