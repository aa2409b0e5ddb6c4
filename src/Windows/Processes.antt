-- ===== src/Windows/Processes.antt =====
-- The processes that lock one file by win/hako_flock.cpp, whose size may change meanwhile.
use hakoniwa_core_cpp.Prelude.{
  ℕ, ◌^◌, ◌<◌, ◌≤◌, ℤ, pos, Bool, true, false, ◌||◌, ◌==◌, if◌then◌else◌, List, [], ◌∷◌, length,
  take, Option, none, some, ◌≡◌,
}
use hakoniwa_core_cpp.Pdu.Types.{update}
use hakoniwa_core_cpp.FlockWait.{WaitState, wait_checkpoint}
use hakoniwa_core_cpp.Windows.FileIo.{
  WinHandle, LockAnswer, lock_given, lock_violation, lock_failed, IoAnswer, lock_request,
}
use hakoniwa_core_cpp.Windows.Flock.{
  WinFlock, Try, Acquired, got, thrown, waiting, flock_acquire, flock_try_acquire, flock_release,
  flock_write_bytes, flock_size,
}
use hakoniwa_core_cpp.Windows.Requests.{length_of}

-- Each process has one object of the file. `held` is how many bytes of the file the system has locked for
-- it, from the first one on; 0 is no lock.
pub record Processes : Type 0 where
  pub object : ℕ → WinFlock
  pub held : ℕ → ℕ

-- LockFileEx gives a range only where no handle holds a byte of it, the own one included.
abbrev pub IsGrantable : ℕ → Processes → Type 0
IsGrantable len s = (q byte : ℕ) → byte < len → s.held q ≤ byte

-- UnlockFileEx frees a range of `n` bytes only where it is asked for this range.
abbrev pub unlocks : ℕ → ℕ → ℕ → ℕ × Bool
unlocks low high n = if length_of (low, high) == n then (0, true) else (n, false)

abbrev pub gives : LockAnswer → Bool
gives lock_given = true
gives lock_violation = false
gives lock_failed = false

-- Whether LockFileEx, called for the range of this handle, answers with it.
abbrev pub gives_range : (ℕ → ℕ → LockAnswer) → WinHandle → Bool
gives_range lock_file h = gives (lock_file (lock_request h).0 (lock_request h).1)

-- Whether one of the calls that the rounds make after their checkpoints is answered so.
abbrev pub gives_in_round : WaitState → ℕ → List Try → WinHandle → Bool
gives_in_round w started [] h = false
gives_in_round w started (t ∷ ts) h =
    elim (wait_checkpoint w started t.now_ms) [ some e ↦ false | none ↦ gives_range t.lock_file h ]
    || gives_in_round w started ts h

-- Whether a call of LockFileEx by `hako_flock_acquire` is answered so, in a round, or in the one call of a
-- wait that is not bounded.
abbrev pub is_given : WaitState → ℕ → (ℕ → ℕ → LockAnswer) → List Try → WinHandle → Bool
is_given w started lock_file ts h =
    if w.enabled then gives_in_round w started ts h else gives_range lock_file h

-- The rounds are those that the call makes: after fewer of them it has not ended.
abbrev pub IsWhole : WaitState → ℕ → (ℕ → ℕ → LockAnswer) → List Try → WinFlock → Type 0
IsWhole w started lock_file ts o =
    (n : ℕ) → n < length ts → flock_acquire w started lock_file (take n ts) o ≡ waiting

-- The object after a call, which keeps it where it throws.
abbrev pub after_acquire : WinFlock → Acquired → WinFlock
after_acquire o (got u) = u
after_acquire o (thrown e) = o
after_acquire o waiting = o

-- What is locked for process `p` after a call for the range of its handle.
abbrev pub held_after : ℕ → Bool → Processes → ℕ → ℕ
held_after p is_given s =
    if is_given then update s.held p (length_of (lock_request (s.object p).fd)) else s.held

-- What a call of a process returns with, or throws, the growth of the file by a write included. The system
-- gives a range only where it is free, and whoever is given it holds it. A call that makes no call of
-- LockFileEx is taken with an answer without effect. A size that the system answers is a LONGLONG.
pub data Step : Processes → Processes → Type 0 where
  acquires :
      {s : Processes} (p : ℕ) (w : WaitState) (started : ℕ) (lock_file : ℕ → ℕ → LockAnswer)
      (ts : List Try)
      → (w.enabled ≡ true → IsWhole w started lock_file ts (s.object p))
      → (is_given w started lock_file ts (s.object p).fd ≡ true
          → IsGrantable (length_of (lock_request (s.object p).fd)) s)
      → Step s (record {
        object =
            update s.object p
              (after_acquire (s.object p) (flock_acquire w started lock_file ts (s.object p)));
        held = held_after p (is_given w started lock_file ts (s.object p).fd) s;
      })
  tries :
      {s : Processes} (p : ℕ) (lock_file : ℕ → ℕ → LockAnswer)
      → (gives_range lock_file (s.object p).fd ≡ true
          → IsGrantable (length_of (lock_request (s.object p).fd)) s)
      → Step s (record {
        object = update s.object p (flock_try_acquire lock_file (s.object p)).0;
        held = held_after p (gives_range lock_file (s.object p).fd) s;
      })
  releases :
      {s : Processes} (p : ℕ)
      → Step s (record {
        object = update s.object p (flock_release unlocks (s.held p) (s.object p)).1.0;
        held = update s.held p (flock_release unlocks (s.held p) (s.object p)).0;
      })
  writes :
      {s : Processes} (p : ℕ) (moved written : IoAnswer) (offset size : ℕ)
      → Step s (record s {
        object = update s.object p (flock_write_bytes moved written offset size (s.object p)).0;
      })
  asks_size :
      {s : Processes} (p : ℕ) (answer : Option ℤ)
      → ((n : ℕ) → answer ≡ some (pos n) → n < 2 ^ 63)
      → Step s (record s { object = update s.object p (flock_size answer (s.object p)).0 })
  -- The process ends, and another one opens the file in its place.
  ends :
      {s : Processes} (p : ℕ) (o : WinFlock)
      → o.lock_count ≡ 0
      → o.fd.size < 2 ^ 64
      → o.fd.locked_size ≡ 0
      → Step s (record { object = update s.object p o; held = update s.held p 0 })

pub data Run : Processes → Processes → Type 0 where
  start : {s : Processes} → Run s s
  step : {s t u : Processes} → Run s t → Step t u → Run s u
