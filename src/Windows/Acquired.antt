-- ===== src/Windows/Acquired.antt =====
-- hako_flock_acquire of win/hako_flock.cpp ends with the lock where LockFileEx has answered with it, and leaves
-- the object otherwise.
use hakoniwa_core_cpp.Prelude.{
  ℕ, suc, length, take, sym, ◌∙◌, true, false, ◌<◌, List, [], ◌∷◌, ◌≡◌, refl, arith, Bool-cases,
  Option-cases, inl, inr,
}
use hakoniwa_core_cpp.FlockWait.{WaitState, wait_checkpoint}
use hakoniwa_core_cpp.Windows.FileIo.{
  win_flock_acquire, win_flock_try_acquire, LockAnswer, lock_size,
}
use hakoniwa_core_cpp.Windows.Flock.{WinFlock, Try, got, waiting, wait_lock, flock_acquire}
use hakoniwa_core_cpp.Windows.Processes.{gives_in_round, is_given, IsWhole, after_acquire}

-- The object of a process that has been given the range.
abbrev pub locked : WinFlock → WinFlock
locked o = record o { fd = record o.fd { locked_size = lock_size o.fd }; lock_count = 1 }

-- A round that does not end the call is not given the range, and the next one goes on from there.
round-waiting :
    (w : WaitState) (started : ℕ) (o : WinFlock) (t : Try) (ts : List Try)
    → wait_lock w started o (t ∷ []) ≡ waiting
    → (gives_in_round w started (t ∷ ts) o.fd ≡ gives_in_round w started ts o.fd)
      × (wait_lock w started o (t ∷ ts) ≡ wait_lock w started o ts)
unfolding wait_lock win_flock_try_acquire
round-waiting w started o t ts h = (ground arith, ground arith)

wait_lock-given :
    (w : WaitState) (started : ℕ) (o : WinFlock) (ts : List Try)
    → ((n : ℕ) → n < length ts → wait_lock w started o (take n ts) ≡ waiting)
    → gives_in_round w started ts o.fd ≡ true
    → wait_lock w started o ts ≡ got (locked o)
unfolding wait_lock win_flock_try_acquire
wait_lock-given w started o [] whole e = cc
wait_lock-given w started o (t ∷ []) whole e = ground arith
wait_lock-given w started o (t ∷ t' ∷ ts) whole e =
    let (same, next) = round-waiting w started o t (t' ∷ ts) (whole 1 (omega arith)) in
    next
    ∙ wait_lock-given w started o (t' ∷ ts)
        (λ n h.
          sym (round-waiting w started o t (take n (t' ∷ ts)) (whole 1 (omega arith))).1
          ∙ whole (suc n) (omega (arith, h)))
        (sym same ∙ e)

wait_lock-not_given :
    (w : WaitState) (started : ℕ) (o : WinFlock) (ts : List Try)
    → gives_in_round w started ts o.fd ≡ false
    → after_acquire o (wait_lock w started o ts) ≡ o
unfolding wait_lock win_flock_try_acquire
wait_lock-not_given w started o [] e = refl
wait_lock-not_given w started o (t ∷ ts) e =
    elim (Option-cases (wait_checkpoint w started t.now_ms)) [
      | inr (x, late) ↦ ground arith
      | inl on_time ↦ ground (arith, wait_lock-not_given w started o ts)
    ]

module _ (w : WaitState) (started : ℕ) (lock_file : ℕ → ℕ → LockAnswer) (ts : List Try)
    (o : WinFlock) where
  pub acquire-given :
      o.lock_count ≡ 0
      → (w.enabled ≡ true → IsWhole w started lock_file ts o)
      → is_given w started lock_file ts o.fd ≡ true
      → flock_acquire w started lock_file ts o ≡ got (locked o)
  unfolding flock_acquire win_flock_acquire
  acquire-given free whole e = elim (Bool-cases w.enabled) [
    | inl on ↦ ground (arith, wait_lock-given w started o ts (λ n h. ground (arith, whole on n h)))
    | inr off ↦ ground arith
  ]

  pub acquire-not_given :
      o.lock_count ≡ 0
      → is_given w started lock_file ts o.fd ≡ false
      → after_acquire o (flock_acquire w started lock_file ts o) ≡ o
  unfolding flock_acquire win_flock_acquire
  acquire-not_given free e = elim (Bool-cases w.enabled) [
    | inl on ↦ ground (arith, wait_lock-not_given w started o ts)
    | inr off ↦ ground arith
  ]

  -- A call that only counts.
  pub acquire-nested :
      0 < o.lock_count
      → after_acquire o (flock_acquire w started lock_file ts o)
        ≡ record o { lock_count = suc o.lock_count }
  unfolding flock_acquire
  acquire-nested held = ground arith
