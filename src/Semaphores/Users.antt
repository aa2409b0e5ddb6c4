-- ===== src/Semaphores/Users.antt =====
-- The processes that use the semaphores of posix/hako_sem.cpp, and what the kernel promises them.
use hakoniwa_core_cpp.Prelude.{
  ℕ, suc, ltb_ℤ, ℤ, pos, negsuc, Bool, true, false, List, get_elem?, some, ◌≡◌, ◌≢◌,
}
use hakoniwa_core_cpp.Pdu.Types.{update}
use hakoniwa_core_cpp.Semaphores.{Kernel, Sembuf, asset_down, asset_up, master_lock, master_unlock}

-- The answers that are errors.
abbrev pub is_error : ℤ → Bool
is_error ret = ltb_ℤ ret (pos 0)

-- What the calls promise: SETALL sets the values; semop takes 1 of a value, for which it waits until the
-- value is not 0, or adds 1, and changes no other semaphore; an error changes nothing.
pub record IsKernel (k : Kernel) : Type 0 where
  pub is_set :
      (id : ℤ) (vs : List ℕ) (s : k.Sets) (n v : ℕ)
      → is_error (k.set_all id vs s).1 ≡ false
      → get_elem? vs n ≡ some v
      → k.value id n (k.set_all id vs s).0 ≡ v
  pub is_taken :
      (id : ℤ) (n : ℕ) (s : k.Sets)
      → is_error (k.semop id (record { sem_num = n; sem_op = negsuc 0 }) s).1 ≡ false
      → suc (k.value id n (k.semop id (record { sem_num = n; sem_op = negsuc 0 }) s).0)
        ≡ k.value id n s
  pub is_added :
      (id : ℤ) (n : ℕ) (s : k.Sets)
      → is_error (k.semop id (record { sem_num = n; sem_op = pos 1 }) s).1 ≡ false
      → k.value id n (k.semop id (record { sem_num = n; sem_op = pos 1 }) s).0
        ≡ suc (k.value id n s)
  pub others_stay :
      (id : ℤ) (op : Sembuf) (s : k.Sets) (m : ℕ)
      → m ≢ op.sem_num
      → k.value id m (k.semop id op s).0 ≡ k.value id m s

-- `inside` are the processes between their `master_lock` and their `master_unlock`.
pub record Users (k : Kernel) : Type 0 where
  pub sets : k.Sets
  pub inside : ℕ → Bool

module _ (k : Kernel) (id : ℤ) where
  -- What an operation of a process returns with. The operations on the master's semaphore log no error.
  pub data Step : Users k → Users k → Type 0 where
    locks :
        {s : Users k} (p : ℕ)
        → s.inside p ≡ false
        → (master_lock k id s.sets).1 ≡ false
        → Step s (record { sets = (master_lock k id s.sets).0; inside = update s.inside p true })
    unlocks :
        {s : Users k} (p : ℕ)
        → s.inside p ≡ true
        → (master_unlock k id s.sets).1 ≡ false
        → Step s (record { sets = (master_unlock k id s.sets).0; inside = update s.inside p false })
    waits : {s : Users k} (a : ℕ) → Step s (record s { sets = (asset_down k id a s.sets).0 })
    signals : {s : Users k} (a : ℕ) → Step s (record s { sets = (asset_up k id a s.sets).0 })
    -- The process ends, and what it has taken is not given back.
    ends : {s : Users k} (p : ℕ) → Step s (record s { inside = update s.inside p false })

  pub data Run : Users k → Users k → Type 0 where
    start : {s : Users k} → Run s s
    step : {s t u : Users k} → Run s t → Step t u → Run s u
