-- ===== src/Tests/Semaphores.antt =====
-- A process at the semaphores of posix/hako_sem.cpp, over a kernel with one set of them.
use hakoniwa_core_cpp.Prelude.{
  ℕ, suc, ◌-◌, ◌==◌, ltb, ℤ, pos, negsuc, true, false, get_elem?, Option, none, some, ◌≡◌, ◌≢◌,
  refl, arith, if◌then◌else◌, Bool-cases, inl, inr,
}
use hakoniwa_core_cpp.Pdu.Types.{update}
use hakoniwa_core_cpp.Semaphores.{
  Kernel, Sembuf, create, master_lock, master_lock_op, initial_values,
}
use hakoniwa_core_cpp.Semaphores.Users.{IsKernel, is_error, Users, Run, start, step, locks}
use hakoniwa_core_cpp.Semaphores.Exclusion.{Run-one_inside, Run-stuck}

abbrev value_or_0 : Option ℕ → ℕ
value_or_0 none = 0
value_or_0 (some v) = v

-- A call that would wait forever fails.
abbrev small_semop : Sembuf → (ℕ → ℕ) → (ℕ → ℕ) × ℤ
small_semop op s = elim op.sem_op [
  | pos n ↦ (update s op.sem_num (suc (s op.sem_num)), pos 0)
  | negsuc n ↦
      if ltb 0 (s op.sem_num)
      then (update s op.sem_num (s op.sem_num - 1), pos 0)
      else (s, negsuc 0)
]

abbrev small_kernel : Kernel
small_kernel = record {
  Sets = ℕ → ℕ;
  value = λ id n s. s n;
  semget = λ key n s. (s, pos 5);
  set_all = λ id vs s. (λ n. value_or_0 (get_elem? vs n), pos 0);
  remove = λ id s. s;
  semop = λ id op s. small_semop op s;
}

others_stay-small :
    (op : Sembuf) (s : ℕ → ℕ) (m : ℕ) → m ≢ op.sem_num → (small_semop op s).0 m ≡ s m
others_stay-small op s m ne = elim (Bool-cases (m == op.sem_num)) [
  | inl same ↦ absurd (ne (ground arith))
  | inr other ↦ ground arith
]

small_kernel-IsKernel : IsKernel small_kernel
small_kernel-IsKernel = record {
  is_set = λ id vs s n v ok e. ground (arith, e);
  is_taken = λ id n s ok. ground arith;
  is_added = λ id n s ok. ground arith;
  others_stay = λ id op s m ne. others_stay-small op s m ne;
}

-- What `create` returns with, and after it process 3 has locked.
abbrev made : Users small_kernel
made = record { sets = (create small_kernel (pos 9) (λ n. 0)).0; inside = λ i. false }

abbrev locked : Users small_kernel
locked = record {
  sets = (master_lock small_kernel (create small_kernel (pos 9) (λ n. 0)).1 made.sets).0;
  inside = update made.inside 3 true;
}

made_well : is_error (create small_kernel (pos 9) (λ n. 0)).1 ≡ false
unfolding create initial_values
made_well = refl

locked_well :
    (master_lock small_kernel (create small_kernel (pos 9) (λ n. 0)).1 made.sets).1 ≡ false
unfolding create initial_values master_lock master_lock_op
locked_well = refl

locks_once : Run small_kernel (create small_kernel (pos 9) (λ n. 0)).1 made locked
locks_once = step start (locks 3 refl locked_well)

abbrev third : ℕ
third = 3

Run-one_inside_example : third ≡ third
Run-one_inside_example =
    Run-one_inside small_kernel (pos 9) (λ n. 0) locked 3 3 small_kernel-IsKernel made_well
      locks_once refl refl

Run-stuck_example :
    (false ≡ false)
    × ((master_lock small_kernel (create small_kernel (pos 9) (λ n. 0)).1 locked.sets).1 ≢ false)
Run-stuck_example =
    Run-stuck small_kernel (pos 9) (λ n. 0) locked
      (record locked { inside = update locked.inside 3 false }) 3 4 small_kernel-IsKernel made_well
      locks_once refl start
