-- ===== src/Semaphores/Exclusion.antt =====
-- The master's semaphore of posix/hako_sem.cpp: one process is inside at most, and none ever after one
-- has ended there.
use hakoniwa_core_cpp.Prelude.{
  ℕ, suc, ◌<◌, ◌==◌, ℤ, Bool, true, false, ◌≡◌, ◌≢◌, sym, ◌∙◌, arith, Bool-cases, inl, inr,
}
use hakoniwa_core_cpp.Pdu.Types.{update}
use hakoniwa_core_cpp.Semaphores.{
  Kernel, initial_values, create, asset_down, asset_up, asset_down_op, asset_up_op, master_lock,
  master_unlock, master_lock_op, master_unlock_op,
}
use hakoniwa_core_cpp.Semaphores.Users.{
  is_error, IsKernel, Users, Step, Run, locks, unlocks, waits, signals, ends, start, step,
}

module _ (k : Kernel) (id : ℤ) where
  -- The value of the master's semaphore.
  abbrev open_to : Users k → ℕ
  open_to s = k.value id 0 s.sets

  -- One process at most is inside, and none while the semaphore is open.
  abbrev IsExclusive : Users k → Type 0
  IsExclusive s =
      ((p : ℕ) → s.inside p ≡ true → open_to s ≡ 0)
      × ((p q : ℕ) → s.inside p ≡ true → s.inside q ≡ true → p ≡ q)
      × (open_to s < 2)

  -- Nobody is inside, and nobody can come in.
  abbrev IsStuck : Users k → Type 0
  IsStuck s = (open_to s ≡ 0) × ((p : ℕ) → s.inside p ≡ false)

still_inside : (f : ℕ → Bool) (p q : ℕ) → update f p false q ≡ true → (f q ≡ true) × (q ≢ p)
still_inside f p q h = elim (Bool-cases (q == p)) [
  | inl mine ↦ ground arith
  | inr other ↦ (ground arith, λ e. ground arith)
]

entered : (f : ℕ → Bool) (p q : ℕ) → ((i : ℕ) → f i ≡ false) → update f p true q ≡ true → q ≡ p
entered f p q nobody h = elim (Bool-cases (q == p)) [
  | inl mine ↦ ground arith
  | inr other ↦ ground (arith, nobody q)
]

module _ (k : Kernel) (is_kernel : IsKernel k) (id : ℤ) where
  lock_value :
      (s : k.Sets)
      → (master_lock k id s).1 ≡ false
      → suc (k.value id 0 (master_lock k id s).0) ≡ k.value id 0 s
  unfolding master_lock master_lock_op
  lock_value s ok = is_kernel.is_taken id 0 s ok

  unlock_value :
      (s : k.Sets)
      → (master_unlock k id s).1 ≡ false
      → k.value id 0 (master_unlock k id s).0 ≡ suc (k.value id 0 s)
  unfolding master_unlock master_unlock_op
  unlock_value s ok = is_kernel.is_added id 0 s ok

  down_value : (a : ℕ) (s : k.Sets) → k.value id 0 (asset_down k id a s).0 ≡ k.value id 0 s
  unfolding asset_down asset_down_op
  down_value a s = is_kernel.others_stay id (asset_down_op a) s 0 (λ e. omega (arith, e))

  up_value : (a : ℕ) (s : k.Sets) → k.value id 0 (asset_up k id a s).0 ≡ k.value id 0 s
  unfolding asset_up asset_up_op
  up_value a s = is_kernel.others_stay id (asset_up_op a) s 0 (λ e. omega (arith, e))

  Step-IsExclusive : {s t : Users k} → Step k id s t → IsExclusive k id s → IsExclusive k id t
  Step-IsExclusive {s} (locks p out ok) v =
      let taken = lock_value s.sets ok in
      let nobody : (i : ℕ) → s.inside i ≡ false = λ i. elim (Bool-cases (s.inside i)) [
        | inl is_in ↦ absurd (omega (arith, v.0 i is_in, taken))
        | inr out ↦ out
      ] in
      (
        (λ q h. elim (Bool-cases (q == p)) [
          | inl mine ↦ omega (arith, v.2, taken)
          | inr other ↦ omega (arith, v.2, taken)
        ]),
        (λ q r hq hr. entered s.inside p q nobody hq ∙ sym (entered s.inside p r nobody hr)),
        omega (arith, v.2, taken),
      )
  Step-IsExclusive {s} (unlocks p is_in ok) v =
      let added = unlock_value s.sets ok in
      (
        (λ q h.
            let (is_in', ne) = still_inside s.inside p q h in absurd (ne (v.1 q p is_in' is_in))),
        (λ q r hq hr. v.1 q r (still_inside s.inside p q hq).0 (still_inside s.inside p r hr).0),
        omega (arith, v.0 p is_in, added),
      )
  Step-IsExclusive {s} (waits a) v =
      let same = down_value a s.sets in
      ((λ q h. omega (arith, v.0 q h, same)), v.1, omega (arith, v.2, same))
  Step-IsExclusive {s} (signals a) v =
      let same = up_value a s.sets in
      ((λ q h. omega (arith, v.0 q h, same)), v.1, omega (arith, v.2, same))
  Step-IsExclusive {s} (ends p) v = (
    (λ q h. v.0 q (still_inside s.inside p q h).0),
    (λ q r hq hr. v.1 q r (still_inside s.inside p q hq).0 (still_inside s.inside p r hr).0),
    v.2,
  )

  Run-IsExclusive : {s t : Users k} → Run k id s t → IsExclusive k id s → IsExclusive k id t
  Run-IsExclusive start v = v
  Run-IsExclusive (step r e) v = Step-IsExclusive e (Run-IsExclusive r v)

  Step-IsStuck : {s t : Users k} → Step k id s t → IsStuck k id s → IsStuck k id t
  Step-IsStuck {s} (locks p out ok) v = absurd (omega (arith, v.0, lock_value s.sets ok))
  Step-IsStuck (unlocks p is_in ok) v = ground (arith, v.1 p)
  Step-IsStuck {s} (waits a) v = (down_value a s.sets ∙ v.0, v.1)
  Step-IsStuck {s} (signals a) v = (up_value a s.sets ∙ v.0, v.1)
  Step-IsStuck {s} (ends p) v = (
    v.0,
    λ q. elim (Bool-cases (q == p)) [ inl mine ↦ ground arith | inr other ↦ ground (arith, v.1 q) ],
  )

  Run-IsStuck : {s t : Users k} → Run k id s t → IsStuck k id s → IsStuck k id t
  Run-IsStuck start v = v
  Run-IsStuck (step r e) v = Step-IsStuck e (Run-IsStuck r v)

created-value :
    (k : Kernel) (is_kernel : IsKernel k) (key : ℤ) (s : k.Sets)
    → is_error (create k key s).1 ≡ false
    → k.value (create k key s).1 0 (create k key s).0 ≡ 1
unfolding create
created-value k is_kernel key s ok =
    let made = k.semget key 17 s in
    let set = is_kernel.is_set made.1 initial_values made.0 0 1 in ground (arith, ok, set)

created-IsExclusive :
    (k : Kernel) (is_kernel : IsKernel k) (key : ℤ) (s : k.Sets)
    → is_error (create k key s).1 ≡ false
    → IsExclusive k (create k key s).1 (record { sets = (create k key s).0; inside = λ p. false })
created-IsExclusive k is_kernel key s ok = (
  λ p h. absurd (false-ne-true h),
  λ p q h. absurd (false-ne-true h),
  omega (arith, created-value k is_kernel key s ok),
)
  where
    false-ne-true : false ≢ true
    false-ne-true h = ground arith

-- After a create that has made the semaphores, and any operations that log no error on the master's one,
-- by processes of which some end: two processes between their master_lock and their master_unlock are
-- one. The kernel keeps what it promises.
pub Run-one_inside :
    (k : Kernel) (key : ℤ) (s : k.Sets) (t : Users k) (p q : ℕ)
    → IsKernel k
    → is_error (create k key s).1 ≡ false
    → Run k (create k key s).1 (record { sets = (create k key s).0; inside = λ i. false }) t
    → t.inside p ≡ true
    → t.inside q ≡ true
    → p ≡ q
Run-one_inside k key s t p q is_kernel ok r hp hq =
    let v =
      Run-IsExclusive k is_kernel (create k key s).1 r (created-IsExclusive k is_kernel key s ok) in
    v.1 p q hp hq

-- Semaphores that a create has made, after any operations that log no error on the master's one, by
-- processes of which some end: once a process ends between its master_lock and its master_unlock,
-- whatever such operations follow, no process is there any more, and master_lock does not come back
-- without an error. The kernel keeps what it promises.
pub Run-stuck :
    (k : Kernel) (key : ℤ) (s : k.Sets) (t u : Users k) (p q : ℕ)
    → IsKernel k
    → is_error (create k key s).1 ≡ false
    → Run k (create k key s).1 (record { sets = (create k key s).0; inside = λ i. false }) t
    → t.inside p ≡ true
    → Run k (create k key s).1 (record t { inside = update t.inside p false }) u
    → (u.inside q ≡ false) × ((master_lock k (create k key s).1 u.sets).1 ≢ false)
Run-stuck k key s t u p q is_kernel ok r hp r' =
    let id = (create k key s).1 in
    let v = Run-IsExclusive k is_kernel id r (created-IsExclusive k is_kernel key s ok) in
    let out : (i : ℕ) → update t.inside p false i ≡ false = λ i. elim (Bool-cases (i == p)) [
      | inl mine ↦ ground arith
      | inr other ↦ elim (Bool-cases (t.inside i)) [
        | inl is_in ↦ ground (arith, v.1 i p is_in hp)
        | inr outside ↦ ground arith
      ]
    ] in
    let stuck = Run-IsStuck k is_kernel id r' (v.0 p hp, out) in
    (stuck.1 q, λ free. omega (arith, stuck.0, lock_value k is_kernel id u.sets free))
