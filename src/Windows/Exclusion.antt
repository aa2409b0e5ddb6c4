-- ===== src/Windows/Exclusion.antt =====
-- win/hako_flock.cpp: one process at a time has the lock of a file, and gives it back.
use hakoniwa_core_cpp.Prelude.{
  ℕ, Bool, true, false, ◌^◌, ◌<◌, ◌≤◌, ◌==◌, none, ◌≡◌, refl, arith, Bool-cases, inl, inr,
}
use hakoniwa_core_cpp.Pdu.Types.{update}
use hakoniwa_core_cpp.Windows.FileIo.{win_flock_release, lock_request}
use hakoniwa_core_cpp.Windows.Flock.{WinFlock, flock_release}
use hakoniwa_core_cpp.Windows.Requests.{length_of, length_of-unlock_request}
use hakoniwa_core_cpp.Windows.Processes.{
  Processes, IsGrantable, unlocks, is_given, gives_range, held_after, Step, acquires, tries,
  releases, writes, asks_size, ends, Run, start, step,
}
use hakoniwa_core_cpp.Windows.Ranges.{Run-IsAllSound}

-- No process has a lock, and sizes have 64 bits.
abbrev pub IsIdle : WinFlock → ℕ → Type 0
IsIdle o n = (o.lock_count ≡ 0) × (n ≡ 0) × (o.fd.size < 2 ^ 64) × (o.fd.locked_size ≡ 0)

-- The system has locked a range for one process at most.
abbrev IsAlone : Processes → Type 0
IsAlone s = (p q : ℕ) → 0 < s.held p → 0 < s.held q → p ≡ q

granted-IsAlone :
    (p : ℕ) (b : Bool) (s : Processes)
    → (b ≡ true → IsGrantable (length_of (lock_request (s.object p).fd)) s)
    → IsAlone s
    → (i j : ℕ) → 0 < held_after p b s i
    → 0 < held_after p b s j
    → i ≡ j
granted-IsAlone p false s grantable v i j hi hj = v i j hi hj
granted-IsAlone p true s grantable v i j hi hj = elim (Bool-cases (i == p)) [
  | inl mine ↦ elim (Bool-cases (j == p)) [
    | inl too ↦ ground arith
    | inr other ↦ ground (arith, grantable refl j 0)
  ]
  | inr other ↦ elim (Bool-cases (j == p)) [
    | inl mine ↦ ground (arith, grantable refl i 0)
    | inr too ↦ ground (arith, v i j)
  ]
]

-- A range that has been given back, or kept.
kept : (p n i : ℕ) (s : Processes) → n ≤ s.held p → 0 < update s.held p n i → 0 < s.held i
kept p n i s less h = elim (Bool-cases (i == p)) [
  | inl mine ↦ ground arith
  | inr other ↦ ground arith
]

release-le : (n : ℕ) (o : WinFlock) → (flock_release unlocks n o).0 ≤ n
unfolding flock_release win_flock_release
release-le n o = ground arith

Step-IsAlone : {s t : Processes} → Step s t → IsAlone s → IsAlone t
Step-IsAlone {s} (acquires p w started lock_file ts whole grantable) v i j hi hj =
    granted-IsAlone p (is_given w started lock_file ts (s.object p).fd) s grantable v i j hi hj
Step-IsAlone {s} (tries p lock_file grantable) v i j hi hj =
    granted-IsAlone p (gives_range lock_file (s.object p).fd) s grantable v i j hi hj
Step-IsAlone {s} (releases p) v i j hi hj =
    let less = release-le (s.held p) (s.object p) in
    let after = (flock_release unlocks (s.held p) (s.object p)).0 in
    v i j (kept p after i s less hi) (kept p after j s less hj)
Step-IsAlone (writes p moved written offset size) v i j hi hj = v i j hi hj
Step-IsAlone (asks_size p answer small) v i j hi hj = v i j hi hj
Step-IsAlone {s} (ends p o free small unlocked) v i j hi hj =
    v i j (kept p 0 i s (omega arith) hi) (kept p 0 j s (omega arith) hj)

Run-IsAlone : {s t : Processes} → Run s t → IsAlone s → IsAlone t
Run-IsAlone start v = v
Run-IsAlone (step r e) v = Step-IsAlone e (Run-IsAlone r v)

-- From a state in which no process has a lock of the file, and sizes have 64 bits: after any calls, tries
-- and releases, writes that grow the file, questions for its size and ends of processes, two processes
-- that have both acquired the lock more often than released it are one. LockFileEx gives a range only where
-- no handle holds a byte of it, and whoever is given it holds it until it gives it back or ends.
pub Run-alone :
    {s t : Processes} (p q : ℕ)
    → ((i : ℕ) → IsIdle (s.object i) (s.held i))
    → Run s t
    → 0 < (t.object p).lock_count
    → 0 < (t.object q).lock_count
    → p ≡ q
Run-alone {s} {t} p q idle r hp hq =
    let sound = Run-IsAllSound r (λ i. ground (arith, idle i)) in
    let alone = Run-IsAlone r (λ i j hi hj. absurd (omega (arith, idle i))) in
    ground (arith, alone p q, sound p, sound q)

-- From a state in which no process has a lock of the file, and sizes have 64 bits: after any calls, tries
-- and releases, writes that grow the file, questions for its size and ends of processes, the last
-- hako_flock_release of a process that has the lock throws no error, and UnlockFileEx gives back what
-- the system has locked for the process, where it frees only a range that is the locked one.
pub Run-releases :
    {s t : Processes} (p : ℕ)
    → ((i : ℕ) → IsIdle (s.object i) (s.held i))
    → Run s t
    → (t.object p).lock_count ≡ 1
    → (0 < t.held p)
      × ((flock_release unlocks (t.held p) (t.object p)).1.1 ≡ none)
      × ((flock_release unlocks (t.held p) (t.object p)).1.0.lock_count ≡ 0)
      × ((flock_release unlocks (t.held p) (t.object p)).0 ≡ 0)
unfolding flock_release win_flock_release
Run-releases {s} {t} p idle r once =
    let sound = Run-IsAllSound r (λ i. ground (arith, idle i)) p in
    let len = length_of-unlock_request (t.object p).fd sound.1 in
    (ground arith, ground arith, ground arith, ground arith)
