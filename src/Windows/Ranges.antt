-- ===== src/Windows/Ranges.antt =====
-- The byte range that a process of Windows has locked, and the one that its handle knows.
use hakoniwa_core_cpp.Prelude.{
  ℕ, dec_lt, Bool, true, false, ◌^◌, ◌<◌, ℤ, pos, negsuc, ◌==◌, List, Option, none, some, ◌≡◌, refl,
  arith, Bool-cases, ◌↔◌, inl, inr,
}
use hakoniwa_core_cpp.FlockWait.{WaitState}
use hakoniwa_core_cpp.Windows.FileIo.{
  win_flock_release, win_flock_try_acquire, LockAnswer, IoAnswer, file_size, lock_request,
}
use hakoniwa_core_cpp.Windows.Flock.{
  WinFlock, Try, flock_acquire, flock_try_acquire, flock_release, flock_write_bytes, flock_size,
}
use hakoniwa_core_cpp.Windows.Requests.{
  length_of, lock_size_pos, lock_size_small, length_of-lock_request, length_of-unlock_request,
}
use hakoniwa_core_cpp.Windows.Processes.{
  Processes, unlocks, IsGrantable, gives_range, is_given, IsWhole, after_acquire, held_after, Step,
  acquires, tries, releases, writes, asks_size, ends, Run, start, step,
}
use hakoniwa_core_cpp.Windows.Acquired.{locked, acquire-given, acquire-not_given, acquire-nested}

-- The range that the system has locked is the one that the object knows.
abbrev pub IsSound : WinFlock → ℕ → Type 0
IsSound o n =
    (o.fd.size < 2 ^ 64)
    × (o.fd.locked_size < 2 ^ 64)
    × (n ≡ o.fd.locked_size)
    × ((o.lock_count ≡ 0) ↔ (n ≡ 0))

locked-IsSound :
    (o : WinFlock) (n : ℕ) → IsSound o n → IsSound (locked o) (length_of (lock_request o.fd))
locked-IsSound o n v =
    let len = length_of-lock_request o.fd v.0 in
    ground (arith, lock_size_pos o.fd, lock_size_small o.fd v.0)

-- Nobody who has a range is given it once more.
not_again :
    (p : ℕ) (s : Processes) (b : Bool)
    → 0 < (s.object p).lock_count
    → IsSound (s.object p) (s.held p)
    → (b ≡ true → IsGrantable (length_of (lock_request (s.object p).fd)) s)
    → b ≡ false
not_again p s false held v grantable = refl
not_again p s true held v grantable =
    let fd = (s.object p).fd in
    let len = length_of-lock_request fd v.0 in
    absurd (omega (arith, len, lock_size_pos fd, grantable refl p 0))

acquired-IsSound :
    (p : ℕ) (w : WaitState) (started : ℕ) (lock_file : ℕ → ℕ → LockAnswer) (ts : List Try)
    (s : Processes)
    → (w.enabled ≡ true → IsWhole w started lock_file ts (s.object p))
    → (is_given w started lock_file ts (s.object p).fd ≡ true
        → IsGrantable (length_of (lock_request (s.object p).fd)) s)
    → IsSound (s.object p) (s.held p)
    → IsSound
        (after_acquire (s.object p) (flock_acquire w started lock_file ts (s.object p)))
        (held_after p (is_given w started lock_file ts (s.object p).fd) s p)
acquired-IsSound p w started lock_file ts s whole grantable v =
    let o = s.object p in
    elim (dec_lt 0 o.lock_count) [
      | yes held ↦
          let kept = not_again p s (is_given w started lock_file ts o.fd) held v grantable in
          rw (kept, acquire-nested w started lock_file ts o held) (ground arith)
      | no first ↦
          let free : o.lock_count ≡ 0 = omega (arith, first) in
          elim (Bool-cases (is_given w started lock_file ts o.fd)) [
            | inl e ↦
                rw (e, acquire-given w started lock_file ts o free whole e)
                  (ground (arith, locked-IsSound o (s.held p) v))
            | inr e ↦ rw (e, acquire-not_given w started lock_file ts o free e) v
          ]
    ]

write-IsSound :
    (moved written : IoAnswer) (offset size n : ℕ) (o : WinFlock)
    → IsSound o n
    → IsSound (flock_write_bytes moved written offset size o).0 n
unfolding flock_write_bytes
write-IsSound moved written offset size n o v = ground arith

size-IsSound :
    (answer : Option ℤ) (n : ℕ) (o : WinFlock)
    → ((m : ℕ) → answer ≡ some (pos m) → m < 2 ^ 63)
    → IsSound o n
    → IsSound (flock_size answer o).0 n
unfolding flock_size file_size
size-IsSound none n o small v = ground arith
size-IsSound (some (pos m)) n o small v = ground (arith, small m refl)
size-IsSound (some (negsuc m)) n o small v = ground arith

try-IsSound :
    (p : ℕ) (lock_file : ℕ → ℕ → LockAnswer) (s : Processes)
    → (gives_range lock_file (s.object p).fd ≡ true
        → IsGrantable (length_of (lock_request (s.object p).fd)) s)
    → IsSound (s.object p) (s.held p)
    → IsSound
        (flock_try_acquire lock_file (s.object p)).0
        (held_after p (gives_range lock_file (s.object p).fd) s p)
unfolding flock_try_acquire win_flock_try_acquire
try-IsSound p lock_file s grantable v =
    let fd = (s.object p).fd in
    elim (dec_lt 0 (s.object p).lock_count) [
      | yes held ↦
          let kept = not_again p s (gives_range lock_file fd) held v grantable in ground arith
      | no first ↦ ground (arith, locked-IsSound (s.object p) (s.held p) v)
    ]

-- The range that is unlocked is the one that is locked.
release-IsSound :
    (o : WinFlock) (n : ℕ)
    → IsSound o n
    → IsSound (flock_release unlocks n o).1.0 (flock_release unlocks n o).0
unfolding flock_release win_flock_release
release-IsSound o n v = let len = length_of-unlock_request o.fd v.1 in ground arith

abbrev pub IsAllSound : Processes → Type 0
IsAllSound s = (q : ℕ) → IsSound (s.object q) (s.held q)

Step-IsAllSound : {s t : Processes} → Step s t → IsAllSound s → IsAllSound t
Step-IsAllSound {s} (acquires p w started lock_file ts whole grantable) v q =
    elim (Bool-cases (q == p)) [
      | inl same ↦ ground (arith, acquired-IsSound p w started lock_file ts s whole grantable (v p))
      | inr other ↦ ground (arith, v q)
    ]
Step-IsAllSound {s} (tries p lock_file grantable) v q = elim (Bool-cases (q == p)) [
  | inl same ↦ ground (arith, try-IsSound p lock_file s grantable (v p))
  | inr other ↦ ground (arith, v q)
]
Step-IsAllSound {s} (releases p) v q = elim (Bool-cases (q == p)) [
  | inl same ↦ ground (arith, release-IsSound (s.object p) (s.held p) (v p))
  | inr other ↦ ground (arith, v q)
]
Step-IsAllSound {s} (writes p moved written offset size) v q = elim (Bool-cases (q == p)) [
  | inl same ↦ ground (arith, write-IsSound moved written offset size (s.held p) (s.object p) (v p))
  | inr other ↦ ground (arith, v q)
]
Step-IsAllSound {s} (asks_size p answer small) v q = elim (Bool-cases (q == p)) [
  | inl same ↦ ground (arith, size-IsSound answer (s.held p) (s.object p) small (v p))
  | inr other ↦ ground (arith, v q)
]
Step-IsAllSound {s} (ends p o free small unlocked) v q = elim (Bool-cases (q == p)) [
  | inl same ↦ ground arith
  | inr other ↦ ground (arith, v q)
]

pub Run-IsAllSound : {s t : Processes} → Run s t → IsAllSound s → IsAllSound t
Run-IsAllSound start v = v
Run-IsAllSound (step r e) v = Step-IsAllSound e (Run-IsAllSound r v)
