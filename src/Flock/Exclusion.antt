-- ===== src/Flock/Exclusion.antt =====
-- The processes that use `hako_flock_acquire`, `hako_flock_try_acquire` and `hako_flock_release` of
-- posix/hako_flock.cpp on one file.
use hakoniwa_core_cpp.Prelude.{
  ℕ, ◌<◌, Bool, true, false, ◌||◌, ◌==◌, if◌then◌else◌, List, [], ◌∷◌, length, take, Option, none,
  some, ◌≡◌, refl, arith, Bool-cases, Option-cases, dec_lt, ◌⊎◌, inl, inr,
}
use hakoniwa_core_cpp.Pdu.Types.{update}
use hakoniwa_core_cpp.FlockWait.{WaitState, wait_checkpoint}
use hakoniwa_core_cpp.Flock.{
  FlockObject, new_object, Answer, granted, Try, Acquired, got, thrown, waiting, wait_unbounded,
  wait_bounded, flock_acquire, flock_try_acquire, flock_release,
}

-- Each process has one object of the file. `holder` is the process that the system has given the lock.
pub record Processes : Type 0 where
  pub object : ℕ → FlockObject
  pub holder : Option ℕ

-- The system frees the lock of a process that gives it back or ends.
abbrev pub freed : ℕ → Option ℕ → Option ℕ
freed p none = none
freed p (some q) = if q == p then none else some q

-- The rounds are those that the call makes: after fewer of them it has not ended.
abbrev pub IsWhole : WaitState → ℕ → List Try → FlockObject → Type 0
IsWhole w started ts o = (n : ℕ) → n < length ts → flock_acquire w started (take n ts) o ≡ waiting

-- Whether a call of flock, which a round makes after its checkpoint, is answered with the lock.
abbrev pub is_granted : WaitState → ℕ → List Try → Bool
is_granted w started [] = false
is_granted w started (t ∷ ts) =
    elim (wait_checkpoint w started t.now_ms) [
      | some e ↦ false
      | none ↦ elim t.answer [ granted ↦ true | _ ↦ false ]
    ]
    || is_granted w started ts

-- The object after a call, which keeps it where it throws.
abbrev pub after_acquire : FlockObject → Acquired → FlockObject
after_acquire o (got u) = u
after_acquire o (thrown e) = o
after_acquire o waiting = o

-- What a call returns with, or throws. The system answers flock with the lock only while no other process
-- holds it, and whoever is answered so holds it.
pub data Step : Processes → Processes → Type 0 where
  acquires :
      {s : Processes} (p : ℕ) (w : WaitState) (started : ℕ) (ts : List Try)
      → IsWhole w started ts (s.object p)
      → (is_granted w started ts ≡ true → (s.holder ≡ none) ⊎ (s.holder ≡ some p))
      → Step s (record {
        object =
            update s.object p
              (after_acquire (s.object p) (flock_acquire w started ts (s.object p)));
        holder = if is_granted w started ts then some p else s.holder;
      })
  -- For a try that makes no call of flock the answer is one without effect.
  tries :
      {s : Processes} (p : ℕ) (a : Answer)
      → (a ≡ granted → (s.holder ≡ none) ⊎ (s.holder ≡ some p))
      → Step s (record {
        object = update s.object p (flock_try_acquire a (s.object p)).0;
        holder = elim a [ granted ↦ some p | _ ↦ s.holder ];
      })
  releases :
      {s : Processes} (p : ℕ)
      → Step s (record {
        object = update s.object p (flock_release (s.object p)).0;
        holder = if (flock_release (s.object p)).1 then freed p s.holder else s.holder;
      })
  -- The process ends, and another one opens the file in its place.
  ends :
      {s : Processes} (p : ℕ) (created : Bool)
      → Step s
          (record { object = update s.object p (new_object created); holder = freed p s.holder })

pub data Run : Processes → Processes → Type 0 where
  start : {s : Processes} → Run s s
  step : {s t u : Processes} → Run s t → Step t u → Run s u

-- Whoever counts the lock holds it.
abbrev pub IsOwned : Processes → Type 0
IsOwned s = (p : ℕ) → 0 < (s.object p).lock_count → s.holder ≡ some p

wait_unbounded-got :
    (w : WaitState) (started : ℕ) (o u : FlockObject) (ts : List Try)
    → w.enabled ≡ false
    → wait_unbounded o ts ≡ got u
    → is_granted w started ts ≡ true
unfolding wait_unbounded wait_checkpoint
wait_unbounded-got w started o u [] off h = ground arith
wait_unbounded-got w started o u (t ∷ ts) off h =
    ground (arith, wait_unbounded-got w started o u ts off)

wait_bounded-got :
    (w : WaitState) (started : ℕ) (o u : FlockObject) (ts : List Try)
    → wait_bounded w started o ts ≡ got u
    → is_granted w started ts ≡ true
unfolding wait_bounded
wait_bounded-got w started o u [] h = ground arith
wait_bounded-got w started o u (t ∷ ts) h =
    elim (Option-cases (wait_checkpoint w started t.now_ms)) [
      | inr (e, late) ↦ ground arith
      | inl on_time ↦ ground (arith, wait_bounded-got w started o u ts)
    ]

flock_acquire-got :
    (w : WaitState) (started : ℕ) (o u : FlockObject) (ts : List Try)
    → o.lock_count ≡ 0
    → flock_acquire w started ts o ≡ got u
    → is_granted w started ts ≡ true
unfolding flock_acquire
flock_acquire-got w started o u ts free h = elim (Bool-cases w.enabled) [
  | inl on ↦ wait_bounded-got w started o u ts (ground arith)
  | inr off ↦ wait_unbounded-got w started o u ts off (ground arith)
]

-- A call that comes to count the lock has been answered with it.
acquired-granted :
    (w : WaitState) (started : ℕ) (o : FlockObject) (ts : List Try)
    → o.lock_count ≡ 0
    → 0 < (after_acquire o (flock_acquire w started ts o)).lock_count
    → is_granted w started ts ≡ true
acquired-granted w started o ts free counts = go (flock_acquire w started ts o) refl counts
  where
    go :
        (r : Acquired)
        → flock_acquire w started ts o ≡ r
        → 0 < (after_acquire o r).lock_count
        → is_granted w started ts ≡ true
    go (got u) e h = flock_acquire-got w started o u ts free e
    go (thrown x) e h = absurd (omega (arith, free, h))
    go waiting e h = absurd (omega (arith, free, h))

-- One that counts the lock already makes no round.
nested-granted :
    (w : WaitState) (started : ℕ) (o : FlockObject) (ts : List Try)
    → 0 < o.lock_count
    → IsWhole w started ts o
    → is_granted w started ts ≡ false
unfolding flock_acquire
nested-granted w started o [] held whole = refl
nested-granted w started o (t ∷ ts) held whole = ground (arith, whole 0 (omega arith))

Step-IsOwned : {s t : Processes} → Step s t → IsOwned s → IsOwned t
unfolding flock_try_acquire flock_release
Step-IsOwned {s} (acquires p w started ts whole free) v q h =
    let o = s.object p in
    elim (Bool-cases (q == p)) [
      | inl same ↦ elim (dec_lt 0 o.lock_count) [
        | yes held ↦ ground (arith, v p held, nested-granted w started o ts held whole)
        | no first ↦ ground (arith, acquired-granted w started o ts (omega (arith, first)))
      ]
      | inr other ↦ ground (arith, v q)
    ]
Step-IsOwned (tries p a free) v q h = elim (Bool-cases (q == p)) [
  | inl same ↦ ground (arith, v p)
  | inr other ↦ ground (arith, v q)
]
Step-IsOwned (releases p) v q h = elim (Bool-cases (q == p)) [
  | inl same ↦ ground (arith, v p)
  | inr other ↦ ground (arith, v q)
]
Step-IsOwned (ends p created) v q h = elim (Bool-cases (q == p)) [
  | inl same ↦ ground (arith, v p)
  | inr other ↦ ground (arith, v q)
]

Run-IsOwned : {s t : Processes} → Run s t → IsOwned s → IsOwned t
Run-IsOwned start v = v
Run-IsOwned (step r e) v = Step-IsOwned e (Run-IsOwned r v)

-- From a state in which no process has acquired the file lock: after any calls, tries, releases and ends
-- of processes, two processes that have both acquired it more often than released are one. flock answers
-- with the lock only while no other process holds it, and whoever is answered so holds it until it gives it
-- back or ends.
pub Run-exclusive :
    {s t : Processes} (p q : ℕ)
    → ((i : ℕ) → (s.object i).lock_count ≡ 0)
    → Run s t
    → 0 < (t.object p).lock_count
    → 0 < (t.object q).lock_count
    → p ≡ q
Run-exclusive {s} {t} p q free r hp hq =
    let v : IsOwned s = λ i h. absurd (omega (arith, free i)) in
    let w = Run-IsOwned r v in ground (arith, w p hp, w q hq)
