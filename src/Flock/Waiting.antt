-- ===== src/Flock/Waiting.antt =====
-- How long `hako_flock_acquire` of posix/hako_flock.cpp waits.
use hakoniwa_core_cpp.Prelude.{
  ℕ, ◌+◌, ◌*◌, ◌^◌, ◌≤◌, ◌<◌, true, false, ltb, List, [], ◌∷◌, length, none, some, ◌≡◌, ◌≢◌, refl,
  arith, All, Bool-cases, dec_lt, Option-cases, inl, inr, ◌⊎◌,
}
use hakoniwa_core_cpp.FlockWait.{WaitError, timeout, WaitState, wait_checkpoint}
use hakoniwa_core_cpp.Flock.{
  FlockObject, would_block, Try, thrown, waiting, wait_bounded, flock_acquire,
}

-- Each round begins at least 20 milliseconds after the one before, and the clock stays below 2^64.
abbrev pub Ticks : ℕ → List Try → Type 0
Ticks t [] = Unit
Ticks t (r ∷ rs) = (t ≤ r.now_ms) × (r.now_ms < 2 ^ 64) × Ticks (r.now_ms + 20) rs

checkpoint-late :
    (s : WaitState) (started now : ℕ)
    → s.enabled ≡ true
    → started + s.options.timeout_ms ≤ now
    → now < 2 ^ 64
    → wait_checkpoint s started now ≢ none
unfolding wait_checkpoint
checkpoint-late s started now on late small = ground arith

wait_bounded-ne-waiting :
    (s : WaitState) (started t : ℕ) (o : FlockObject) (ts : List Try)
    → s.enabled ≡ true
    → Ticks t ts
    → t < started + s.options.timeout_ms + 20
    → started + s.options.timeout_ms + 20 ≤ t + 20 * length ts
    → wait_bounded s started o ts ≢ waiting
unfolding wait_bounded
wait_bounded-ne-waiting s started t o [] on k early h = absurd (omega arith)
wait_bounded-ne-waiting s started t o (r ∷ rs) on k early h =
    elim (Option-cases (wait_checkpoint s started r.now_ms)) [
      | inr (e, over) ↦ ground arith
      | inl on_time ↦
          let not_late : r.now_ms < started + s.options.timeout_ms =
            elim (dec_lt r.now_ms (started + s.options.timeout_ms)) [
              | yes lt ↦ lt
              | no ge ↦ absurd (checkpoint-late s started r.now_ms on (omega arith) k.1 on_time)
            ] in
          ground (arith, wait_bounded-ne-waiting s started (r.now_ms + 20) o rs on k.2)
    ]

-- A bounded wait ends: where the wait is enabled, its rounds follow each other by 20 milliseconds or
-- more, and 20 milliseconds for each round add up to the time limit and one round more, the call of
-- hako_flock_acquire has returned or thrown, whatever the system has answered. The clock does not reach
-- 2^64.
pub flock_acquire-ne-waiting :
    (s : WaitState) (started : ℕ) (ts : List Try) (o : FlockObject)
    → s.enabled ≡ true
    → Ticks started ts
    → s.options.timeout_ms + 20 ≤ 20 * length ts
    → flock_acquire s started ts o ≢ waiting
unfolding flock_acquire
flock_acquire-ne-waiting s started ts o on k enough = elim (Bool-cases (ltb 0 o.lock_count)) [
  | inl nested ↦ ground arith
  | inr first ↦ ground (arith, wait_bounded-ne-waiting s started started o ts on k)
]

checkpoint-timeout :
    (s : WaitState) (started now : ℕ) (e : WaitError)
    → s.options.is_interrupted ≡ false
    → wait_checkpoint s started now ≡ some e
    → e ≡ timeout
unfolding wait_checkpoint
checkpoint-timeout s started now e calm h = ground arith

wait_bounded-held :
    (s : WaitState) (started : ℕ) (o : FlockObject) (ts : List Try)
    → s.options.is_interrupted ≡ false
    → All (λ r. r.answer ≡ would_block) ts
    → (wait_bounded s started o ts ≡ thrown timeout) ⊎ (wait_bounded s started o ts ≡ waiting)
unfolding wait_bounded
wait_bounded-held s started o [] calm held = inr refl
wait_bounded-held s started o (r ∷ rs) calm held =
    elim (Option-cases (wait_checkpoint s started r.now_ms)) [
      | inr (e, over) ↦ inl (ground (arith, checkpoint-timeout s started r.now_ms e calm over))
      | inl on_time ↦ elim (wait_bounded-held s started o rs calm held.1) [
        | inl over ↦ inl (ground arith)
        | inr waits ↦ inr (ground arith)
      ]
    ]

-- A process that does not hold the lock, and whose bounded wait finds it held by another one in each
-- round, is given a timeout, if nothing interrupts it, its rounds follow each other by 20 milliseconds or
-- more, and 20 milliseconds for each round add up to the time limit and one round more. The clock does
-- not reach 2^64.
pub flock_acquire-held :
    (s : WaitState) (started : ℕ) (ts : List Try) (o : FlockObject)
    → s.enabled ≡ true
    → s.options.is_interrupted ≡ false
    → o.lock_count ≡ 0
    → Ticks started ts
    → s.options.timeout_ms + 20 ≤ 20 * length ts
    → All (λ r. r.answer ≡ would_block) ts
    → flock_acquire s started ts o ≡ thrown timeout
unfolding flock_acquire
flock_acquire-held s started ts o on calm free k enough held =
    elim (wait_bounded-held s started o ts calm held) [
      | inl over ↦ ground arith
      | inr waits ↦
          absurd
            (wait_bounded-ne-waiting s started started o ts on k (omega arith) (omega arith) waits)
    ]
