-- ===== src/MemoryLog/Overrun.antt =====
-- Processes that log at the same time: the steps of `add_log` of hako_master_data.hpp, which tests the
-- index before it takes the lock.
use hakoniwa_core_cpp.Prelude.{
  ℕ, zero, suc, ◌+◌, ◌≤◌, ◌<◌, dec_lt, All, Bool-cases, ◌==◌, inl, inr, List, [], ◌∷◌, ◌≡◌, refl,
  ap, arith,
}
use hakoniwa_core_cpp.Pdu.Types.{update}

-- A process is not in the call, has passed the test, or has its index.
pub data Place : Type 0 where
  away passed : Place
  holding : ℕ → Place

-- The index, where each process stands, and the entries that have been written, the last one first.
pub record Logging : Type 0 where
  pub index : ℕ
  pub place : ℕ → Place
  pub written : List ℕ

-- A step of one of `procs` processes, with `lognum` entries.
pub data Step (lognum procs : ℕ) (s : Logging) : Logging → Type 0 where
  tests :
      (p : ℕ)
      → p < procs
      → s.place p ≡ away
      → s.index < lognum
      → Step lognum procs s (record s { place = update s.place p passed })
  takes :
      (p : ℕ)
      → p < procs
      → s.place p ≡ passed
      → Step lognum procs s
          (record s { index = suc s.index; place = update s.place p (holding s.index) })
  writes :
      (p i : ℕ)
      → p < procs
      → s.place p ≡ holding i
      → Step lognum procs s (record s { place = update s.place p away; written = i ∷ s.written })

pub data Run (lognum procs : ℕ) (s : Logging) : Logging → Type 0 where
  here : Run lognum procs s s
  next : {t u : Logging} → Run lognum procs s t → Step lognum procs t u → Run lognum procs s u

-- No process logs.
abbrev pub quiet : ℕ → Logging
quiet index = record { index = index; place = λ p. away; written = [] }

-- The processes below `n` that have passed the test and have no index yet.
abbrev is_passed : Place → ℕ
is_passed away = 0
is_passed passed = 1
is_passed (holding i) = 0

in_between : ℕ → (ℕ → Place) → ℕ
in_between zero f = 0
in_between (suc n) f = in_between n f + is_passed (f n)

in_between-beyond :
    (n : ℕ) (f : ℕ → Place) (p : ℕ) (x : Place)
    → n ≤ p
    → in_between n (update f p x) ≡ in_between n f
unfolding in_between
in_between-beyond zero f p x h = refl
in_between-beyond (suc n) f p x h = ground (arith, in_between-beyond n f p x)

in_between-update :
    (n : ℕ) (f : ℕ → Place) (p : ℕ) (x : Place)
    → p < n
    → in_between n (update f p x) + is_passed (f p) ≡ in_between n f + is_passed x
unfolding in_between
in_between-update zero f p x h = absurd (omega arith)
in_between-update (suc n) f p x h = elim (dec_lt p n) [
  | yes below ↦ ground (arith, in_between-update n f p x below)
  | no last ↦ ground (arith, in_between-beyond n f p x)
]

is_passed-le : (x : Place) → is_passed x ≤ 1
is_passed-le away = omega arith
is_passed-le passed = omega arith
is_passed-le (holding i) = omega arith

in_between-le : (n : ℕ) (f : ℕ → Place) → in_between n f ≤ n
unfolding in_between
in_between-le zero f = omega arith
in_between-le (suc n) f = omega (arith, is_passed-le (f n), in_between-le n f)

in_between-away : (n : ℕ) → in_between n (λ p. away) ≡ 0
unfolding in_between
in_between-away zero = refl
in_between-away (suc n) = omega (arith, in_between-away n)

away-ne : (i : ℕ) → Path Place away (holding i) → ⊥
away-ne i h = cc

-- The index and the processes that will still raise it, and the entries that are in use.
record IsBounded (lognum procs : ℕ) (s : Logging) : Type 0 where
  few : s.index + in_between procs s.place < lognum + procs
  held : (p i : ℕ) → s.place p ≡ holding i → i < s.index
  used : All (λ i. i < s.index) s.written

All-suc : (n : ℕ) (is : List ℕ) → All (λ i. i < n) is → All (λ i. i < suc n) is
All-suc n [] h = tt
All-suc n (i ∷ is) h = (omega (arith, h.0), All-suc n is h.1)

Step-IsBounded :
    (lognum procs : ℕ) (s t : Logging)
    → Step lognum procs s t
    → IsBounded lognum procs s
    → IsBounded lognum procs t
Step-IsBounded lognum procs s _ (tests p mine at room) v = record {
  few = omega (arith, in_between-le procs (update s.place p passed));
  held = λ q i h. elim (Bool-cases (q == p)) [
    | inl same ↦ ground arith
    | inr other ↦ ground (arith, v.held q i)
  ];
  used = v.used;
}
Step-IsBounded lognum procs s _ (takes p mine at) v =
    let fewer = in_between-update procs s.place p (holding s.index) mine in
    record {
      few = omega (arith, fewer, ap is_passed at, v.few);
      held = λ q i h. elim (Bool-cases (q == p)) [
        | inl same ↦ ground arith
        | inr other ↦ ground (arith, v.held q i)
      ];
      used = All-suc s.index s.written v.used;
    }
Step-IsBounded lognum procs s _ (writes p i mine at) v =
    let same = in_between-update procs s.place p away mine in
    record {
      few = omega (arith, same, ap is_passed at, v.few);
      held = λ q i h. elim (Bool-cases (q == p)) [
        | inl same ↦ ground arith
        | inr other ↦ ground (arith, v.held q i)
      ];
      used = (v.held p i at, v.used);
    }

Run-IsBounded :
    (lognum procs : ℕ) (s t : Logging)
    → Run lognum procs s t
    → IsBounded lognum procs s
    → IsBounded lognum procs t
Run-IsBounded lognum procs s _ here v = v
Run-IsBounded lognum procs s t (next {t = u} r e) v =
    Step-IsBounded lognum procs u t e (Run-IsBounded lognum procs s u r v)

-- With one free entry left, two processes can both log, and the second one writes behind the last entry.
pub overrun : (n : ℕ) → (t : Logging) × Run (suc n) 2 (quiet n) t × (t.written ≡ suc n ∷ n ∷ [])
overrun n = (
  _,
  next
      (next
        (next
          (next
            (next (next here (tests 0 (omega arith) refl (omega arith)))
              (tests 1 (omega arith) refl (omega arith)))
            (takes 0 (omega arith) refl))
          (takes 1 (omega arith) refl))
        (writes 0 n (omega arith) refl))
      (writes 1 (suc n) (omega arith) refl),
  refl,
)

All-below : (n m : ℕ) (is : List ℕ) → n < m → All (λ i. i < n) is → All (λ i. suc i < m) is
All-below n m [] le h = tt
All-below n m (i ∷ is) le h = (omega (arith, h.0), All-below n m is le h.1)

-- When processes log at the same time, one at least, to a log whose index is not beyond its entries:
-- in any order of their steps, each entry that they write stands behind the last one of the log by no
-- more than the number of processes less one.
pub Run-bound :
    (lognum procs index : ℕ) (t : Logging)
    → index ≤ lognum
    → 0 < procs
    → Run lognum procs (quiet index) t
    → All (λ i. suc i < lognum + procs) t.written
Run-bound lognum procs index t room some_ r =
    let nobody : (n : ℕ) → in_between n (λ p. away) ≡ 0 = λ n. in_between-away n in
    let v = Run-IsBounded lognum procs (quiet index) t r (record {
      few = omega (arith, nobody procs);
      held = λ p i h. absurd (away-ne i h);
      used = tt;
    }) in
    All-below t.index (lognum + procs) t.written (omega (arith, v.few)) v.used
