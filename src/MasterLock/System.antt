-- ===== src/MasterLock/System.antt =====
-- Processes that share one flock.bin: calls of `master_lock` and `master_unlock`
-- (hako_sem_flock.cpp), each under the OS file lock, in any order, and processes that end at any
-- time. A process that ends in the middle of a transition has made some of its writes; a call whose
-- later writes fail, followed by its end, leaves the same file.
use hakoniwa_core_cpp.Prelude.{
  eqb_ℤ, Bool, true, false, ◌&&◌, ◌||◌, ◌==◌, if◌then◌else◌, Option, none, some, ◌≡◌, ◌≢◌, refl,
  arith, inl, inr, Option-cases, ap, sym, ◌∙◌,
}
use hakoniwa_core_cpp.Identity.{IdentityStatus, ProcessIdentity}
use hakoniwa_core_cpp.MasterLock.Metadata.{FlockFile}
use hakoniwa_core_cpp.MasterLock.Acquire.{Verdict, done, Writes, lock_attempt}
use hakoniwa_core_cpp.MasterLock.Release.{unlock_as}
use hakoniwa_core_cpp.MasterLock.Shapes.{IsFree, IsHeldBy, owner_of}
use hakoniwa_core_cpp.MasterLock.Protocol.{lock_attempt-done, lock_attempt-file, unlock-file}

abbrev pub same_id : ProcessIdentity → ProcessIdentity → Bool
same_id a b = eqb_ℤ a.pid b.pid && (a.start_token == b.start_token)

pub same_id-eq : (a b : ProcessIdentity) → same_id a b ≡ true → a ≡ b
same_id-eq a b h = ground arith

-- `holder` is the process between a return of `master_lock` and its call of `master_unlock`.
pub record System : Type 0 where
  pub file : FlockFile
  pub holder : Option ProcessIdentity
  pub has_ended : ProcessIdentity → Bool

-- The holder, unless it is `me`.
abbrev pub without : ProcessIdentity → Option ProcessIdentity → Option ProcessIdentity
without me none = none
without me (some q) = if same_id q me then none else some q

-- A call of `master_lock` that returns makes its caller the holder.
abbrev pub after_lock : ProcessIdentity → Option ProcessIdentity → Verdict → Option ProcessIdentity
after_lock me held done = some me
after_lock me held _ = held

pub data Step (s : System) : System → Type 0 where
  locks :
      (check : ProcessIdentity → IdentityStatus) (bounded : Bool) (w : Writes)
      (me : ProcessIdentity) {f : FlockFile} {v : Verdict}
      → s.has_ended me ≡ false
      → lock_attempt check bounded w me s.file ≡ (f, v)
      → Step s (record s { file = f; holder = after_lock me s.holder v })
  unlocks :
      (check : ProcessIdentity → IdentityStatus) (w : Writes) (me : ProcessIdentity) {f : FlockFile}
      {v : Verdict}
      → s.has_ended me ≡ false
      → unlock_as check w me s.file ≡ (f, v)
      → Step s (record s { file = f; holder = without me s.holder })
  ends :
      (me : ProcessIdentity)
      → Step s (record s {
        holder = without me s.holder;
        has_ended = λ q. same_id q me || s.has_ended q;
      })

pub data Reach (s : System) : System → Type 0 where
  here : Reach s s
  next : {t u : System} → Reach s t → Step t u → Reach s u

-- A holder is recorded in the file as its owner.
pub record Inv (s : System) : Type 0 where
  pub recorded : (q : ProcessIdentity) → s.holder ≡ some q → IsHeldBy q s.file

same_id_refl : (a : ProcessIdentity) → same_id a a ≡ true
same_id_refl a = ground arith

without-some :
    (me q : ProcessIdentity) (h : Option ProcessIdentity)
    → without me h ≡ some q
    → (h ≡ some q) × (q ≢ me)
without-some me q none e = cc
without-some me q (some p) e = (ground arith, λ h. ground (arith, same_id_refl me))

free_held : (q : ProcessIdentity) (f : FlockFile) → IsFree f → IsHeldBy q f → ⊥
free_held q f a b = omega (arith, a.state, b.state)

held_unique : (p q : ProcessIdentity) (f : FlockFile) → IsHeldBy p f → IsHeldBy q f → p ≡ q
held_unique p q f a b = sym a.owner ∙ b.owner

locks-Inv :
    (check : ProcessIdentity → IdentityStatus) (bounded : Bool) (w : Writes) (me : ProcessIdentity)
    (s : System) (f : FlockFile) (v : Verdict)
    → lock_attempt check bounded w me s.file ≡ (f, v)
    → Inv s
    → Inv (record s { file = f; holder = after_lock me s.holder v })
locks-Inv check bounded w me s f done e inv = record {
  recorded = λ q h.
      let mine : me ≡ q = cc in rw (← mine) (lock_attempt-done check bounded w me s.file f e).1;
}
locks-Inv check bounded w me s f v e inv = record {
  recorded = λ q h. elim (lock_attempt-file check bounded w me s.file) [
    | inl same ↦ rw (sym (ap (λ r. r.0) e) ∙ same) (inv.recorded q h)
    | inr free ↦ absurd (free_held q s.file free (inv.recorded q h))
  ];
}

unlocks-Inv :
    (check : ProcessIdentity → IdentityStatus) (w : Writes) (me : ProcessIdentity) (s : System)
    (f : FlockFile) (v : Verdict)
    → unlock_as check w me s.file ≡ (f, v)
    → Inv s
    → Inv (record s { file = f; holder = without me s.holder })
unlocks-Inv check w me s f v e inv = record {
  recorded = λ q h.
      let (held, other) = without-some me q s.holder h in
      elim (unlock-file check w me s.file) [
        | inl same ↦ rw (sym (ap (λ r. r.0) e) ∙ same) (inv.recorded q held)
        | inr (mine, lives) ↦ absurd (other (held_unique q me s.file (inv.recorded q held) mine))
      ];
}

-- Every step keeps the invariant.
pub Step-Inv : {s t : System} → Step s t → Inv s → Inv t
Step-Inv {s} (locks check bounded w me {f} {v} lives e) inv =
    locks-Inv check bounded w me s f v e inv
Step-Inv {s} (unlocks check w me {f} {v} lives e) inv = unlocks-Inv check w me s f v e inv
Step-Inv {s} (ends me) inv = record {
  recorded = λ q h. inv.recorded q (without-some me q s.holder h).0;
}

pub Reach-Inv : {s t : System} → Inv s → Reach s t → Inv t
Reach-Inv inv here = inv
Reach-Inv inv (next r st) = Step-Inv st (Reach-Inv inv r)

-- Mutual exclusion: from a system in which no process holds the lock, after any calls of `master_lock`
-- and `master_unlock`, with any writes failing and any answers of the identity checks, and any ends of
-- processes, a call of `master_lock` returns only if no process that still runs is between
-- its `master_lock` and its `master_unlock`.
pub mutual_exclusion :
    (s t : System)
    → s.holder ≡ none
    → Reach s t
    → (check : ProcessIdentity → IdentityStatus) (bounded : Bool) (w : Writes)
      (me : ProcessIdentity) (f : FlockFile)
    → lock_attempt check bounded w me t.file ≡ (f, done)
    → t.holder ≡ none
mutual_exclusion s t none_holds r check bounded w me f e = elim (Option-cases t.holder) [
  | inl h ↦ h
  | inr (q, h) ↦ absurd (
      free_held q t.file (lock_attempt-done check bounded w me t.file f e).0
        ((Reach-Inv (record { recorded = λ p x. absurd (none≢some p x) }) r).recorded q h))
]
  where
    none≢some : (p : ProcessIdentity) → s.holder ≡ some p → ⊥
    none≢some p x = cc

-- A file whose owner is `q`, held or in the middle of a transition.
pub record IsLeftBy (q : ProcessIdentity) (f : FlockFile) : Type 0 where
  pub owner : owner_of f.metadata ≡ q
  pub taken : f.metadata.state ≢ 0

-- Fail-stop, one step: nobody writes to the file that an ended process has left.
Step-IsLeftBy :
    (q : ProcessIdentity) {s t : System}
    → Step s t
    → s.has_ended q ≡ true
    → IsLeftBy q s.file
    → (t.has_ended q ≡ true) × (t.file ≡ s.file)
Step-IsLeftBy q {s} (locks check bounded w me {f} {v} lives e) gone left =
    elim (lock_attempt-file check bounded w me s.file) [
      | inl same ↦ (gone, sym (ap (λ r. r.0) e) ∙ same)
      | inr free ↦ absurd (left.taken free.state)
    ]
Step-IsLeftBy q {s} (unlocks check w me {f} {v} lives e) gone left =
    elim (unlock-file check w me s.file) [
      | inl same ↦ (gone, sym (ap (λ r. r.0) e) ∙ same)
      | inr (mine, _) ↦ let is_q : me ≡ q = sym mine.owner ∙ left.owner in cc (ap s.has_ended is_q)
    ]
Step-IsLeftBy q {s} (ends me) gone left = (ground arith, refl)

-- Fail-stop: once a process has ended that held the lock or was in the middle of taking or freeing
-- it, no call of `master_lock` or `master_unlock` of any
-- process changes the file again.
pub fail_stop :
    (q : ProcessIdentity) {s t : System}
    → s.has_ended q ≡ true
    → IsLeftBy q s.file
    → Reach s t
    → (t.has_ended q ≡ true) × (t.file ≡ s.file)
fail_stop q gone left here = (gone, refl)
fail_stop q {s} gone left (next r st) =
    let (gone', same) = fail_stop q gone left r in
    let (gone'', same') = Step-IsLeftBy q st gone' (rw same left) in (gone'', same' ∙ same)
