-- ===== src/MasterLock/Protocol.antt =====
-- What one call of `master_lock` or `master_unlock` does to the file (hako_sem_flock.cpp).
use hakoniwa_core_cpp.Prelude.{
  ◌+◌, ◌≤◌, ◌<◌, ◌%◌, ◌^◌, ℤ, pos, eqb_ℤ, Bool, true, false, ◌&&◌, ◌==◌, some, List, [], ◌∷◌,
  get_elem?, set, ◌≡◌, refl, arith, ◌⊎◌, inl, inr, Bool-cases, ap, sym, ◌∙◌,
}
use hakoniwa_core_cpp.Identity.{IdentityStatus, alive, ProcessIdentity}
use hakoniwa_core_cpp.MasterLock.Metadata.{
  unlocked, locked, Metadata, FlockFile, lock_magic, lock_version, metadata_size, sealed,
  read_metadata, write_metadata, write_counter, flock_size,
}
use hakoniwa_core_cpp.MasterLock.Inspect.{Health, ok, Inspection, inspect_locked}
use hakoniwa_core_cpp.MasterLock.Acquire.{
  done, again, Writes, all_ok, is_ok, is_locked, acquire, attempt_ok, lock_attempt, take_counter,
  commit_acquire, acquiring_record, locked_record,
}
use hakoniwa_core_cpp.MasterLock.Release.{
  unlock_as, give_counter, commit_release, releasing_record, unlocked_record,
}
use hakoniwa_core_cpp.MasterLock.Shapes.{
  IsFile, IsFree, IsHeldBy, owner_of, checksum-sealed, inspect-ok, inspect-IsFree, inspect-IsHeldBy,
}

-- Writing a record of this version over a sealed one gives a sealed record.
pub write-IsFile :
    (c : ℤ) (f : FlockFile) (m : Metadata)
    → flock_size ≤ f.size
    → get_elem? f.counters 0 ≡ some c
    → m.magic ≡ lock_magic
    → m.version ≡ lock_version
    → m.size ≡ metadata_size
    → m.state < 4
    → IsFile c (write_metadata f m)
unfolding write_metadata sealed
write-IsFile c f m long first a b s t = record {
  is_long = ground arith;
  first = first;
  is_sealed = record {
    is_magic = a;
    is_version = b;
    is_size = s;
    is_checked = sym (checksum-sealed m);
    is_state = t;
  };
}

set_first : (cs : List ℤ) (c d : ℤ) → get_elem? cs 0 ≡ some c → get_elem? (set cs 0 d) 0 ≡ some d
set_first [] c d h = cc
set_first (x ∷ cs) c d h = refl

pub commit_acquire-IsHeldBy :
    (me : ProcessIdentity) (c : ℤ) (f : FlockFile)
    → IsFile c f
    → IsHeldBy me (commit_acquire me f.metadata f)
unfolding commit_acquire write_counter locked_record write_metadata acquiring_record sealed
commit_acquire-IsHeldBy me c f v = record {
  file =
      write-IsFile (pos 0) (take_counter me f.metadata f) (locked_record me f.metadata)
        (ground arith) (set_first f.counters c (pos 0) v.first) v.is_sealed.is_magic
        v.is_sealed.is_version v.is_sealed.is_size (omega arith);
  state = refl;
  owner = refl;
}

pub commit_release-IsFree :
    (c : ℤ) (f : FlockFile) → IsFile c f → IsFree (commit_release f.metadata f)
unfolding commit_release write_counter unlocked_record write_metadata releasing_record sealed
commit_release-IsFree c f v = record {
  file =
      write-IsFile (pos 1) (give_counter f.metadata f) (unlocked_record f.metadata) (ground arith)
        (set_first f.counters c (pos 1) v.first) v.is_sealed.is_magic v.is_sealed.is_version
        v.is_sealed.is_size (omega arith);
  state = refl;
  owner = refl;
}

acquire-done :
    (w : Writes) (me : ProcessIdentity) (r : Inspection) (m : Metadata) (f g : FlockFile)
    → acquire w me r m f ≡ (g, done)
    → g ≡ commit_acquire me m f
unfolding acquire
acquire-done w me r m f g h = ground arith

attempt_ok-done :
    (w : Writes) (me : ProcessIdentity) (r : Inspection) (f g : FlockFile)
    → attempt_ok w me r f ≡ (g, done)
    → (r.state ≡ unlocked) × (g ≡ commit_acquire me f.metadata f)
unfolding attempt_ok read_metadata
attempt_ok-done w me r f g h = ground (arith, acquire-done w me r f.metadata f g)

lock_attempt-passed :
    (check : ProcessIdentity → IdentityStatus) (bounded : Bool) (w : Writes) (me : ProcessIdentity)
    (f g : FlockFile)
    → lock_attempt check bounded w me f ≡ (g, done)
    → ((inspect_locked check f).health ≡ ok)
      × ((inspect_locked check f).state ≡ unlocked)
      × (g ≡ commit_acquire me f.metadata f)
unfolding lock_attempt
lock_attempt-passed check bounded w me f g h =
    ground (arith, attempt_ok-done w me (inspect_locked check f) f g)

-- A call of `master_lock` that returns has found the lock free, and leaves the file with the caller
-- as the owner and the next generation.
pub lock_attempt-done :
    (check : ProcessIdentity → IdentityStatus) (bounded : Bool) (w : Writes) (me : ProcessIdentity)
    (f g : FlockFile)
    → lock_attempt check bounded w me f ≡ (g, done)
    → IsFree f × IsHeldBy me g × (g.metadata.generation ≡ (f.metadata.generation + 1) % 2 ^ 64)
unfolding commit_acquire write_metadata write_counter locked_record acquiring_record sealed
lock_attempt-done check bounded w me f g h =
    let (fine, is_free, e) = lock_attempt-passed check bounded w me f g h in
    elim (inspect-ok check f fine) [
      | inl v ↦ rw e (v, commit_acquire-IsHeldBy me (pos 1) f v.file, refl)
      | inr (v, lives) ↦ cc (inspect-IsHeldBy check (owner_of f.metadata) f v lives, v.state)
    ]

pub lock_attempt-commit :
    (check : ProcessIdentity → IdentityStatus) (bounded : Bool) (me : ProcessIdentity)
    (f : FlockFile)
    → IsFree f
    → lock_attempt check bounded all_ok me f ≡ (commit_acquire me f.metadata f, done)
unfolding lock_attempt read_metadata
lock_attempt-commit check bounded me f v =
    rw (inspect-IsFree check f v) (ground (arith, v.state, v.file.is_long))

-- If all writes succeed, one round on a free lock ends the call, whatever is known of other processes:
-- it leaves a file that every inspection reads as held by the caller, with the next generation.
pub lock_attempt-IsFree :
    (check : ProcessIdentity → IdentityStatus) (bounded : Bool) (me : ProcessIdentity)
    (f : FlockFile)
    → IsFree f
    → (g : FlockFile) × (lock_attempt check bounded all_ok me f ≡ (g, done))
      × IsHeldBy me g
      × (g.metadata.generation ≡ (f.metadata.generation + 1) % 2 ^ 64)
lock_attempt-IsFree check bounded me f v =
    let e = lock_attempt-commit check bounded me f v in
    let (was_free, held, next) =
      lock_attempt-done check bounded all_ok me f (commit_acquire me f.metadata f) e in
    (commit_acquire me f.metadata f, e, held, next)

-- The holder's release, while it is known to be alive and if all its writes succeed, returns and
-- leaves the lock free.
pub unlock-IsHeldBy :
    (check : ProcessIdentity → IdentityStatus) (me : ProcessIdentity) (f : FlockFile)
    → IsHeldBy me f
    → check me ≡ alive
    → (unlock_as check all_ok me f ≡ (commit_release f.metadata f, done))
      × IsFree (commit_release f.metadata f)
unfolding unlock_as read_metadata
unlock-IsHeldBy check me f v lives = (
  rw (inspect-IsHeldBy check me f v lives) (ground (arith, v.state, v.owner, v.file.is_long)),
  commit_release-IsFree (pos 0) f v.file,
)

lock_attempt-bad :
    (check : ProcessIdentity → IdentityStatus) (bounded : Bool) (w : Writes) (me : ProcessIdentity)
    (f : FlockFile)
    → is_ok (inspect_locked check f).health ≡ false
    → (lock_attempt check bounded w me f).0 ≡ f
unfolding lock_attempt
lock_attempt-bad check bounded w me f bad = ground arith

-- A lock that a live process holds is waited for: a round leaves the file and goes on.
pub lock_attempt-held :
    (check : ProcessIdentity → IdentityStatus) (bounded : Bool) (w : Writes)
    (me q : ProcessIdentity) (f : FlockFile)
    → IsHeldBy q f
    → check q ≡ alive
    → lock_attempt check bounded w me f ≡ (f, again)
unfolding lock_attempt
lock_attempt-held check bounded w me q f v lives =
    rw (inspect-IsHeldBy check q f v lives) (ground (arith, v.state))

-- A round of `master_lock` leaves the file as it is, or has found the lock free.
pub lock_attempt-file :
    (check : ProcessIdentity → IdentityStatus) (bounded : Bool) (w : Writes) (me : ProcessIdentity)
    (f : FlockFile)
    → ((lock_attempt check bounded w me f).0 ≡ f) ⊎ IsFree f
lock_attempt-file check bounded w me f = elim (fine_or_not (inspect_locked check f).health) [
  | inr bad ↦ inl (lock_attempt-bad check bounded w me f bad)
  | inl fine ↦ elim (inspect-ok check f fine) [
    | inl v ↦ inr v
    | inr (v, lives) ↦
        inl (ap (λ r. r.0) (lock_attempt-held check bounded w me (owner_of f.metadata) f v lives))
  ]
]
  where
    fine_or_not : (h : Health) → (h ≡ ok) ⊎ (is_ok h ≡ false)
    fine_or_not ok = inl refl
    fine_or_not _ = inr refl

abbrev may_unlock : Inspection → ProcessIdentity → Bool
may_unlock r me =
    is_ok r.health
    && (is_locked r.state && (eqb_ℤ r.owner.pid me.pid && (r.owner.start_token == me.start_token)))

unlock-refused :
    (check : ProcessIdentity → IdentityStatus) (w : Writes) (me : ProcessIdentity) (f : FlockFile)
    → may_unlock (inspect_locked check f) me ≡ false
    → (unlock_as check w me f).0 ≡ f
unfolding unlock_as
unlock-refused check w me f h = ground arith

may_unlock-true :
    (r : Inspection) (me : ProcessIdentity)
    → may_unlock r me ≡ true
    → (r.health ≡ ok) × (r.state ≡ locked) × (r.owner ≡ me)
may_unlock-true r me h = (ground arith, ground arith, ground arith)

right_holder :
    (check : ProcessIdentity → IdentityStatus) (me : ProcessIdentity) (f : FlockFile)
    → ((inspect_locked check f).health ≡ ok)
      × ((inspect_locked check f).state ≡ locked)
      × ((inspect_locked check f).owner ≡ me)
    → IsHeldBy me f × (check me ≡ alive)
right_holder check me f (fine, held, mine) = elim (inspect-ok check f fine) [
  | inl v ↦ cc (inspect-IsFree check f v, v.state)
  | inr (v, lives) ↦
      let r = inspect-IsHeldBy check (owner_of f.metadata) f v lives in
      let same : owner_of f.metadata ≡ me = ap (λ (i : Inspection). i.owner) (sym r) ∙ mine in
      (rw same at v, rw same at lives)
]

-- A call of `master_unlock` leaves the file as it is, or its caller holds the lock and is known to be
-- alive.
pub unlock-file :
    (check : ProcessIdentity → IdentityStatus) (w : Writes) (me : ProcessIdentity) (f : FlockFile)
    → ((unlock_as check w me f).0 ≡ f) ⊎ (IsHeldBy me f × (check me ≡ alive))
unlock-file check w me f = elim (Bool-cases (may_unlock (inspect_locked check f) me)) [
  | inr no_right ↦ inl (unlock-refused check w me f no_right)
  | inl right ↦ inr (right_holder check me f (may_unlock-true (inspect_locked check f) me right))
]
