-- ===== src/MasterLock/Shapes.antt =====
-- The shapes of flock.bin that hako_sem_flock.cpp leaves behind, and what an inspection says of them.
use hakoniwa_core_cpp.Prelude.{
  ℕ, zero, suc, ◌≤◌, ◌<◌, ℤ, pos, ltb, none, some, get_elem?, ◌≡◌, refl, arith, ◌⊎◌, inl, inr,
  Option-cases, Bool-cases, ◌∙◌,
}
use hakoniwa_core_cpp.Identity.{IdentityStatus, alive, ProcessIdentity}
use hakoniwa_core_cpp.MasterLock.Metadata.{
  state_of_code, Metadata, FlockFile, lock_magic, lock_version, metadata_size, metadata_checksum,
  sealed, read_metadata, flock_size,
}
use hakoniwa_core_cpp.MasterLock.Inspect.{
  ok, Inspection, no_inspection, header_fault, inspect_owner, with_owner, inspect_record,
  inspect_locked, nobody,
}

-- A record of this version with its own checksum and a known state.
pub record IsSealed (m : Metadata) : Type 0 where
  pub is_magic : m.magic ≡ lock_magic
  pub is_version : m.version ≡ lock_version
  pub is_size : m.size ≡ metadata_size
  pub is_checked : m.checksum ≡ metadata_checksum m
  pub is_state : m.state < 4

-- A file with a sealed record, whose first counter is `c`.
pub record IsFile (c : ℤ) (f : FlockFile) : Type 0 where
  pub is_long : flock_size ≤ f.size
  pub first : get_elem? f.counters 0 ≡ some c
  pub is_sealed : IsSealed f.metadata

abbrev pub owner_of : Metadata → ProcessIdentity
owner_of m = record { pid = m.owner_pid; start_token = m.owner_start_token }

-- Nobody holds the lock.
pub record IsFree (f : FlockFile) : Type 0 where
  pub file : IsFile (pos 1) f
  pub state : f.metadata.state ≡ 0
  pub owner : owner_of f.metadata ≡ nobody

-- The process `me` holds the lock.
pub record IsHeldBy (me : ProcessIdentity) (f : FlockFile) : Type 0 where
  pub file : IsFile (pos 0) f
  pub state : f.metadata.state ≡ 2
  pub owner : owner_of f.metadata ≡ me

pub checksum-sealed : (m : Metadata) → metadata_checksum (sealed m) ≡ metadata_checksum m
unfolding sealed metadata_checksum
checksum-sealed m = refl

header_fault-sealed : (m : Metadata) → IsSealed m → header_fault m ≡ none
unfolding header_fault
header_fault-sealed m s = ground arith

header_fault-none : (m : Metadata) → header_fault m ≡ none → IsSealed m
unfolding header_fault
header_fault-none m h = ground arith

-- An inspection of a file with a sealed record goes on to the owner.
pub inspect-IsFile :
    (check : ProcessIdentity → IdentityStatus) (c : ℤ) (f : FlockFile)
    → IsFile c f
    → inspect_locked check f ≡ inspect_owner check (with_owner c f.metadata)
unfolding inspect_locked inspect_record read_metadata
inspect-IsFile check c f v = ground (arith, header_fault-sealed f.metadata v.is_sealed)

-- An inspection that is in order has found a sealed record.
IsFile-of_ok :
    (check : ProcessIdentity → IdentityStatus) (f : FlockFile)
    → (inspect_locked check f).health ≡ ok
    → (c : ℤ) × IsFile c f
unfolding inspect_locked inspect_record read_metadata
IsFile-of_ok check f h = elim (Option-cases (get_elem? f.counters 0)) [
  | inl e ↦ ground arith
  | inr (c, e) ↦ elim (Bool-cases (ltb f.size flock_size)) [
    | inl short ↦ ground arith
    | inr long ↦ elim (Option-cases (header_fault f.metadata)) [
      | inl fine ↦ (
        c,
        record { is_long = ground arith; first = e; is_sealed = header_fault-none f.metadata fine },
      )
      | inr (u, bad) ↦ ground arith
    ]
  ]
]

abbrev reading : ℤ → ℕ → ProcessIdentity → ℕ → Inspection
reading c s id g = record no_inspection {
  counter = c;
  state = state_of_code s;
  owner = id;
  generation = g;
}

owner_ok_at :
    (check : ProcessIdentity → IdentityStatus) (c : ℤ) (s : ℕ) (id : ProcessIdentity) (g : ℕ)
    → s < 4
    → (inspect_owner check (reading c s id g)).health ≡ ok
    → ((c ≡ pos 1) × (s ≡ 0) × (id ≡ nobody)) ⊎ ((c ≡ pos 0) × (s ≡ 2) × (check id ≡ alive))
unfolding inspect_owner
owner_ok_at check c zero id g lt h = inl (ground arith)
owner_ok_at check c (suc zero) id g lt h = ground arith
owner_ok_at check c (suc (suc zero)) id g lt h = inr (ground arith)
owner_ok_at check c (suc (suc (suc n))) id g lt h = ground arith

-- What makes the owner's part of an inspection come out in order.
owner_ok :
    (check : ProcessIdentity → IdentityStatus) (c : ℤ) (m : Metadata)
    → m.state < 4
    → (inspect_owner check (with_owner c m)).health ≡ ok
    → ((c ≡ pos 1) × (m.state ≡ 0) × (owner_of m ≡ nobody))
      ⊎ ((c ≡ pos 0) × (m.state ≡ 2) × (check (owner_of m) ≡ alive))
unfolding inspect_owner
owner_ok check c m lt h = owner_ok_at check c m.state (owner_of m) m.generation lt h

-- An inspection in order says that the lock is free, or held by a live process.
pub inspect-ok :
    (check : ProcessIdentity → IdentityStatus) (f : FlockFile)
    → (inspect_locked check f).health ≡ ok
    → IsFree f ⊎ (IsHeldBy (owner_of f.metadata) f × (check (owner_of f.metadata) ≡ alive))
inspect-ok check f h =
    let (c, v) = IsFile-of_ok check f h in
    let e =
      owner_ok check c f.metadata v.is_sealed.is_state (rw (inspect-IsFile check c f v) at h) in
    elim e [
      | inl (one, free, none_owns) ↦
          inl (record { file = rw one at v; state = free; owner = none_owns })
      | inr (zero', held, lives) ↦
          inr (record { file = rw zero' at v; state = held; owner = refl }, lives)
    ]

-- The inspection of a free lock and of a held one, in full.
pub inspect-IsFree :
    (check : ProcessIdentity → IdentityStatus) (f : FlockFile)
    → IsFree f
    → inspect_locked check f ≡ record (with_owner (pos 1) f.metadata) { health = ok }
unfolding inspect_owner
inspect-IsFree check f v = inspect-IsFile check (pos 1) f v.file ∙ ground (arith, v.state, v.owner)

pub inspect-IsHeldBy :
    (check : ProcessIdentity → IdentityStatus) (me : ProcessIdentity) (f : FlockFile)
    → IsHeldBy me f
    → check me ≡ alive
    → inspect_locked check f ≡ record (with_owner (pos 0) f.metadata) { health = ok }
unfolding inspect_owner
inspect-IsHeldBy check me f v lives =
    inspect-IsFile check (pos 0) f v.file ∙ ground (arith, v.state, v.owner)
