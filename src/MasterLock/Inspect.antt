-- ===== src/MasterLock/Inspect.antt =====
-- hako_sem_flock.cpp: `inspect_locked`, the diagnosis of the file under the OS file lock. The texts
-- of the diagnosis are left out; they are determined by the branch that is taken.
use hakoniwa_core_cpp.Prelude.{
  ℕ, ℤ, pos, negsuc, eqb_ℤ, ◌&&◌, ◌||◌, not, ◌==◌, ltb, if◌then◌else◌, Option, none, some,
  get_elem?,
}
use hakoniwa_core_cpp.Identity.{IdentityStatus, alive, dead, unknown, ProcessIdentity}
use hakoniwa_core_cpp.MasterLock.Metadata.{
  LockState, unlocked, locked, releasing, state_of_code, state_code, Metadata, FlockFile,
  lock_magic, lock_version, metadata_size, metadata_checksum, read_metadata,
}

pub data Health : Type 0 where
  ok abort unknown_health : Health

pub data UnknownCause : Type 0 where
  no_cause identity format corrupt unsupported contention system : UnknownCause

pub record Inspection : Type 0 where
  pub health : Health
  pub state : LockState
  pub counter : ℤ
  pub owner : ProcessIdentity
  pub generation : ℕ
  pub cause : UnknownCause

-- `MasterLockInspection result{}`.
abbrev pub nobody : ProcessIdentity
nobody = record { pid = pos 0; start_token = 0 }

abbrev pub no_inspection : Inspection
no_inspection = record {
  health = unknown_health;
  state = unlocked;
  counter = negsuc 0;
  owner = nobody;
  generation = 0;
  cause = no_cause;
}

-- The first answer of `inspect_locked` about the record: its header, checksum and state.
unfoldable pub header_fault : Metadata → Option UnknownCause
header_fault m =
    if not (m.magic == lock_magic)
    then some format
    else if not (m.version == lock_version) || not (m.size == metadata_size)
    then some unsupported
    else if not (m.checksum == metadata_checksum m)
    then some corrupt
    else if ltb (state_code releasing) m.state
    then some corrupt
    else none

-- The rest, about the owner; `check` is `hako_check_process_identity`.
unfoldable pub inspect_owner : (ProcessIdentity → IdentityStatus) → Inspection → Inspection
inspect_owner check r = elim r.state [
  | unlocked ↦
      if eqb_ℤ r.counter (pos 1) && (eqb_ℤ r.owner.pid (pos 0) && (r.owner.start_token == 0))
      then record r { health = ok }
      else record r { cause = corrupt }
  | locked ↦ elim (check r.owner) [
    | dead ↦ record r { health = abort }
    | unknown ↦ record r { cause = identity }
    | alive ↦
        if eqb_ℤ r.counter (pos 0) then record r { health = ok } else record r { cause = corrupt }
  ]
  | _ ↦ elim (check r.owner) [
    | dead ↦ record r { health = abort }
    | unknown ↦ record r { cause = identity }
    | alive ↦ record r { cause = corrupt }
  ]
]

-- The inspection that has read the counter and a record with no fault in its header.
abbrev pub with_owner : ℤ → Metadata → Inspection
with_owner counter m = record no_inspection {
  counter = counter;
  state = state_of_code m.state;
  owner = record { pid = m.owner_pid; start_token = m.owner_start_token };
  generation = m.generation;
}

unfoldable pub inspect_record : (ProcessIdentity → IdentityStatus) → ℤ → Metadata → Inspection
unfolding header_fault inspect_owner
inspect_record check counter m = elim (header_fault m) [
  | some c ↦ record no_inspection { counter = counter; cause = c }
  | none ↦ inspect_owner check (with_owner counter m)
]

unfoldable pub inspect_locked : (ProcessIdentity → IdentityStatus) → FlockFile → Inspection
unfolding inspect_record read_metadata
inspect_locked check f = elim (get_elem? f.counters 0) [
  | none ↦ record no_inspection { cause = corrupt }
  | some counter ↦ elim (read_metadata f) [
    | none ↦ record no_inspection { counter = counter; cause = format }
    | some m ↦ inspect_record check counter m
  ]
]

-- `actionable_reason`: what the message advises.
pub data Advice : Type 0 where
  stop_and_recover fix_permissions no_advice : Advice

unfoldable pub actionable_reason : Inspection → Advice
actionable_reason r = elim r.health [
  | abort ↦ stop_and_recover
  | _ ↦ elim r.cause [
    | format ↦ stop_and_recover
    | corrupt ↦ stop_and_recover
    | unsupported ↦ stop_and_recover
    | identity ↦ fix_permissions
    | _ ↦ no_advice
  ]
]
