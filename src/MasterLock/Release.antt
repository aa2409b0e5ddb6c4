-- ===== src/MasterLock/Release.antt =====
-- hako_sem_flock.cpp: `master_unlock`, under the OS file lock.
use hakoniwa_core_cpp.Prelude.{pos, eqb_ℤ, ◌&&◌, not, ◌==◌, if◌then◌else◌, Option, none, some}
use hakoniwa_core_cpp.Identity.{IdentityStatus, ProcessIdentity}
use hakoniwa_core_cpp.MasterLock.Metadata.{
  unlocked, releasing, state_code, Metadata, FlockFile, read_metadata, write_metadata,
  write_counter,
}
use hakoniwa_core_cpp.MasterLock.Inspect.{
  abort, unknown_health, identity, corrupt, Inspection, no_inspection, inspect_locked,
}
use hakoniwa_core_cpp.MasterLock.Acquire.{Verdict, done, throws, Writes, is_ok, is_locked}

unfoldable pub releasing_record : Metadata → Metadata
releasing_record m = record m { state = state_code releasing }

unfoldable pub unlocked_record : Metadata → Metadata
unlocked_record m = record m {
  state = state_code unlocked;
  owner_pid = pos 0;
  owner_start_token = 0;
}

-- The file after each of the three writes of a release.
unfoldable pub begin_release : Metadata → FlockFile → FlockFile
unfolding releasing_record
begin_release m f = write_metadata f (releasing_record m)

unfoldable pub give_counter : Metadata → FlockFile → FlockFile
unfolding begin_release
give_counter m f = write_counter (begin_release m f) 0 (pos 1)

unfoldable pub commit_release : Metadata → FlockFile → FlockFile
unfolding give_counter unlocked_record
commit_release m f = write_metadata (give_counter m f) (unlocked_record m)

unfoldable pub release : Writes → Inspection → Metadata → FlockFile → FlockFile × Verdict
unfolding commit_release
release w r m f =
    let lost : Inspection = record r { health = abort } in
    if not w.first_ok
    then (f, throws lost)
    else if not w.counter_ok
    then (begin_release m f, throws lost)
    else if not w.last_ok
    then (give_counter m f, throws lost)
    else (commit_release m f, done)

-- What is thrown to a process that does not hold the lock.
unfoldable pub not_owner : Inspection → Inspection
not_owner r = if is_ok r.health then record r { health = unknown_health; cause = identity } else r

unfoldable pub unlock_as :
    (ProcessIdentity → IdentityStatus) → Writes → ProcessIdentity → FlockFile → FlockFile × Verdict
unfolding release not_owner
unlock_as check w me f =
    let r = inspect_locked check f in
    if is_ok r.health
      && (is_locked r.state
          && (eqb_ℤ r.owner.pid me.pid && (r.owner.start_token == me.start_token)))
    then elim (read_metadata f) [
      | none ↦ (f, throws (record r { health = unknown_health; cause = corrupt }))
      | some m ↦ release w r m f
    ]
    else (f, throws (not_owner r))

unfoldable pub master_unlock :
    (ProcessIdentity → IdentityStatus)
    → Writes
    → Option ProcessIdentity
    → FlockFile
    → FlockFile × Verdict
unfolding unlock_as
master_unlock check w none f = (f, throws (record no_inspection { cause = identity }))
master_unlock check w (some me) f = unlock_as check w me f
