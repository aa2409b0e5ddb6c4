-- ===== src/MasterLock/Semaphore.antt =====
-- hako_sem_flock.cpp: the assets' semaphores, which are the counters of the file from index 1 on, and
-- `create`, which sets the file up. Writes are taken to succeed.
use hakoniwa_core_cpp.Prelude.{
  ℕ, zero, suc, ◌+◌, ℤ, pos, ◌+ℤ◌, ◌-ℤ◌, ltb_ℤ, eqb_ℤ, ltb, Bool, true, false, ◌&&◌, ◌==◌,
  if◌then◌else◌, Option, none, some, List, [], ◌∷◌, get_elem?, replicate,
}
use hakoniwa_core_cpp.Identity.{IdentityStatus, ProcessIdentity}
use hakoniwa_core_cpp.MasterLock.Metadata.{
  FlockFile, metadata_offset, max_sem, write_counter, write_metadata, new_metadata, read_metadata,
  lock_magic, lock_version, metadata_size, metadata_checksum,
}
use hakoniwa_core_cpp.MasterLock.Inspect.{inspect_locked}
use hakoniwa_core_cpp.MasterLock.Acquire.{is_ok, is_unlocked}

-- `hako_flock_read` into a variable that is 0 at the start.
abbrev pub counter_at : FlockFile → ℕ → ℤ
counter_at f i = elim (get_elem? f.counters i) [ none ↦ pos 0 | some v ↦ v ]

-- One round of `semaphore_down`: `none` where the counter is not positive and the caller sleeps.
unfoldable pub down_attempt : ℕ → FlockFile → Option FlockFile
down_attempt index f =
    let value = counter_at f index in
    if ltb_ℤ (pos 0) value then some (write_counter f index (value -ℤ pos 1)) else none

unfoldable pub semaphore_up : ℕ → FlockFile → FlockFile
semaphore_up index f = write_counter f index (counter_at f index +ℤ pos 1)

abbrev pub asset_index : ℕ → ℕ
asset_index asset_id = 1 + asset_id

unfoldable pub asset_down : ℕ → FlockFile → Option FlockFile
unfolding down_attempt
asset_down asset_id f = down_attempt (asset_index asset_id) f

unfoldable pub asset_up : ℕ → FlockFile → FlockFile
unfolding semaphore_up
asset_up asset_id f = semaphore_up (asset_index asset_id) f

-- The loop that writes 1 for the master and 0 for each asset.
unfoldable pub initial_counters : ℕ → List ℤ
initial_counters zero = []
initial_counters (suc n) = pos 1 ∷ replicate n (pos 0)

unfoldable pub initialize_new_flock : FlockFile → FlockFile
unfolding initial_counters
initialize_new_flock f =
    write_metadata (record f { counters = initial_counters max_sem }) new_metadata

-- Whether another process has finished the initialization.
unfoldable pub is_initialized : FlockFile → Bool
is_initialized f = elim (read_metadata f) [
  | none ↦ false
  | some m ↦
      (m.magic == lock_magic)
      && ((m.version == lock_version)
          && ((m.size == metadata_size) && (m.checksum == metadata_checksum m)))
]

-- What the rounds of `wait_for_existing_flock_initialization` find: the time, the answer of
-- `hako_flock_try_acquire`, and the file.
pub data TryLock : Type 0 where
  got_lock is_busy lock_error : TryLock

pub record Look : Type 0 where
  pub now_ms : ℕ
  pub lock : TryLock
  pub file : FlockFile

-- Whether the wait is over after these rounds; it never writes.
unfoldable pub wait_over : ℕ → List Look → Bool
unfolding is_initialized
wait_over deadline [] = false
wait_over deadline (l ∷ ls) =
    let rest = wait_over deadline ls in
    if ltb l.now_ms deadline
    then elim l.lock [
      | lock_error ↦ true
      | is_busy ↦ rest
      | got_lock ↦ if is_initialized l.file then true else rest
    ]
    else true

unfoldable pub wait_for_existing : ℕ → FlockFile → List Look → Bool
unfolding wait_over
wait_for_existing started_ms f looks =
    if f.size == metadata_offset then true else wait_over (started_ms + 2000) looks

unfoldable pub zeros : List ℤ → List ℤ
zeros [] = []
zeros (c ∷ cs) = pos 0 ∷ zeros cs

-- Zero in each counter but the first.
unfoldable pub clear_assets : List ℤ → List ℤ
unfolding zeros
clear_assets [] = []
clear_assets (c ∷ cs) = c ∷ zeros cs

unfoldable pub reset_asset_semaphores : (ProcessIdentity → IdentityStatus) → FlockFile → FlockFile
unfolding clear_assets
reset_asset_semaphores check f =
    let r = inspect_locked check f in
    if is_ok r.health && (is_unlocked r.state && eqb_ℤ r.counter (pos 1))
    then record f { counters = clear_assets f.counters }
    else f

-- `create`, once the file has been opened and, where it was there already, the wait is over.
-- `for_master` tells the key HAKO_SHARED_MEMORY_ID_0.
unfoldable pub create : (ProcessIdentity → IdentityStatus) → Bool → Bool → FlockFile → FlockFile
unfolding initialize_new_flock reset_asset_semaphores
create check was_created for_master f =
    if was_created
    then initialize_new_flock f
    else if for_master
    then reset_asset_semaphores check f
    else f
