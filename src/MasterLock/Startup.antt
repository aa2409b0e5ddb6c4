-- ===== src/MasterLock/Startup.antt =====
-- What `create` of hako_sem_flock.cpp does to flock.bin when a process starts.
use hakoniwa_core_cpp.Prelude.{
  ℤ, pos, eqb_ℤ, Bool, true, false, ◌&&◌, some, List, [], ◌∷◌, get_elem?, ◌≡◌, refl, arith, ◌⊎◌,
  inl, inr, Bool-cases,
}
use hakoniwa_core_cpp.Identity.{IdentityStatus, ProcessIdentity}
use hakoniwa_core_cpp.MasterLock.Metadata.{
  FlockFile, metadata_checksum, sealed, write_metadata, new_metadata,
}
use hakoniwa_core_cpp.MasterLock.Inspect.{Health, ok, abort, unknown_health, inspect_locked}
use hakoniwa_core_cpp.MasterLock.Acquire.{is_ok, is_unlocked}
use hakoniwa_core_cpp.MasterLock.Semaphore.{
  initial_counters, initialize_new_flock, clear_assets, reset_asset_semaphores, create,
}
use hakoniwa_core_cpp.MasterLock.Shapes.{IsFree, IsHeldBy, owner_of, inspect-ok, inspect-IsHeldBy}

-- The initialization of a new file, whatever it held, leaves the lock free.
pub initialize-IsFree : (f : FlockFile) → IsFree (initialize_new_flock f)
unfolding initialize_new_flock write_metadata new_metadata sealed initial_counters metadata_checksum
initialize-IsFree f = record {
  file = record {
    is_long = ground arith;
    first = refl;
    is_sealed = record {
      is_magic = refl;
      is_version = refl;
      is_size = refl;
      is_checked = refl;
      is_state = omega arith;
    };
  };
  state = refl;
  owner = refl;
}

clear_assets-first :
    (c : ℤ) (cs : List ℤ) → get_elem? cs 0 ≡ some c → get_elem? (clear_assets cs) 0 ≡ some c
unfolding clear_assets
clear_assets-first c [] e = cc
clear_assets-first c (d ∷ ds) e = e

reset-IsFree :
    (check : ProcessIdentity → IdentityStatus) (f : FlockFile)
    → IsFree f
    → IsFree (reset_asset_semaphores check f)
unfolding reset_asset_semaphores
reset-IsFree check f v =
    elim (Bool-cases (
      is_ok (inspect_locked check f).health
      && (is_unlocked (inspect_locked check f).state
          && eqb_ℤ (inspect_locked check f).counter (pos 1)))) [
            | inr stay ↦ rw stay v
            | inl go ↦ rw go (record {
              file = record {
                is_long = v.file.is_long;
                first = clear_assets-first (pos 1) f.counters v.file.first;
                is_sealed = v.file.is_sealed;
              };
              state = v.state;
              owner = v.owner;
            })
          ]

-- A process that starts and finds the lock free, or creates the file, leaves the lock free.
pub create-IsFree :
    (check : ProcessIdentity → IdentityStatus) (was_created for_master : Bool) (f : FlockFile)
    → (was_created ≡ true) ⊎ IsFree f
    → IsFree (create check was_created for_master f)
unfolding create
create-IsFree check true for_master f v = initialize-IsFree f
create-IsFree check false true f (inr v) = reset-IsFree check f v
create-IsFree check false false f (inr v) = v
create-IsFree check false for_master f (inl bad) = cc

-- A process that starts while another one holds the lock, and finds the file there, leaves the file as
-- it is, whatever it knows of the holder.
pub create-IsHeldBy :
    (check : ProcessIdentity → IdentityStatus) (for_master : Bool) (q : ProcessIdentity)
    (f : FlockFile)
    → IsHeldBy q f
    → create check false for_master f ≡ f
unfolding create reset_asset_semaphores
create-IsHeldBy check false q f v = refl
create-IsHeldBy check true q f v = elim (Bool-cases (is_ok (inspect_locked check f).health)) [
  | inr bad ↦ rw bad refl
  | inl fine ↦ elim (inspect-ok check f (is_ok-true (inspect_locked check f).health fine)) [
    | inl free ↦ absurd (omega (arith, free.state, v.state))
    | inr (held, lives) ↦
        rw (inspect-IsHeldBy check (owner_of f.metadata) f held lives) (ground (arith, held.state))
  ]
]
  where
    is_ok-true : (h : Health) → is_ok h ≡ true → h ≡ ok
    is_ok-true ok e = refl
    is_ok-true abort e = cc
    is_ok-true unknown_health e = cc
