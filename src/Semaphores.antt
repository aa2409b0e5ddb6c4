-- ===== src/Semaphores.antt =====
-- src/hako/utils/hako_share/impl/posix/hako_sem.cpp: the semaphores of System V. The calls semget, semctl
-- and semop are parameters.
pub mod Users
pub mod Exclusion
use hakoniwa_core_cpp.Prelude.{
  ℕ, suc, ◌+◌, ◌==◌, ltb_ℤ, ℤ, pos, negsuc, Bool, if◌then◌else◌, List, ◌∷◌, replicate,
}

-- A `sembuf`, whose flags are 0 in each call.
pub record Sembuf : Type 0 where
  pub sem_num : ℕ
  pub sem_op : ℤ

-- HAKO_SEM_INX_MASTER and HAKO_SEM_INX_ASSETS.
abbrev pub inx_master : ℕ
inx_master = 0

abbrev pub inx_assets : ℕ
inx_assets = 1

abbrev pub max_asset_num : ℕ
max_asset_num = 16

unfoldable pub asset_down_op : ℕ → Sembuf
asset_down_op asset_id = record { sem_num = inx_assets + asset_id; sem_op = negsuc 0 }

unfoldable pub asset_up_op : ℕ → Sembuf
asset_up_op asset_id = record { sem_num = inx_assets + asset_id; sem_op = pos 1 }

unfoldable pub master_lock_op : Sembuf
master_lock_op = record { sem_num = inx_master; sem_op = negsuc 0 }

unfoldable pub master_unlock_op : Sembuf
master_unlock_op = record { sem_num = inx_master; sem_op = pos 1 }

-- The values that `create` sets: the master's semaphore is open, and those of the assets are closed.
unfoldable pub initial_values : List ℕ
initial_values = 1 ∷ replicate max_asset_num 0

-- The kernel's sets of semaphores, the value of a semaphore of a set, and the calls with their answers:
-- semget, semctl with SETALL and with IPC_RMID, and semop.
pub record Kernel : Type 1 where
  pub Sets : Type 0
  pub value : ℤ → ℕ → Sets → ℕ
  pub semget : ℤ → ℕ → Sets → Sets × ℤ
  pub set_all : ℤ → List ℕ → Sets → Sets × ℤ
  pub remove : ℤ → Sets → Sets
  pub semop : ℤ → Sembuf → Sets → Sets × ℤ

-- Each operation returns also whether it logs an error.
module _ (k : Kernel) where
  unfoldable pub destroy : ℤ → k.Sets → k.Sets
  destroy sem_id s = k.remove sem_id s

  unfoldable pub create : ℤ → k.Sets → k.Sets × ℤ
  unfolding destroy initial_values
  create key s =
      let made = k.semget key (1 + max_asset_num) s in
      let written = k.set_all made.1 initial_values made.0 in
      if ltb_ℤ made.1 (pos 0)
      then (made.0, negsuc 0)
      else if ltb_ℤ written.1 (pos 0)
      then (destroy made.1 written.0, negsuc 0)
      else (written.0, made.1)

  -- The call of semop at the end of each operation: a negative answer is logged, and not passed on.
  abbrev pub operate : Sembuf → ℤ → k.Sets → k.Sets × Bool
  operate op sem_id s = ((k.semop sem_id op s).0, ltb_ℤ (k.semop sem_id op s).1 (pos 0))

  unfoldable pub asset_down : ℤ → ℕ → k.Sets → k.Sets × Bool
  asset_down sem_id asset_id s = operate (asset_down_op asset_id) sem_id s

  unfoldable pub asset_up : ℤ → ℕ → k.Sets → k.Sets × Bool
  asset_up sem_id asset_id s = operate (asset_up_op asset_id) sem_id s

  unfoldable pub master_lock : ℤ → k.Sets → k.Sets × Bool
  master_lock sem_id s = operate master_lock_op sem_id s

  unfoldable pub master_unlock : ℤ → k.Sets → k.Sets × Bool
  master_unlock sem_id s = operate master_unlock_op sem_id s
