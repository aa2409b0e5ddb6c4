-- ===== src/Entry.antt =====
-- src/hako/hako_impl.cpp: the pointers of a process to the master data and to its controllers, with
-- `init`, `load` and `destroy` of src/hako/data/hako_master_data.hpp. The lock around the clearing of the
-- data is taken to be given.
pub mod Backend
pub mod OverSystemV
pub mod Retry
use hakoniwa_core_cpp.Prelude.{
  ℕ, ℤ, eqb_ℤ, Bool, true, false, not, if◌then◌else◌, Option, none, some,
}
use hakoniwa_core_cpp.Master.Types.{Master}
use hakoniwa_core_cpp.Master.Assets.{init}
use hakoniwa_core_cpp.Pdu.Types.{Outcome, returns, spins, faults}

-- `HakoSharedMemory` at the key of the master data: what processes share, what one process keeps of it,
-- and the operations with their success.
pub record Memory : Type 1 where
  pub Store : Type 0
  pub Handle : Type 0
  pub fresh : Handle
  pub create_memory : ℕ → Store → Handle → Store × Handle × Bool
  pub load_memory : ℕ → Store → Handle → Handle × Bool
  pub destroy_memory : Store → Handle → Store × Handle

-- `HakoMasterData`: `shmp_`, and whether `master_datap_` and `pdu_datap_` point to the data.
pub record MasterData (b : Memory) : Type 0 where
  pub shmp : Option b.Handle
  pub is_mapped : Bool

-- The static pointers, where a controller is whether there is one, and what processes share.
pub record Process (b : Memory) : Type 0 where
  pub store : b.Store
  pub master : Master
  pub master_data : Option (MasterData b)
  pub has_master : Bool
  pub has_asset : Bool
  pub has_simevent : Bool

-- `sizeof(HakoMasterDataType)` and HAKO_DATA_MAX_ASSET_NUM are arguments.
module _ (b : Memory) (size max_asset_num : ℕ) where
  abbrev pub new_data : MasterData b
  new_data = record { shmp = none; is_mapped = false }

  -- `HakoMasterData::init`. A failed HAKO_ASSERT goes on, here to a `memset` at the null pointer.
  unfoldable pub init_data : ℤ → Process b → Outcome (Process b)
  init_data pid e =
      let (store, h, ok) = b.create_memory size e.store b.fresh in
      if ok
      then returns (record e {
        store = store;
        master = init max_asset_num pid;
        master_data = some (record { shmp = some h; is_mapped = true });
      })
      else faults

  -- `HakoMasterData::load`.
  unfoldable pub load_data : b.Store → MasterData b → MasterData b × Bool
  load_data store d = elim d.shmp [
    | some h ↦ (d, true)
    | none ↦
        let (h, ok) = b.load_memory size store b.fresh in
        if ok
        then (record { shmp = some h; is_mapped = true }, true)
        else (record d { shmp = some h }, false)
  ]

  -- `HakoMasterData::destroy`, which does not test `pdu_datap_`: what processes share, and the object.
  unfoldable pub destroy_data : b.Store → MasterData b → Outcome (b.Store × MasterData b)
  destroy_data store d = elim d.shmp [
    | none ↦ returns (store, d)
    | some h ↦
        if d.is_mapped
        then returns ((b.destroy_memory store h).0, record d { shmp = none })
        else faults
  ]

  unfoldable pub hako_init : ℤ → Process b → Outcome (Process b)
  unfolding init_data
  hako_init pid e = elim e.master_data [ some d ↦ returns e | none ↦ init_data pid e ]

  -- `hako::destroy`, which reads the master's pid before it tests the pointer.
  unfoldable pub destroy : ℤ → Process b → Outcome (Process b)
  unfolding destroy_data
  destroy pid e = elim e.master_data [
    | none ↦ faults
    | some d ↦
        if not d.is_mapped
        then faults
        else if not (eqb_ℤ pid e.master.master_pid)
        then returns (record e { has_master = false })
        else elim (destroy_data e.store d) [
          | spins ↦ spins
          | faults ↦ faults
          | returns (store, d') ↦ returns (record e {
            store = store;
            master_data = none;
            has_master = false;
            has_asset = false;
            has_simevent = false;
          })
        ]
  ]

  -- The part that `create_asset_controller` and `get_simevent_controller` share: the data afterwards,
  -- and whether the controller is made. `has_config` is whether the configuration was read.
  unfoldable pub find_data : Bool → Process b → Option (MasterData b) × Bool
  unfolding load_data
  find_data has_config e = elim e.master_data [
    | some d ↦ (some d, true)
    | none ↦
        if has_config
        then (some (load_data e.store new_data).0, (load_data e.store new_data).1)
        else (some new_data, false)
  ]

  -- The process afterwards, and whether the result is a controller.
  unfoldable pub create_asset_controller : Bool → Process b → Process b × Bool
  unfolding find_data
  create_asset_controller has_config e =
      if e.has_asset
      then (e, true)
      else let (d, ok) = find_data has_config e in
        if ok
        then (record e { master_data = d; has_asset = true }, true)
        else (record e { master_data = d }, false)

  -- The constructor of `HakoSimulationEventController` calls `create_asset_controller`.
  unfoldable pub get_simevent_controller : Bool → Process b → Process b × Bool
  unfolding find_data create_asset_controller
  get_simevent_controller has_config e =
      if e.has_simevent
      then (e, true)
      else let (d, ok) = find_data has_config e in
        if ok
        then (
          record (create_asset_controller has_config (record e { master_data = d })).0 {
            has_simevent = true;
          },
          true,
        )
        else (record e { master_data = d }, false)

  -- `create_master`, whose HAKO_ASSERT goes on where it fails, and whose controller makes an event
  -- controller of its own.
  unfoldable pub create_master : Bool → Process b → Process b
  unfolding create_asset_controller
  create_master has_config e =
      if e.has_master
      then e
      else record (create_asset_controller has_config e).0 { has_master = true }
