-- ===== src/Tests/Runs.antt =====
-- A step of the conductor with one asset (hako_master_impl.cpp).
use hakoniwa_core_cpp.Prelude.{pos, ◌+ℤ◌, ◌-ℤ◌, true, false, [], ◌∷◌, none, some, ◌≡◌, refl}
use hakoniwa_core_cpp.World.{World, can_step, time_begins_to_move}
use hakoniwa_core_cpp.Master.Types.{running, inside, Master}
use hakoniwa_core_cpp.Master.Assets.{
  init, alloc_asset, may_alloc, occupy_first, occupy, find_asset, get_asset_times,
}
use hakoniwa_core_cpp.SimEvent.Publish.{Host}
use hakoniwa_core_cpp.SimEvent.Handling.{do_event_handling, sim_event_needs_handling}
use hakoniwa_core_cpp.Pdu.Types.{master_mode, Meta, Env, returns}
use hakoniwa_core_cpp.Pdu.Sync.{is_simulation_mode}
use hakoniwa_core_cpp.Conductor.{Conductor, on_change, move_time, execute}
use hakoniwa_core_cpp.Conductor.Steps.{Moved, execute-Moved}

abbrev host : Host
host = record { pid = pos 9; invoke = λ f m. m }

abbrev env : Env
env = record { init_lock = true; alloc_ok = λ n. true }

abbrev meta : Meta
meta = record {
  mode = master_mode;
  asset_num = 1;
  sync_asset_id = 0;
  check_status = true ∷ false ∷ [];
  channel_num = 0;
  channel = [];
  channel_map = [];
  is_dirty = λ c. false;
  rbusy = λ a c. false;
  rbusy_external = λ c. false;
  wbusy = λ c. false;
  table_busy = false;
  read_version = λ a c. 0;
  write_version = λ c. 0;
}

-- The asset "A", whose time is 0.
abbrev with_asset : Master
with_asset = (alloc_asset (pos 5) (pos 8) (65 ∷ []) inside none (init 2 (pos 7))).0

abbrev world : World
world = record { max_delay = pos 20; delta = pos 10; wait_time = pos 0; world_time = pos 0 }

abbrev idle : Conductor
idle = record {
  bus = record { master = record with_asset { state = running }; raised = [] };
  world = some world;
  pdu = record { meta = meta; area = none; cache = []; attached = false };
}

abbrev moved_world : World
moved_world = time_begins_to_move world (get_asset_times with_asset.slots)

abbrev moved : Conductor
moved = (move_time world idle.bus idle.pdu).0

steps : execute host env (pos 6) (pos 0) idle ≡ returns (moved, true)
unfolding execute do_event_handling sim_event_needs_handling on_change is_simulation_mode move_time
    time_begins_to_move can_step alloc_asset may_alloc occupy_first find_asset init occupy
    get_asset_times ◌-ℤ◌ ◌+ℤ◌
steps = refl

execute-Moved_example : Moved idle moved
execute-Moved_example = execute-Moved host env (pos 6) (pos 0) idle moved steps
