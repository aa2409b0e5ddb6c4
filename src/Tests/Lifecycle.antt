-- ===== src/Tests/Lifecycle.antt =====
-- A simulation of one asset, from its start to the first step of the clock (hako_master_impl.cpp).
use hakoniwa_core_cpp.Prelude.{
  ℕ, pos, true, false, ◌+ℤ◌, ◌-ℤ◌, List, [], ◌∷◌, none, some, ◌≡◌, refl, arith, All, ◌⊎◌, inl, inr,
}
use hakoniwa_core_cpp.FixedString.{string_to_fixed, matches, strncmp_eq}
use hakoniwa_core_cpp.World.{World}
use hakoniwa_core_cpp.World.Skew.{Within}
use hakoniwa_core_cpp.Master.Types.{stopped, running, inside, start_event, is_vacant, Master}
use hakoniwa_core_cpp.Master.Assets.{
  init, alloc_asset, may_alloc, occupy_first, occupy, find_asset, get_asset, get_asset_times,
}
use hakoniwa_core_cpp.Master.WellFormed.{IsWf, init-IsWf, alloc-IsWf}
use hakoniwa_core_cpp.SimEvent.Publish.{
  Host, Bus, start, trigger_event, change_state, clear_feedback, publish_event, publish_from,
  publish_one, notify,
}
use hakoniwa_core_cpp.SimEvent.Handling.{feedback, start_feedback}
use hakoniwa_core_cpp.SimEvent.Broadcast.{IsQuiet}
use hakoniwa_core_cpp.SimEvent.Barrier.{Call, after_calls, HasConfirmed}
use hakoniwa_core_cpp.Pdu.Types.{asset_mode, Meta, Pdu, Env, returns}
use hakoniwa_core_cpp.Pdu.Area.{create, lay_out, pdu_total_size}
use hakoniwa_core_cpp.Conductor.{Conductor, execute}
use hakoniwa_core_cpp.Conductor.Lifecycle.{stepped, confirmed_bus, with_first_writes, first_step}

abbrev host : Host
host = record { pid = pos 7; invoke = λ f m. m }

abbrev env : Env
env = record { init_lock = true; alloc_ok = λ n. true }

abbrev meta : Meta
meta = record {
  mode = asset_mode;
  asset_num = 0;
  sync_asset_id = 0;
  check_status = false ∷ false ∷ [];
  channel_num = 0;
  channel = [];
  channel_map = [];
  is_dirty = λ c. false;
  rbusy = λ a c. false;
  rbusy_external = λ c. false;
  wbusy = λ c. false;
  table_busy = false;
  read_version = λ a c. 0;
  write_version = λ c. 0;
}

abbrev asset_name : List ℕ
asset_name = 65 ∷ []

abbrev with_asset : Master
with_asset = (alloc_asset (pos 5) (pos 8) asset_name inside none (init 2 (pos 7))).0

with_asset-IsWf : IsWf with_asset
with_asset-IsWf =
    alloc-IsWf (pos 5) (pos 8) asset_name inside none (init 2 (pos 7)) (omega arith, tt)
      (init-IsWf 2 (pos 7) (omega arith))

abbrev world : World
world = record { max_delay = pos 20; delta = pos 10; wait_time = pos 0; world_time = pos 0 }

abbrev at_rest : Conductor
at_rest = record {
  bus = record { master = with_asset; raised = [] };
  world = some world;
  pdu = record { meta = meta; area = none; cache = []; attached = false };
}

abbrev calls : List Call
calls = (pos 6, asset_name, true) ∷ []

abbrev ready : Bus
ready = confirmed_bus host calls at_rest.bus

is_stopped : with_asset.state ≡ stopped
unfolding alloc_asset may_alloc occupy_first find_asset init occupy
is_stopped = refl

polls : All (IsQuiet start_event) with_asset.slots
unfolding alloc_asset may_alloc occupy_first find_asset init occupy
polls = (inr refl, (inr refl, tt))

confirms : All (λ s. (is_vacant s.kind ≡ true) ⊎ HasConfirmed calls s.name) ready.master.slots
unfolding start trigger_event change_state alloc_asset may_alloc occupy_first find_asset init occupy
    clear_feedback publish_event publish_from publish_one notify get_asset after_calls
    start_feedback feedback matches strncmp_eq string_to_fixed
confirms = (inr (inl (refl, refl)), (inl refl, tt))

in_time : All (Within world.max_delay world) (get_asset_times ready.master.slots)
unfolding start trigger_event change_state alloc_asset may_alloc occupy_first find_asset init occupy
    clear_feedback publish_event publish_from publish_one notify get_asset after_calls
    start_feedback feedback matches strncmp_eq string_to_fixed get_asset_times ◌-ℤ◌
in_time = (omega arith, tt)

one_asset : ready.master.asset_num ≡ 1
unfolding start trigger_event change_state alloc_asset may_alloc occupy_first find_asset init occupy
    clear_feedback publish_event publish_from publish_one notify get_asset after_calls
    start_feedback feedback matches strncmp_eq string_to_fixed
one_asset = refl

abbrev laid_out : Pdu
laid_out = lay_out ready.master.asset_num (pdu_total_size meta) at_rest.pdu

makes_area : create env ready.master.asset_num at_rest.pdu ≡ returns laid_out
unfolding create
makes_area = refl

first_step_example :
    (d e : Conductor) × (execute host env (pos 7) (pos 0) (record at_rest { bus = ready })
      ≡ returns (d, false))
    × (d.bus.master.state ≡ running)
    × (execute host env (pos 8) (pos 0) (with_first_writes (0 ∷ []) d) ≡ returns (e, true))
    × (e.world ≡ some (stepped world))
    × (e.bus.master.time.current ≡ pos 0 +ℤ pos 10)
first_step_example =
    first_step host env (pos 7) (pos 8) (pos 0) at_rest calls 0 [] world laid_out
      with_asset-IsWf.table is_stopped polls ((refl, (omega arith, tt)), tt) confirms refl
      (omega arith) in_time refl makes_area (tt, tt) (omega arith, tt) (omega (arith, one_asset))
