-- ===== src/Conductor.antt =====
-- src/hako/hako_master_impl.cpp: the conductor, which joins the event handling, the clock and the PDU
-- area. `now` is the clock of the machine, and `timeout` the configured time for assets.
pub mod Steps
pub mod FirstWrites
pub mod Lifecycle
use hakoniwa_core_cpp.Prelude.{
  ℤ, pos, ltb_ℤ, Bool, true, false, not, ◌&&◌, if◌then◌else◌, Option, none, some,
}
use hakoniwa_core_cpp.World.{World, the_world, reset_world_time, time_begins_to_move}
use hakoniwa_core_cpp.Master.Types.{
  SimState, stopped, runnable, running, resetting, state_eq, Master,
}
use hakoniwa_core_cpp.Master.Assets.{get_asset_times, reset_asset_ctime}
use hakoniwa_core_cpp.SimEvent.Publish.{Host, Bus}
use hakoniwa_core_cpp.SimEvent.Handling.{Handled, do_event_handling}
use hakoniwa_core_cpp.Pdu.Types.{Pdu, Env, Outcome, returns, spins, faults}
use hakoniwa_core_cpp.Pdu.Area.{create, reset}
use hakoniwa_core_cpp.Pdu.Sync.{is_simulation_mode}

-- `world` is `none` before `set_config_simtime`.
pub record Conductor : Type 0 where
  pub bus : Bus
  pub world : Option World
  pub pdu : Pdu

-- The time in the master data that all processes read.
abbrev pub set_current : ℤ → Bus → Bus
set_current t b = record b {
  master = record b.master { time = record b.master.time { current = t } };
}

unfoldable pub set_config_simtime : ℤ → ℤ → Conductor → Conductor
unfolding the_world
set_config_simtime max delta c = record c {
  world = some (the_world max delta);
  bus = record c.bus {
    master = record c.bus.master {
      time = record c.bus.master.time { max_delay = max; delta = delta };
    };
  };
}

-- The assets' times go to 0, and the world's.
unfoldable pub rewind : World → Bus → World × Bus
unfolding reset_world_time reset_asset_ctime
rewind w b = (
  reset_world_time w,
  set_current (pos 0)
      (record b { master = record b.master { slots = reset_asset_ctime b.master.slots } }),
)

-- What `execute` does on a change of state: the area is made when the simulation begins to run, and
-- cleared after a reset.
unfoldable pub on_change : Env → World → Handled → Pdu → Outcome (World × Bus × Pdu)
unfolding rewind create reset
on_change env w r p =
    if r.is_changed && (state_eq r.prev runnable && state_eq r.next running)
    then elim (create env r.bus.master.asset_num p) [
      | returns q ↦ returns (w, r.bus, q)
      | spins ↦ spins
      | faults ↦ faults
    ]
    else if r.is_changed && (state_eq r.prev resetting && state_eq r.next stopped)
    then elim (reset env p) [
      | returns q ↦ returns ((rewind w r.bus).0, (rewind w r.bus).1, q)
      | spins ↦ spins
      | faults ↦ faults
    ]
    else returns (w, r.bus, p)

-- The move of the clock, once the simulation runs and the first writes are done.
unfoldable pub move_time : World → Bus → Pdu → Conductor × Bool
unfolding time_begins_to_move get_asset_times
move_time w b p =
    let v = time_begins_to_move w (get_asset_times b.master.slots) in
    if ltb_ℤ w.world_time v.world_time
    then (record { bus = set_current v.world_time b; world = some v; pdu = p }, true)
    else (record { bus = b; world = some v; pdu = p }, false)

-- `execute`.
unfoldable pub execute : Host → Env → ℤ → ℤ → Conductor → Outcome (Conductor × Bool)
unfolding do_event_handling on_change is_simulation_mode move_time
execute h env now timeout c = elim c.world [
  | none ↦ returns (c, false)
  | some w ↦ elim (do_event_handling h now timeout c.bus) [
    | none ↦ faults
    | some r ↦ elim (on_change env w r c.pdu) [
      | spins ↦ spins
      | faults ↦ faults
      | returns (v, b, p) ↦
          if state_eq r.next running && is_simulation_mode p.meta
          then returns (move_time v b p)
          else returns (record { bus = b; world = some v; pdu = p }, false)
    ]
  ]
]
