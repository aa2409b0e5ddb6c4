-- ===== src/Conductor/Lifecycle.antt =====
-- From the start of a simulation to the first step of its clock: `execute` of hako_master_impl.cpp, between
-- the confirmations and the first writes of the assets.
use hakoniwa_core_cpp.Prelude.{
  ℕ, ◌≤◌, ◌<◌, ℤ, pos, ◌+ℤ◌, ◌<ℤ◌, true, false, List, ◌∷◌, length, some, ◌≡◌, refl, subst, sym,
  arith, All, ◌⊎◌, Bool-cases, inl, inr, +ℤ_parts,
}
use hakoniwa_core_cpp.World.{World, time_begins_to_move}
use hakoniwa_core_cpp.World.Skew.{Within, All-can_step}
use hakoniwa_core_cpp.Master.Types.{stopped, runnable, running, start_event, is_vacant}
use hakoniwa_core_cpp.Master.Assets.{get_asset_times}
use hakoniwa_core_cpp.Master.Table.{IsTable}
use hakoniwa_core_cpp.SimEvent.Publish.{Host, Bus, start}
use hakoniwa_core_cpp.SimEvent.Broadcast.{IsQuiet}
use hakoniwa_core_cpp.SimEvent.Handling.{
  handle_nolock, unregister_all, sim_event_needs_handling, do_event_handling,
}
use hakoniwa_core_cpp.SimEvent.Barrier.{Call, after_calls, HasConfirmed}
use hakoniwa_core_cpp.SimEvent.Starting.{IsGoodCall, handle-running}
use hakoniwa_core_cpp.Pdu.Types.{Pdu, Env, returns}
use hakoniwa_core_cpp.Pdu.Area.{create, lay_out}
use hakoniwa_core_cpp.Pdu.Channels.{rebuild_pdu_channel_index}
use hakoniwa_core_cpp.Pdu.Sync.{is_simulation_mode}
use hakoniwa_core_cpp.Conductor.{Conductor, set_current, on_change, move_time, execute}
use hakoniwa_core_cpp.Conductor.FirstWrites.{notify_all, IsOnce, notify_all-mode}

-- The clock after one step.
abbrev pub stepped : World → World
stepped w = record w { world_time = w.world_time +ℤ w.delta }

handled-runnable :
    (h : Host) (now timeout : ℤ) (b : Bus)
    → b.master.state ≡ runnable
    → (handle_nolock now timeout b.master).0.state ≡ running
    → do_event_handling h now timeout b
      ≡ some (record {
        bus = record b { master = record b.master { state = running } };
        prev = runnable;
        next = running;
        is_changed = true;
      })
unfolding do_event_handling handle_nolock unregister_all sim_event_needs_handling
handled-runnable h now timeout b e runs = ground arith

handled-running :
    (h : Host) (now timeout : ℤ) (b : Bus)
    → b.master.state ≡ running
    → do_event_handling h now timeout b
      ≡ some (record { bus = b; prev = running; next = running; is_changed = false })
unfolding do_event_handling sim_event_needs_handling
handled-running h now timeout b e = ground arith

-- The step that makes the simulation run, in which the area is made.
execute-runs :
    (h : Host) (env : Env) (now timeout : ℤ) (c : Conductor) (w : World) (q : Pdu)
    → c.world ≡ some w
    → c.bus.master.state ≡ runnable
    → (handle_nolock now timeout c.bus.master).0.state ≡ running
    → create env c.bus.master.asset_num c.pdu ≡ returns q
    → is_simulation_mode q.meta ≡ false
    → execute h env now timeout c
      ≡ returns (
        record {
          bus = record c.bus { master = record c.bus.master { state = running } };
          world = some w;
          pdu = q;
        },
        false,
      )
unfolding execute on_change
execute-runs h env now timeout c w q has e runs made first =
    let handled = handled-runnable h now timeout c.bus e runs in ground arith

execute-steps :
    (h : Host) (env : Env) (now timeout : ℤ) (c : Conductor) (w : World)
    → c.world ≡ some w
    → c.bus.master.state ≡ running
    → is_simulation_mode c.pdu.meta ≡ true
    → All (Within w.max_delay w) (get_asset_times c.bus.master.slots)
    → pos 0 <ℤ w.delta
    → execute h env now timeout c
      ≡ returns (
        record {
          bus = set_current (stepped w).world_time c.bus;
          world = some (stepped w);
          pdu = c.pdu;
        },
        true,
      )
unfolding execute on_change move_time time_begins_to_move
execute-steps h env now timeout c w has e synced near grows =
    let handled = handled-running h now timeout c.bus e in
    let go = All-can_step w (get_asset_times c.bus.master.slots) near in
    ground (arith, +ℤ_parts w.world_time w.delta)

-- The area that the step makes is in the mode of first writes.
created-first :
    (env : Env) (n : ℕ) (p q : Pdu)
    → env.init_lock ≡ true
    → create env n p ≡ returns q
    → (is_simulation_mode q.meta ≡ false)
      × (q.meta.asset_num ≡ n)
      × (q.meta.check_status ≡ p.meta.check_status)
unfolding create lay_out rebuild_pdu_channel_index is_simulation_mode
created-first env n p q locked e = elim (Bool-cases p.attached) [
  | inl has ↦ ground arith
  | inr new_area ↦ ground arith
]

-- What `start` and the calls of `start_feedback` leave.
abbrev pub confirmed_bus : Host → List Call → Bus → Bus
confirmed_bus h calls b = record (start h b).0 { master = after_calls calls (start h b).0.master }

abbrev pub with_first_writes : List ℕ → Conductor → Conductor
with_first_writes ids c = record c { pdu = record c.pdu { meta = notify_all ids c.pdu.meta } }

-- A stopped simulation whose assets poll for events gets going: after start and any calls of start_feedback
-- that say ok, in names with no zero byte, of which each asset in the table has made one, the next execute
-- makes the simulation run, where create can make the area. After the first writes of some assets, none
-- twice and with ids that have a flag, which are at least one and as many as are registered, the execute
-- that follows moves the clock by one step, which all processes see, where no asset's time is a largest
-- delay behind and a step is more than 0.
pub first_step :
    (h : Host) (env : Env) (now later timeout : ℤ) (c : Conductor) (calls : List Call) (id : ℕ)
    (ids : List ℕ) (w : World) (q : Pdu)
    → IsTable 0 c.bus.master.slots
    → c.bus.master.state ≡ stopped
    → All (IsQuiet start_event) c.bus.master.slots
    → All IsGoodCall calls
    → All
        (λ s. (is_vacant s.kind ≡ true) ⊎ HasConfirmed calls s.name)
        (confirmed_bus h calls c.bus).master.slots
    → c.world ≡ some w
    → pos 0 <ℤ w.delta
    → All (Within w.max_delay w) (get_asset_times (confirmed_bus h calls c.bus).master.slots)
    → env.init_lock ≡ true
    → create env (confirmed_bus h calls c.bus).master.asset_num c.pdu ≡ returns q
    → IsOnce (id ∷ ids)
    → All (λ i. i < length c.pdu.meta.check_status) (id ∷ ids)
    → (confirmed_bus h calls c.bus).master.asset_num ≤ length (id ∷ ids)
    → (d e : Conductor) × (execute h env now timeout
          (record c { bus = confirmed_bus h calls c.bus })
        ≡ returns (d, false))
      × (d.bus.master.state ≡ running)
      × (execute h env later timeout (with_first_writes (id ∷ ids) d) ≡ returns (e, true))
      × (e.world ≡ some (stepped w))
      × (e.bus.master.time.current ≡ w.world_time +ℤ w.delta)
first_step h env now later timeout c calls id ids w q t e quiet good all has grows near locked made
      once small enough =
    let b = confirmed_bus h calls c.bus in
    let (ready, runs) = handle-running h now timeout c.bus calls t e quiet good all in
    let (first, count, flags) = created-first env b.master.asset_num c.pdu q locked made in
    let synced =
      notify_all-mode id ids q.meta once
        (subst (λ bs. All (λ i. i < length bs) (id ∷ ids)) (sym flags) small)
        (omega (arith, count)) in
    let d : Conductor = record {
      bus = record b { master = record b.master { state = running } };
      world = some w;
      pdu = q;
    } in
    (
      d,
      record {
        bus = set_current (stepped w).world_time d.bus;
        world = some (stepped w);
        pdu = (with_first_writes (id ∷ ids) d).pdu;
      },
      execute-runs h env now timeout (record c { bus = b }) w q has ready runs made first,
      refl,
      execute-steps h env later timeout (with_first_writes (id ∷ ids) d) w refl refl synced near
          grows,
      refl,
      refl,
    )
