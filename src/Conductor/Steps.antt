-- ===== src/Conductor/Steps.antt =====
-- What a step of the conductor promises (`execute` of hako_master_impl.cpp).
use hakoniwa_core_cpp.Prelude.{
  ℤ, ◌+ℤ◌, true, false, ◌&&◌, some, ◌≡◌, refl, arith, ◌⊎◌, inl, inr, Option-cases, Bool-cases, All,
}
use hakoniwa_core_cpp.World.{World, can_step, time_begins_to_move}
use hakoniwa_core_cpp.World.Skew.{Within, can_step_iff}
use hakoniwa_core_cpp.Master.Assets.{get_asset_times}
use hakoniwa_core_cpp.SimEvent.Publish.{Host, Bus}
use hakoniwa_core_cpp.Pdu.Types.{Pdu, Env, Outcome, returns, spins, faults}
use hakoniwa_core_cpp.Pdu.Sync.{is_simulation_mode}
use hakoniwa_core_cpp.Master.Types.{state_eq, runnable, running, stopped}
use hakoniwa_core_cpp.SimEvent.Handling.{Handled, do_event_handling}
use hakoniwa_core_cpp.Pdu.Area.{create}
use hakoniwa_core_cpp.Conductor.{Conductor, on_change, move_time, execute}

move_time-true :
    (w : World) (b : Bus) (p : Pdu) (c : Conductor)
    → move_time w b p ≡ (c, true)
    → (v : World) × (c.world ≡ some v)
      × (v.world_time ≡ w.world_time +ℤ w.delta)
      × (c.bus.master.time.current ≡ v.world_time)
      × All (Within w.max_delay w) (get_asset_times c.bus.master.slots)
      × (c.pdu ≡ p)
unfolding move_time time_begins_to_move
move_time-true w b p c e = elim (Bool-cases (can_step w (get_asset_times b.master.slots))) [
  | inl go ↦ (
    record w { world_time = w.world_time +ℤ w.delta },
    ground (arith, go),
    refl,
    ground (arith, go),
    rw (same_slots go) ((can_step_iff w (get_asset_times b.master.slots)).0 go),
    ground (arith, go),
  )
  | inr stop ↦ ground (arith, stop)
]
  where
    same_slots :
        can_step w (get_asset_times b.master.slots) ≡ true → c.bus.master.slots ≡ b.master.slots
    same_slots go = ground (arith, go)

-- On the way to "running" the world's clock stays.
on_change-running :
    (env : Env) (w v : World) (r : Handled) (p q : Pdu) (b : Bus)
    → state_eq r.next running ≡ true
    → on_change env w r p ≡ returns (v, b, q)
    → v ≡ w
unfolding on_change
on_change-running env w v r p q b runs e =
    let not_stopped : state_eq r.next stopped ≡ false = ground arith in
    elim (Bool-cases (r.is_changed && (state_eq r.prev runnable && state_eq r.next running))) [
      | inl up ↦ elim (Outcome-cases (create env r.bus.master.asset_num p)) [
        | inl (x, did) ↦ ground arith
        | inr (inl did) ↦ ground arith
        | inr (inr did) ↦ ground arith
      ]
      | inr other ↦ ground arith
    ]
  where
    Outcome-cases : (o : Outcome Pdu) → ((x : Pdu) × (o ≡ returns x)) ⊎ ((o ≡ spins) ⊎ (o ≡ faults))
    Outcome-cases (returns x) = inl (x, refl)
    Outcome-cases spins = inr (inl refl)
    Outcome-cases faults = inr (inr refl)

-- What a step has done that moved the clock.
pub record Moved (c d : Conductor) : Type 0 where
  pub before : World
  pub after : World
  pub was : c.world ≡ some before
  pub is : d.world ≡ some after
  pub moved : after.world_time ≡ before.world_time +ℤ before.delta
  pub published : d.bus.master.time.current ≡ after.world_time
  pub near : All (Within before.max_delay before) (get_asset_times d.bus.master.slots)
  pub synced : is_simulation_mode d.pdu.meta ≡ true

go_on :
    (h : Host) (env : Env) (now timeout : ℤ) (c d : Conductor) (w : World) (r : Handled)
    → c.world ≡ some w
    → do_event_handling h now timeout c.bus ≡ some r
    → execute h env now timeout c ≡ returns (d, true)
    → (v : World) × (b : Bus) × (p : Pdu) × (on_change env w r c.pdu ≡ returns (v, b, p))
      × (state_eq r.next running ≡ true)
      × (is_simulation_mode p.meta ≡ true)
      × (move_time v b p ≡ (d, true))
unfolding execute
go_on h env now timeout c d w r has did e = elim (Outcome-cases (on_change env w r c.pdu)) [
  | inr (inl o) ↦ ground arith
  | inr (inr o) ↦ ground arith
  | inl ((v, b, p), o) ↦ elim (Bool-cases (state_eq r.next running && is_simulation_mode p.meta)) [
    | inl go ↦ (v, b, p, o, ground arith, ground arith, ground arith)
    | inr stay ↦ ground arith
  ]
]
  where
    Outcome-cases :
        (o : Outcome (World × Bus × Pdu))
        → ((x : World × Bus × Pdu) × (o ≡ returns x)) ⊎ ((o ≡ spins) ⊎ (o ≡ faults))
    Outcome-cases (returns x) = inl (x, refl)
    Outcome-cases spins = inr (inl refl)
    Outcome-cases faults = inr (inr refl)

-- Where `execute` answers `true`, the world's clock has moved by one step, the master data show the new
-- time, every asset's time was less than the largest delay behind the clock before the step, and the
-- area is not in the mode of first writes.
pub execute-Moved :
    (h : Host) (env : Env) (now timeout : ℤ) (c d : Conductor)
    → execute h env now timeout c ≡ returns (d, true)
    → Moved c d
unfolding execute
execute-Moved h env now timeout c d e = elim (Option-cases c.world) [
  | inl unset ↦ ground arith
  | inr (w, has) ↦ elim (Option-cases (do_event_handling h now timeout c.bus)) [
    | inl null ↦ ground arith
    | inr (r, did) ↦
        let (v, b, p, o, runs, synced, moves) = go_on h env now timeout c d w r has did e in
        let same = on_change-running env w v r c.pdu p b runs o in
        let (u, is, moved, published, near, pdu) = move_time-true w b p d (rw same at moves) in
        record {
          before = w;
          after = u;
          was = has;
          is = is;
          moved = moved;
          published = published;
          near = near;
          synced = rw pdu synced;
        }
  ]
]
