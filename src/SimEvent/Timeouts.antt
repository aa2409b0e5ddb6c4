-- ===== src/SimEvent/Timeouts.antt =====
-- Assets that do not answer in time (`do_event_handling` of hako_simevent_impl.cpp).
use hakoniwa_core_cpp.Prelude.{
  ℕ, ℤ, true, false, not, List, [], ◌∷◌, length, map, some, ◌≡◌, refl, arith, inl, All,
}
use hakoniwa_core_cpp.Master.Types.{SimState, error, any, state_eq, error_event, Slot, Master}
use hakoniwa_core_cpp.Master.Assets.{is_all_feedback}
use hakoniwa_core_cpp.Master.Table.{IsTable}
use hakoniwa_core_cpp.Master.Table.Update.{map-IsTable}
use hakoniwa_core_cpp.SimEvent.Publish.{Host, Bus, change_state, trigger_event}
use hakoniwa_core_cpp.SimEvent.Broadcast.{
  IsQuiet, tell, tell_all, tell-KeepsIdentity, publish_event-told,
}
use hakoniwa_core_cpp.SimEvent.Barrier.{waits_in}
use hakoniwa_core_cpp.SimEvent.Handling.{
  sim_event_needs_handling, timed_out, handle_nolock, unregister_all, Handled, is_empty,
  do_event_handling,
}
use hakoniwa_core_cpp.SimEvent.Removal.{outcome, unregister_all-told}

handle-waits :
    (now timeout : ℤ) (m : Master) (next : SimState)
    → waits_in m.state ≡ some next
    → is_all_feedback m.slots ≡ false
    → handle_nolock now timeout m ≡ (m, timed_out now timeout (length m.slots) 0 m.slots)
unfolding handle_nolock
handle-waits now timeout m next w fb = ground arith

all-IsQuiet : (ss : List Slot) → All (IsQuiet error_event) ss
all-IsQuiet [] = tt
all-IsQuiet (s ∷ ss) = (inl refl, all-IsQuiet ss)

trigger-error :
    (h : Host) (b : Bus) (next : SimState)
    → waits_in b.master.state ≡ some next
    → (trigger_event h any error error_event b).0 ≡ record b {
      master = record b.master { state = error; slots = tell_all error_event b.master.slots };
    }
unfolding trigger_event change_state
trigger-error h b next w =
    let told_all =
      publish_event-told h error_event (record b { master = record b.master { state = error } })
        (all-IsQuiet b.master.slots) in
    ground (arith, told_all)

handling-late :
    (h : Host) (now timeout : ℤ) (b b1 : Bus) (late : List ℕ) (m' : Master)
    → sim_event_needs_handling b.master.state ≡ true
    → handle_nolock now timeout b.master ≡ (b.master, late)
    → is_empty late ≡ false
    → (trigger_event h any error error_event b).0 ≡ b1
    → unregister_all late b1.master ≡ some m'
    → do_event_handling h now timeout b
      ≡ some (record {
        bus = record b1 { master = m' };
        prev = b.master.state;
        next = b.master.state;
        is_changed = not (state_eq b.master.state b.master.state);
      })
unfolding do_event_handling
handling-late h now timeout b b1 late m' needs handled some_late triggered did =
    ground (arith, needs, handled, some_late, triggered, did)

-- In a state that waits for the assets, while some asset has not given its feedback and at least one is
-- late: the event handling meets no null pointer, goes to the error state, tells all assets of the error,
-- and removes exactly the assets that are late.
pub do_event_handling-late :
    (h : Host) (now timeout : ℤ) (b : Bus) (next : SimState)
    → IsTable 0 b.master.slots
    → waits_in b.master.state ≡ some next
    → is_all_feedback b.master.slots ≡ false
    → is_empty (timed_out now timeout (length b.master.slots) 0 b.master.slots) ≡ false
    → (r : Handled) × (do_event_handling h now timeout b ≡ some r)
      × (r.bus.master.state ≡ error)
      × (r.bus.master.slots ≡ map (outcome now timeout) b.master.slots)
unfolding sim_event_needs_handling
do_event_handling-late h now timeout b next t w fb some_late =
    let ss = b.master.slots in
    let m : Master = record b.master { state = error; slots = tell_all error_event ss } in
    let b1 : Bus = record b { master = m } in
    let (m', did, slots, bad) =
      unregister_all-told now timeout (length ss) [] [] ss m refl refl refl
        (map-IsTable (tell error_event) (tell-KeepsIdentity error_event) 0 ss t) refl in
    (
      record {
        bus = record b1 { master = m' };
        prev = b.master.state;
        next = b.master.state;
        is_changed = not (state_eq b.master.state b.master.state);
      },
      handling-late h now timeout b b1 (timed_out now timeout (length ss) 0 ss) m' (ground arith)
          (handle-waits now timeout b.master next w fb) some_late (trigger-error h b next w) did,
      bad,
      slots,
    )
