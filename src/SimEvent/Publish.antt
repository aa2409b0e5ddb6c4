-- ===== src/SimEvent/Publish.antt =====
-- `notify` of hako_internal_rpc.cpp; `publish_event_nolock`, `trigger_event`, `start`, `stop` and
-- `reset` of hako_simevent_impl.cpp.
use hakoniwa_core_cpp.Prelude.{
  ℕ, zero, suc, ℤ, eqb_ℤ, Bool, true, false, ◌==◌, if◌then◌else◌, List, [], ◌∷◌, ◌++◌, length,
  Option, none, some,
}
use hakoniwa_core_cpp.Master.Types.{
  SimState, stopped, runnable, running, stopping, resetting, error, state_eq, is_vacant,
  is_error_event, AssetEvent, no_event, start_event, stop_event, reset_event, error_event,
  Callbacks, Slot, Master, modify,
}
use hakoniwa_core_cpp.Master.Assets.{get_asset}

-- The process that runs the controller: its id, and what a call of a client's function through its
-- pointer does to the master data.
pub record Host : Type 0 where
  pub pid : ℤ
  pub invoke : ℕ → Master → Master

-- The master data, and the ids of the assets whose semaphore was raised, in order.
pub record Bus : Type 0 where
  pub master : Master
  pub raised : List ℕ

abbrev pub set_event : AssetEvent → Bool → Slot → Slot
set_event e fb s = record s { event = e; event_feedback = fb }

abbrev pub set_slot : ℕ → (Slot → Slot) → Bus → Bus
set_slot i f b = record b { master = record b.master { slots = modify i f b.master.slots } }

abbrev pub callback_of : AssetEvent → Callbacks → Option ℕ
callback_of start_event c = some c.start
callback_of stop_event c = some c.stop
callback_of reset_event c = some c.reset
callback_of _ c = none

-- `notify`, for the asset `s` at `id`. An asset with no callback polls for the event.
unfoldable pub notify : Host → ℕ → Slot → AssetEvent → Bus → Bus
notify h id s event b =
    let b' = set_slot id (set_event event false) b in
    if s.callbacks.start == 0
    then b'
    else if eqb_ℤ h.pid s.pid
    then elim (callback_of event s.callbacks) [
      | none ↦ b'
      | some f ↦ record b' { master = h.invoke f b'.master }
    ]
    else record b' { raised = b'.raised ++ id ∷ [] }

-- One round of the loop of `publish_event_nolock`.
unfoldable pub publish_one : Host → AssetEvent → ℕ → Bus → Bus
unfolding notify
publish_one h event i b = elim (get_asset i b.master.slots) [
  | none ↦ b
  | some s ↦ elim event [
    | reset_event ↦
        if is_error_event s.event
        then set_slot i (λ s. record s { event_feedback = true }) b
        else notify h i s reset_event b
    | start_event ↦ notify h i s start_event b
    | stop_event ↦ notify h i s stop_event b
    | error_event ↦ set_slot i (set_event error_event true) b
    | no_event ↦ b
  ]
]

-- `n` rounds, from index `i` on.
unfoldable pub publish_from : Host → AssetEvent → ℕ → ℕ → Bus → Bus
unfolding publish_one
publish_from h event zero i b = b
publish_from h event (suc n) i b = publish_from h event n (suc i) (publish_one h event i b)

unfoldable pub publish_event : Host → AssetEvent → Bus → Bus
unfolding publish_from
publish_event h event b = publish_from h event (length b.master.slots) 0 b

-- The loop of `trigger_event`: no asset in use has given its feedback.
unfoldable pub clear_feedback : List Slot → List Slot
clear_feedback [] = []
clear_feedback (s ∷ ss) =
    (if is_vacant s.kind then s else record s { event_feedback = false }) ∷ clear_feedback ss

-- The change of state under the master lock.
unfoldable pub change_state : SimState → SimState → Master → Master × Bool
unfolding clear_feedback
change_state curr next m =
    if state_eq m.state curr
    then (record m { state = next; slots = clear_feedback m.slots }, true)
    else if state_eq next error
    then (record m { state = next }, true)
    else (m, false)

unfoldable pub trigger_event : Host → SimState → SimState → AssetEvent → Bus → Bus × Bool
unfolding change_state publish_event
trigger_event h curr next event b =
    let (m, ret) = change_state curr next b.master in
    let b' : Bus = record b { master = m } in
    if ret then (publish_event h event b', true) else (b', false)

unfoldable pub start : Host → Bus → Bus × Bool
unfolding trigger_event
start h b = trigger_event h stopped runnable start_event b

unfoldable pub stop : Host → Bus → Bus × Bool
unfolding trigger_event
stop h b = trigger_event h running stopping stop_event b

unfoldable pub reset : Host → Bus → Bus × Bool
unfolding trigger_event
reset h b =
    if state_eq b.master.state stopped
    then trigger_event h stopped resetting reset_event b
    else if state_eq b.master.state error
    then trigger_event h error stopped reset_event b
    else (b, false)
