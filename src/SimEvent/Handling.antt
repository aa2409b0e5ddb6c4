-- ===== src/SimEvent/Handling.antt =====
-- `do_event_handling` of hako_simevent_impl.cpp, which the conductor calls in a loop, and `feedback`
-- of hako_asset_impl.cpp, by which the assets answer.
use hakoniwa_core_cpp.Prelude.{
  ℕ, zero, suc, ℤ, Bool, true, false, not, if◌then◌else◌, List, [], ◌∷◌, length, Option, none, some,
}
use hakoniwa_core_cpp.FixedString.{fixed_to_string}
use hakoniwa_core_cpp.Master.Types.{
  SimState, stopped, runnable, running, stopping, resetting, error, any, state_eq, no_event,
  error_event, Slot, Master, modify,
}
use hakoniwa_core_cpp.Master.Assets.{
  get_asset, find_asset, is_all_feedback, is_asset_timeout, free_asset,
}
use hakoniwa_core_cpp.SimEvent.Publish.{Host, Bus, trigger_event}

unfoldable pub sim_event_needs_handling : SimState → Bool
sim_event_needs_handling runnable = true
sim_event_needs_handling stopping = true
sim_event_needs_handling resetting = true
sim_event_needs_handling _ = false

-- `do_event_handling_timeout_nolock`: the ids, from `i` on, of the assets in use that time out.
unfoldable pub timed_out : ℤ → ℤ → ℕ → ℕ → List Slot → List ℕ
timed_out now timeout zero i ss = []
timed_out now timeout (suc n) i ss =
    let rest = timed_out now timeout n (suc i) ss in
    elim (get_asset i ss) [
      | none ↦ rest
      | some s ↦ if is_asset_timeout now timeout i ss then i ∷ rest else rest
    ]

-- `do_event_handling_nolock`: the new data and the assets that have timed out.
unfoldable pub handle_nolock : ℤ → ℤ → Master → Master × List ℕ
unfolding timed_out
handle_nolock now timeout m =
    let late = timed_out now timeout (length m.slots) 0 m.slots in
    elim m.state [
      | runnable ↦ if is_all_feedback m.slots then (record m { state = running }, []) else (m, late)
      | stopping ↦ if is_all_feedback m.slots then (record m { state = stopped }, []) else (m, late)
      | resetting ↦
          if is_all_feedback m.slots then (record m { state = stopped }, []) else (m, late)
      | _ ↦ (m, [])
    ]

-- The loop over the assets that timed out, by `asset_unregister`. `none` is a null pointer: the
-- asset is not in the table any more.
unfoldable pub unregister_all : List ℕ → Master → Option Master
unregister_all [] m = some m
unregister_all (id ∷ ids) m = elim (get_asset id m.slots) [
  | none ↦ none
  | some s ↦ unregister_all ids (free_asset (fixed_to_string s.name) m).0
]

-- What `do_event_handling` returns: the data, the state before and after, and whether it changed.
pub record Handled : Type 0 where
  pub bus : Bus
  pub prev : SimState
  pub next : SimState
  pub is_changed : Bool

abbrev pub is_empty : List ℕ → Bool
is_empty [] = true
is_empty (x ∷ xs) = false

unfoldable pub do_event_handling : Host → ℤ → ℤ → Bus → Option Handled
unfolding handle_nolock unregister_all sim_event_needs_handling
do_event_handling h now timeout b =
    let prev = b.master.state in
    if not (sim_event_needs_handling prev)
    then some (record { bus = b; prev = prev; next = prev; is_changed = false })
    else let (m, late) = handle_nolock now timeout b.master in
      let b' : Bus = record b { master = m } in
      let b'' : Bus = if is_empty late then b' else (trigger_event h any error error_event b').0 in
      elim (unregister_all late b''.master) [
        | none ↦ none
        | some m' ↦ some (record {
          bus = record b'' { master = m' };
          prev = prev;
          next = m.state;
          is_changed = not (state_eq prev m.state);
        })
      ]

-- `feedback`: `none` is a null pointer, which the id of an asset in the table never gives.
unfoldable pub feedback : ℤ → List ℕ → Bool → SimState → Master → Option (Master × Bool)
feedback now name is_ok expected m = elim (find_asset name m.slots) [
  | none ↦ some (m, false)
  | some i ↦ elim (get_asset i m.slots) [
    | none ↦ none
    | some entry ↦ elim (get_asset entry.id m.slots) [
      | none ↦ none
      | some ev ↦
          let right = state_eq m.state expected in
          some (
            record m {
              slots =
                  modify entry.id
                    (λ s. record s {
                      update_time = now;
                      event_feedback = if right then is_ok else false;
                      event = no_event;
                    })
                    m.slots;
            },
            right,
          )
    ]
  ]
]

unfoldable pub start_feedback : ℤ → List ℕ → Bool → Master → Option (Master × Bool)
unfolding feedback
start_feedback now name is_ok m = feedback now name is_ok runnable m

unfoldable pub stop_feedback : ℤ → List ℕ → Bool → Master → Option (Master × Bool)
unfolding feedback
stop_feedback now name is_ok m = feedback now name is_ok stopping m

unfoldable pub reset_feedback : ℤ → List ℕ → Bool → Master → Option (Master × Bool)
unfolding feedback
reset_feedback now name is_ok m = feedback now name is_ok resetting m
