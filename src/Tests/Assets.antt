-- ===== src/Tests/Assets.antt =====
-- A table of two slots, an asset "AB", and a start of the simulation (hako_master_data.hpp,
-- hako_simevent_impl.cpp).
use hakoniwa_core_cpp.SimEvent.Timeouts.{do_event_handling-late}
use hakoniwa_core_cpp.SimEvent.Removal.{outcome}
use hakoniwa_core_cpp.SimEvent.Handling.{Handled, is_empty, do_event_handling}
use hakoniwa_core_cpp.Master.Types.{error}
use hakoniwa_core_cpp.Master.Assets.{is_asset_timeout}
use hakoniwa_core_cpp.Prelude.{
  ◌+ℤ◌, length, ℕ, suc, pos, true, false, List, [], ◌∷◌, none, some, map, ◌≡◌, ◌≢◌, refl, ap, arith,
  ◌⊎◌, inr, All,
}
use hakoniwa_core_cpp.FixedString.{FixedString, string_to_fixed, matches, strncmp_eq}
use hakoniwa_core_cpp.FixedString.Laws.{HasNoZero}
use hakoniwa_core_cpp.Master.Types.{stopped, runnable, running, inside, is_vacant, Master}
use hakoniwa_core_cpp.Master.Assets.{
  init, find_asset, occupy, occupy_first, may_alloc, alloc_asset, free_asset, is_all_feedback,
  get_asset,
}
use hakoniwa_core_cpp.Master.WellFormed.{IsWf, init-IsWf, alloc-IsWf, find-alloc}
use hakoniwa_core_cpp.SimEvent.Publish.{
  Host, Bus, start, trigger_event, change_state, clear_feedback, publish_event, publish_from,
  publish_one, notify,
}
use hakoniwa_core_cpp.SimEvent.Handling.{handle_nolock, timed_out, feedback, start_feedback}
use hakoniwa_core_cpp.SimEvent.Broadcast.{IsQuiet}
use hakoniwa_core_cpp.SimEvent.Barrier.{waits_in, Call, after_calls, HasConfirmed, start_barrier}
use hakoniwa_core_cpp.Master.Types.{start_event}

abbrev ab : List ℕ
ab = 65 ∷ 66 ∷ []

abbrev cd : List ℕ
cd = 67 ∷ 68 ∷ []

ab-HasNoZero : HasNoZero ab
ab-HasNoZero = (omega arith, (omega arith, tt))

cd-HasNoZero : HasNoZero cd
cd-HasNoZero = (omega arith, (omega arith, tt))

cd≢ab : cd ≢ ab
cd≢ab e = omega (arith, ap head e)
  where
    head : List ℕ → ℕ
    head [] = 0
    head (x ∷ xs) = x

abbrev empty_buffer : FixedString
empty_buffer = record { len = 0; chars = [] }

-- A stored name "AB" in a buffer of four bytes.
abbrev stored : FixedString
stored = record { len = 2; chars = 65 ∷ 66 ∷ 0 ∷ 9 ∷ [] }

abbrev new_master : Master
new_master = init 2 (pos 7)

new_master-IsWf : IsWf new_master
new_master-IsWf = init-IsWf 2 (pos 7) (omega arith)

-- The data with the asset.
abbrev with_ab : Master
with_ab = (alloc_asset (pos 5) (pos 8) ab inside none new_master).0

with_ab-IsWf : IsWf with_ab
with_ab-IsWf = alloc-IsWf (pos 5) (pos 8) ab inside none new_master ab-HasNoZero new_master-IsWf

alloc-IsWf_example : IsWf (alloc_asset (pos 5) (pos 8) ab inside none new_master).0
alloc-IsWf_example =
    alloc-IsWf (pos 5) (pos 8) ab inside none new_master ab-HasNoZero new_master-IsWf

registered : alloc_asset (pos 5) (pos 8) ab inside none new_master ≡ (with_ab, some 0)
unfolding alloc_asset may_alloc occupy_first find_asset init occupy
registered = refl

find-alloc_example :
    (find_asset ab with_ab.slots ≡ some 0)
    × (find_asset cd with_ab.slots ≡ find_asset cd new_master.slots)
    × (with_ab.asset_num ≡ suc new_master.asset_num)
find-alloc_example =
    find-alloc (pos 5) (pos 8) ab inside none new_master with_ab 0 cd ab-HasNoZero cd-HasNoZero
      cd≢ab new_master-IsWf registered

abbrev without_ab : Master
without_ab = (free_asset ab with_ab).0

removed : free_asset ab with_ab ≡ (without_ab, true)
unfolding free_asset find_asset alloc_asset may_alloc occupy_first init occupy matches strncmp_eq
    string_to_fixed
removed = refl

abbrev host : Host
host = record { pid = pos 9; invoke = λ f m. m }

abbrev bus : Bus
bus = record { master = with_ab; raised = [] }

is_stopped : with_ab.state ≡ stopped
unfolding alloc_asset may_alloc occupy_first find_asset init occupy
is_stopped = refl

polls : All (IsQuiet start_event) with_ab.slots
unfolding alloc_asset may_alloc occupy_first find_asset init occupy
polls = (inr refl, (inr refl, tt))

-- The data after `start` and after the asset has said "ok".
abbrev started : Master
started = (start host bus).0.master

abbrev confirmations : List Call
confirmations = (pos 6, ab, true) ∷ []

abbrev confirmed : Master
confirmed = after_calls confirmations started

waits : waits_in started.state ≡ some running
unfolding start trigger_event change_state alloc_asset may_alloc occupy_first find_asset init occupy
    clear_feedback publish_event publish_from publish_one notify get_asset
waits = refl

runs : (handle_nolock (pos 7) (pos 0) confirmed).0.state ≡ running
unfolding start trigger_event change_state alloc_asset may_alloc occupy_first find_asset init occupy
    clear_feedback publish_event publish_from publish_one notify get_asset after_calls
    start_feedback feedback handle_nolock is_all_feedback timed_out matches strncmp_eq
    string_to_fixed
runs = refl

start_barrier_example :
    All (λ s. (is_vacant s.kind ≡ true) ⊎ HasConfirmed confirmations s.name) confirmed.slots
start_barrier_example =
    start_barrier host (pos 7) (pos 0) bus confirmations with_ab-IsWf.table is_stopped polls runs

-- The asset has not answered, 35 seconds after it was registered.
abbrev waiting : Bus
waiting = record { master = record with_ab { state = runnable }; raised = [] }

not_fed : is_all_feedback waiting.master.slots ≡ false
unfolding is_all_feedback alloc_asset may_alloc occupy_first find_asset init occupy
not_fed = refl

ab_late :
    is_empty
      (timed_out (pos 35_000_000) (pos 0) (length waiting.master.slots) 0 waiting.master.slots)
    ≡ false
unfolding timed_out get_asset is_asset_timeout alloc_asset may_alloc occupy_first find_asset init
    occupy ◌+ℤ◌
ab_late = refl

do_event_handling-late_example :
    (r : Handled) × (do_event_handling host (pos 35_000_000) (pos 0) waiting ≡ some r)
    × (r.bus.master.state ≡ error)
    × (r.bus.master.slots ≡ map (outcome (pos 35_000_000) (pos 0)) waiting.master.slots)
do_event_handling-late_example =
    do_event_handling-late host (pos 35_000_000) (pos 0) waiting running with_ab-IsWf.table refl
      not_fed ab_late
