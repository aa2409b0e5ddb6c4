-- ===== src/SimEvent/Barrier.antt =====
-- The start barrier of hako_simevent_impl.cpp: the simulation runs only when every asset has said so.
use hakoniwa_core_cpp.Prelude.{
  ℕ, ℤ, Bool, true, false, if◌then◌else◌, List, [], ◌∷◌, map, get_elem?, Option, none, some, ◌≡◌,
  refl, ◌∙◌, arith, ◌⊎◌, inl, inr, All, Bool-cases, Option-cases, ◌↔◌,
}
use hakoniwa_core_cpp.FixedString.{FixedString, matches}
use hakoniwa_core_cpp.Master.Types.{
  SimState, stopped, runnable, running, stopping, resetting, state_eq, no_event, start_event,
  is_vacant, Slot, Master, modify,
}
use hakoniwa_core_cpp.Master.Assets.{find_asset, get_asset, is_all_feedback}
use hakoniwa_core_cpp.Master.Table.{IsTable, find_asset-found, IsTable-IsSlot}
use hakoniwa_core_cpp.Master.Table.Update.{All-modify, modify-IsTable, map-IsTable}
use hakoniwa_core_cpp.SimEvent.Publish.{Host, Bus, start}
use hakoniwa_core_cpp.SimEvent.Broadcast.{
  IsQuiet, tell, tell_all, trigger_event-told, unfed, unfed-KeepsIdentity, tell-KeepsIdentity,
}
use hakoniwa_core_cpp.SimEvent.Handling.{handle_nolock, feedback, start_feedback}

-- Every asset in use has given its feedback.
abbrev pub AllFed : List Slot → Type 0
AllFed = All (λ s. is_vacant s.kind ≡ false → s.event_feedback ≡ true)

pub is_all_feedback_iff : (ss : List Slot) → (is_all_feedback ss ≡ true) ↔ AllFed ss
unfolding is_all_feedback
is_all_feedback_iff [] = ((λ _. tt), (λ _. refl))
is_all_feedback_iff (s ∷ ss) = (
  (λ h. ((λ u. ground arith), (is_all_feedback_iff ss).0 (ground arith))),
  (λ (f, fs). ground (arith, (is_all_feedback_iff ss).1 fs)),
)

-- The states in which the event handling waits for every asset's feedback, and where it then goes.
abbrev pub waits_in : SimState → Option SimState
waits_in runnable = some running
waits_in stopping = some stopped
waits_in resetting = some stopped
waits_in _ = none

-- In a state that waits for the assets, the event handling goes on to the next state exactly when every
-- asset in use has given its feedback.
pub handle_iff :
    (now timeout : ℤ) (m : Master) (next : SimState)
    → waits_in m.state ≡ some next
    → ((handle_nolock now timeout m).0.state ≡ next) ↔ AllFed m.slots
unfolding handle_nolock
handle_iff now timeout m next w = (
  (λ h. (is_all_feedback_iff m.slots).0 (ground arith)),
  (λ f. ground (arith, (is_all_feedback_iff m.slots).1 f)),
)

-- A call of `start_feedback`: when, by whom, and what it says.
abbrev pub Call : Type 0
Call = ℤ × List ℕ × Bool

-- The data after the calls, in order; a call that meets a null pointer would leave it.
unfoldable pub after_calls : List Call → Master → Master
after_calls [] m = m
after_calls ((now, name, is_ok) ∷ cs) m = elim (start_feedback now name is_ok m) [
  | none ↦ after_calls cs m
  | some (m', _) ↦ after_calls cs m'
]

-- The call said "ok" in the name of the asset.
abbrev pub Says : Call → FixedString → Type 0
Says (now, name, is_ok) n = (is_ok ≡ true) × (matches n name ≡ true)

-- One of the calls did.
abbrev pub HasConfirmed : List Call → FixedString → Type 0
HasConfirmed [] n = ⊥
HasConfirmed (c ∷ cs) n = Says c n ⊎ HasConfirmed cs n

-- Each feedback that an asset in use has given has a reason, which is told by its name.
abbrev Explained : (FixedString → Type 0) → List Slot → Type 0
Explained P = All (λ s. is_vacant s.kind ≡ false → s.event_feedback ≡ true → P s.name)

-- What `feedback` writes to the slot of the asset.
abbrev pub answered : ℤ → Bool → Slot → Slot
answered now fb s = record s { update_time = now; event_feedback = fb; event = no_event }

-- On a table, `feedback` meets no null pointer: it answers `false` and changes nothing if the name
-- is not found, and else writes the answer to the slot of this name, an "ok" only in the expected state.
pub feedback-cases :
    (now : ℤ) (name : List ℕ) (is_ok : Bool) (expected : SimState) (m : Master)
    → IsTable 0 m.slots
    → ((find_asset name m.slots ≡ none) × (feedback now name is_ok expected m ≡ some (m, false)))
      ⊎ ((i : ℕ) × (find_asset name m.slots ≡ some i)
          × (feedback now name is_ok expected m
              ≡ some (
                record m {
                  slots =
                      modify i
                        (answered now (if state_eq m.state expected then is_ok else false))
                        m.slots;
                },
                state_eq m.state expected,
              )))
unfolding feedback get_asset
feedback-cases now name is_ok expected m t = elim (Option-cases (find_asset name m.slots)) [
  | inl gone ↦ inl (gone, ground arith)
  | inr (i, at) ↦
      let (s, here, full, same) = find_asset-found name m.slots i at in
      let id : s.id ≡ i = (IsTable-IsSlot 0 i m.slots t here full).0 ∙ omega arith in
      inr (i, at, ground arith)
]

All-map :
    (P Q : FixedString → Type 0) (ss : List Slot)
    → ((n : FixedString) → P n → Q n)
    → Explained P ss
    → Explained Q ss
All-map P Q [] f a = tt
All-map P Q (s ∷ ss) f a = ((λ u v. f s.name (a.0 u v)), All-map P Q ss f a.1)

-- What a run of calls keeps.
record Progress (P : FixedString → Type 0) (m : Master) : Type 0 where
  table : IsTable 0 m.slots
  is_runnable : m.state ≡ runnable
  explained : Explained P m.slots

one_call :
    (P : FixedString → Type 0) (now : ℤ) (name : List ℕ) (is_ok : Bool) (m : Master)
    → Progress P m
    → (n : Master) × (b : Bool) × (start_feedback now name is_ok m ≡ some (n, b))
      × Progress (λ f. P f ⊎ Says (now, name, is_ok) f) n
unfolding start_feedback
one_call P now name is_ok m p = elim (feedback-cases now name is_ok runnable m p.table) [
  | inl (gone, e) ↦ (
    m,
    false,
    e,
    record {
      table = p.table;
      is_runnable = p.is_runnable;
      explained = All-map P _ m.slots (λ f x. inl x) p.explained;
    },
  )
  | inr (i, at, e) ↦
      let fb : Bool = if state_eq m.state runnable then is_ok else false in
      (
        record m { slots = modify i (answered now fb) m.slots },
        state_eq m.state runnable,
        e,
        record {
          table = modify-IsTable (answered now fb) (λ s. (refl, refl, refl)) 0 i m.slots p.table;
          is_runnable = p.is_runnable;
          explained =
              All-modify
                (λ s.
                  is_vacant s.kind ≡ false
                  → s.event_feedback ≡ true
                  → P s.name ⊎ Says (now, name, is_ok) s.name)
                (answered now fb) i m.slots
                (All-map P (λ f. P f ⊎ Says (now, name, is_ok) f) m.slots (λ f x. inl x)
                  p.explained)
                (λ s here u yes_. inr (said_by i s at here yes_));
        },
      )
]
  where
    said_by :
        (i : ℕ) (s : Slot)
        → find_asset name m.slots ≡ some i
        → get_elem? m.slots i ≡ some s
        → (if state_eq m.state runnable then is_ok else false) ≡ true
        → Says (now, name, is_ok) s.name
    said_by i s at here good =
        let (t, there, full, same) = find_asset-found name m.slots i at in
        let is_t : t ≡ s = cc in (ground arith, rw is_t at same)

after_calls-Progress :
    (P : FixedString → Type 0) (cs : List Call) (m : Master)
    → Progress P m
    → Progress (λ f. P f ⊎ HasConfirmed cs f) (after_calls cs m)
unfolding after_calls
after_calls-Progress P [] m p = record {
  table = p.table;
  is_runnable = p.is_runnable;
  explained = All-map P _ m.slots (λ f x. inl x) p.explained;
}
after_calls-Progress P ((now, name, is_ok) ∷ cs) m p =
    let (n, b, e, q) = one_call P now name is_ok m p in
    let r = after_calls-Progress (λ f. P f ⊎ Says (now, name, is_ok) f) cs n q in
    rw (e, after_calls)
      (record {
        table = r.table;
        is_runnable = r.is_runnable;
        explained =
            All-map (λ f. (P f ⊎ Says (now, name, is_ok) f) ⊎ HasConfirmed cs f)
              (λ f. P f ⊎ HasConfirmed ((now, name, is_ok) ∷ cs) f) (after_calls cs n).slots
              (λ f x. regroup f x) r.explained;
      })
  where
    regroup :
        (f : FixedString)
        → (P f ⊎ Says (now, name, is_ok) f) ⊎ HasConfirmed cs f
        → P f ⊎ HasConfirmed ((now, name, is_ok) ∷ cs) f
    regroup f (inl (inl x)) = inl x
    regroup f (inl (inr x)) = inr (inl x)
    regroup f (inr x) = inr (inr x)

-- The table after `start`: no asset in use has given its feedback yet.
told_start-Explained : (ss : List Slot) → Explained (λ n. ⊥) (tell_all start_event (map unfed ss))
told_start-Explained [] = tt
told_start-Explained (s ∷ ss) = ((λ u v. ground arith), told_start-Explained ss)

-- What `start` does in the state "stopped" to assets that poll for events.
pub start-told :
    (h : Host) (b : Bus)
    → b.master.state ≡ stopped
    → All (IsQuiet start_event) b.master.slots
    → start h b ≡ (
      record b {
        master = record b.master {
          state = runnable;
          slots = tell_all start_event (map unfed b.master.slots);
        };
      },
      true,
    )
unfolding start
start-told h b e q = trigger_event-told h stopped runnable start_event b e q

confirmed :
    (calls : List Call) (ss : List Slot)
    → Explained (λ n. ⊥ ⊎ HasConfirmed calls n) ss
    → AllFed ss
    → All (λ s. (is_vacant s.kind ≡ true) ⊎ HasConfirmed calls s.name) ss
confirmed calls [] x f = tt
confirmed calls (s ∷ ss) x f = (
  elim (Bool-cases (is_vacant s.kind)) [
    | inl free ↦ inl free
    | inr u ↦ inr (without_false (x.0 u (f.0 u)))
  ],
  confirmed calls ss x.1 f.1,
)
  where
    without_false : ⊥ ⊎ HasConfirmed calls s.name → HasConfirmed calls s.name
    without_false (inl y) = absurd y
    without_false (inr y) = y

-- After `start`, with assets that poll for events, and whatever calls of `start_feedback` follow, the
-- event handling makes the simulation run only if every slot of the table is vacant or has been
-- confirmed by a call that gave its name and said "ok".
pub start_barrier :
    (h : Host) (now timeout : ℤ) (b : Bus) (calls : List Call)
    → IsTable 0 b.master.slots
    → b.master.state ≡ stopped
    → All (IsQuiet start_event) b.master.slots
    → (handle_nolock now timeout (after_calls calls (start h b).0.master)).0.state ≡ running
    → All
        (λ s. (is_vacant s.kind ≡ true) ⊎ HasConfirmed calls s.name)
        (after_calls calls (start h b).0.master).slots
start_barrier h now timeout b calls t e q runs =
    let p : Progress (λ n. ⊥) (start h b).0.master = rw (start-told h b e q) (record {
      table =
          map-IsTable (tell start_event) (tell-KeepsIdentity start_event) 0
            (map unfed b.master.slots) (map-IsTable unfed unfed-KeepsIdentity 0 b.master.slots t);
      is_runnable = refl;
      explained = told_start-Explained b.master.slots;
    }) in
    let r = after_calls-Progress (λ n. ⊥) calls (start h b).0.master p in
    let m = after_calls calls (start h b).0.master in
    confirmed calls m.slots r.explained
      ((handle_iff now timeout m running (rw r.is_runnable refl)).0 runs)
