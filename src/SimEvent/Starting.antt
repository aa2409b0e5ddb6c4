-- ===== src/SimEvent/Starting.antt =====
-- The way from the start of a simulation to its run (hako_simevent_impl.cpp): the confirmations of the
-- assets are enough.
use hakoniwa_core_cpp.Prelude.{
  ℕ, zero, suc, ℤ, Bool, true, false, if◌then◌else◌, List, [], ◌∷◌, map, get_elem?, Option, some,
  ◌≡◌, ◌≢◌, refl, sym, ap, ◌∙◌, arith, ◌⊎◌, inl, inr, All,
}
use hakoniwa_core_cpp.FixedString.{FixedString, fixed_to_string, matches}
use hakoniwa_core_cpp.FixedString.Laws.{HasNoZero, matches_iff}
use hakoniwa_core_cpp.Master.Types.{
  stopped, runnable, running, state_eq, start_event, is_vacant, Slot, Master, modify,
}
use hakoniwa_core_cpp.Master.Assets.{find_asset}
use hakoniwa_core_cpp.Master.Table.{IsTable, IsTable-IsSlot}
use hakoniwa_core_cpp.Master.Table.Update.{modify-IsTable, map-IsTable}
use hakoniwa_core_cpp.SimEvent.Publish.{Host, Bus, start}
use hakoniwa_core_cpp.SimEvent.Broadcast.{
  IsQuiet, tell, unfed, unfed-KeepsIdentity, tell-KeepsIdentity,
}
use hakoniwa_core_cpp.SimEvent.Handling.{handle_nolock, start_feedback}
use hakoniwa_core_cpp.SimEvent.Removal.{find-own}
use hakoniwa_core_cpp.SimEvent.Barrier.{
  AllFed, handle_iff, Call, after_calls, Says, HasConfirmed, answered, feedback-cases, start-told,
}

-- The call says "ok", in a name with no zero byte.
abbrev pub IsGoodCall : Call → Type 0
IsGoodCall (now, name, is_ok) = (is_ok ≡ true) × HasNoZero name

-- An element of a list that has been changed at one place.
get_elem?-modify {ℓ} :
    {A : Type ℓ} (i j : ℕ) (f : A → A) (xs : List A) (y : A)
    → get_elem? (modify i f xs) j ≡ some y
    → ((j ≡ i) × (x : A) × (get_elem? xs j ≡ some x) × (y ≡ f x))
      ⊎ ((j ≢ i) × (get_elem? xs j ≡ some y))
get_elem?-modify i j f [] y e = cc
get_elem?-modify zero zero f (x ∷ xs) y e = inl (refl, x, refl, cc)
get_elem?-modify zero (suc j) f (x ∷ xs) y e = inr ((λ h. omega (arith, h)), e)
get_elem?-modify (suc i) zero f (x ∷ xs) y e = inr ((λ h. omega (arith, h)), e)
get_elem?-modify (suc i) (suc j) f (x ∷ xs) y e = elim (get_elem?-modify i j f xs y e) [
  | inl (same, z, at, is) ↦ inl (ap suc same, z, at, is)
  | inr (other, at) ↦ inr ((λ h. other (omega (arith, h))), at)
]

-- The slot in use whose name matches is the one that is found.
find-match :
    (name : List ℕ) (i : ℕ) (ss : List Slot) (s : Slot)
    → HasNoZero name
    → IsTable 0 ss
    → get_elem? ss i ≡ some s
    → is_vacant s.kind ≡ false
    → matches s.name name ≡ true
    → find_asset name ss ≡ some i
find-match name i ss s nz t e u same =
    let slot = IsTable-IsSlot 0 i ss t e u in
    let is_name : fixed_to_string s.name ≡ name = (matches_iff s.name name slot.2 nz).0 same in
    ap (λ n. find_asset n ss) (sym is_name) ∙ find-own 0 i ss s t e u

-- The assets in use that are told by their names have given their feedback.
abbrev Done : (FixedString → Type 0) → List Slot → Type 0
Done P ss =
    (j : ℕ) (s : Slot)
    → get_elem? ss j ≡ some s
    → is_vacant s.kind ≡ false
    → P s.name
    → s.event_feedback ≡ true

answered-Done :
    (P : FixedString → Type 0) (now : ℤ) (name : List ℕ) (g : Bool) (i : ℕ) (ss : List Slot)
    → HasNoZero name
    → IsTable 0 ss
    → find_asset name ss ≡ some i
    → g ≡ true
    → Done P ss
    → Done (λ f. P f ⊎ Says (now, name, true) f) (modify i (answered now g) ss)
answered-Done P now name g i ss nz t at good d j s here u h =
    elim (get_elem?-modify i j (answered now g) ss s here) [
      | inl (same, x, was, is) ↦ ap (λ y. y.event_feedback) is ∙ good
      | inr (other, was) ↦ elim h [
        | inl before ↦ d j s was u before
        | inr says ↦
            let found = find-match name j ss s nz t was u says.1 in
            absurd (other (same_index i j (sym at ∙ found)))
      ]
    ]
  where
    same_index : (i j : ℕ) → Path (Option ℕ) (some i) (some j) → j ≡ i
    same_index i j e = cc

-- What a run of good calls keeps.
record Advance (P : FixedString → Type 0) (m : Master) : Type 0 where
  table : IsTable 0 m.slots
  is_runnable : m.state ≡ runnable
  is_done : Done P m.slots

one_call :
    (P : FixedString → Type 0) (now : ℤ) (name : List ℕ) (m : Master)
    → HasNoZero name
    → Advance P m
    → (n : Master) × (b : Bool) × (start_feedback now name true m ≡ some (n, b))
      × Advance (λ f. P f ⊎ Says (now, name, true) f) n
unfolding start_feedback
one_call P now name m nz p = elim (feedback-cases now name true runnable m p.table) [
  | inl (gone, e) ↦ (
    m,
    false,
    e,
    record {
      table = p.table;
      is_runnable = p.is_runnable;
      is_done = λ j s at u h. elim h [
        | inl before ↦ p.is_done j s at u before
        | inr says ↦
            let found = find-match name j m.slots s nz p.table at u says.1 in cc (gone, found)
      ];
    },
  )
  | inr (i, at, e) ↦ (
    record m {
      slots = modify i (answered now (if state_eq m.state runnable then true else false)) m.slots;
    },
    state_eq m.state runnable,
    e,
    record {
      table = modify-IsTable (answered now _) (λ s. (refl, refl, refl)) 0 i m.slots p.table;
      is_runnable = p.is_runnable;
      is_done =
          answered-Done P now name _ i m.slots nz p.table at (rw p.is_runnable refl) p.is_done;
    },
  )
]

after_calls-Advance :
    (P : FixedString → Type 0) (cs : List Call) (m : Master)
    → All IsGoodCall cs
    → Advance P m
    → Advance (λ f. P f ⊎ HasConfirmed cs f) (after_calls cs m)
unfolding after_calls
after_calls-Advance P [] m good p = record {
  table = p.table;
  is_runnable = p.is_runnable;
  is_done = λ j s at u h. elim h [ inl x ↦ p.is_done j s at u x | inr x ↦ absurd x ];
}
after_calls-Advance P ((now, name, false) ∷ cs) m good p = absurd (false-ne-true good.0.0)
  where
    false-ne-true : false ≢ true
    false-ne-true h = ground arith
after_calls-Advance P ((now, name, true) ∷ cs) m good p =
    let (n, b, e, q) = one_call P now name m good.0.1 p in
    let r = after_calls-Advance (λ f. P f ⊎ Says (now, name, true) f) cs n good.1 q in
    rw (e, after_calls)
      (record {
        table = r.table;
        is_runnable = r.is_runnable;
        is_done = λ j s at u h. r.is_done j s at u (regroup s.name h);
      })
  where
    regroup :
        (f : FixedString)
        → P f ⊎ HasConfirmed ((now, name, true) ∷ cs) f
        → (P f ⊎ Says (now, name, true) f) ⊎ HasConfirmed cs f
    regroup f (inl x) = inl (inl x)
    regroup f (inr (inl x)) = inl (inr x)
    regroup f (inr (inr x)) = inr x

Done-AllFed :
    (P : FixedString → Type 0) (ss : List Slot)
    → Done P ss
    → All (λ s. (is_vacant s.kind ≡ true) ⊎ P s.name) ss
    → AllFed ss
Done-AllFed P [] d a = tt
Done-AllFed P (s ∷ ss) d a = (
  (λ u. elim a.0 [ inl free ↦ ground arith | inr x ↦ d 0 s refl u x ]),
  Done-AllFed P ss (λ j. d (suc j)) a.1,
)

-- Where the simulation is stopped and the assets poll for events: after start and any calls of
-- start_feedback that say ok, in names with no zero byte, of which each asset in the table has made
-- one, the simulation is runnable, and its event handling makes it run.
pub handle-running :
    (h : Host) (now timeout : ℤ) (b : Bus) (calls : List Call)
    → IsTable 0 b.master.slots
    → b.master.state ≡ stopped
    → All (IsQuiet start_event) b.master.slots
    → All IsGoodCall calls
    → All
        (λ s. (is_vacant s.kind ≡ true) ⊎ HasConfirmed calls s.name)
        (after_calls calls (start h b).0.master).slots
    → ((after_calls calls (start h b).0.master).state ≡ runnable)
      × ((handle_nolock now timeout (after_calls calls (start h b).0.master)).0.state ≡ running)
handle-running h now timeout b calls t e q good all =
    let p : Advance (λ n. ⊥) (start h b).0.master = rw (start-told h b e q) (record {
      table =
          map-IsTable (tell start_event) (tell-KeepsIdentity start_event) 0
            (map unfed b.master.slots) (map-IsTable unfed unfed-KeepsIdentity 0 b.master.slots t);
      is_runnable = refl;
      is_done = λ j s at u x. absurd x;
    }) in
    let m = after_calls calls (start h b).0.master in
    let r = after_calls-Advance (λ n. ⊥) calls (start h b).0.master good p in
    let fed =
      Done-AllFed (HasConfirmed calls) m.slots (λ j s at u x. r.is_done j s at u (inr x)) all in
    (r.is_runnable, (handle_iff now timeout m running (rw r.is_runnable refl)).1 fed)
