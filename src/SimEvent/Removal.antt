-- ===== src/SimEvent/Removal.antt =====
-- Removing the assets that are late (the loops of `do_event_handling_timeout_nolock` and
-- `do_event_handling` of hako_simevent_impl.cpp).
use hakoniwa_core_cpp.Prelude.{
  ℕ, zero, suc, ℤ, pos, leb_ℤ, Bool, true, false, not, ◌&&◌, if◌then◌else◌, List, [], ◌∷◌, ◌++◌,
  length, map, get_elem?, none, some, ◌≡◌, refl, ap, sym, ◌∙◌, arith, inl, inr, length-append,
  Bool-cases,
}
use mathlib.Core.List.{append_assoc}
use hakoniwa_core_cpp.FixedString.{fixed_to_string, matches}
use hakoniwa_core_cpp.FixedString.Laws.{HasNoZero, matches_iff}
use hakoniwa_core_cpp.Master.Types.{error, error_event, is_vacant, Slot, Master, modify}
use hakoniwa_core_cpp.Master.Assets.{
  get_asset, find_asset, is_asset_timeout, clock_is_timeout, default_timeout, free_asset, vacate,
  drop_u32,
}
use hakoniwa_core_cpp.Master.Table.{IsTable, IsTable-IsSlot}
use hakoniwa_core_cpp.Master.Table.Vacate.{modify-vacate-IsTable}
use hakoniwa_core_cpp.SimEvent.Broadcast.{told, tell, tell_all, get_elem?-length, modify-length}
use hakoniwa_core_cpp.SimEvent.Handling.{timed_out, unregister_all}

name-HasNoZero :
    (k i : ℕ) (ss : List Slot) (s : Slot)
    → IsTable k ss
    → get_elem? ss i ≡ some s
    → is_vacant s.kind ≡ false
    → HasNoZero (fixed_to_string s.name)
name-HasNoZero k i ss s t e u = (IsTable-IsSlot k i ss t e u).1

-- In a table, the name of a slot in use is found at this slot.
pub find-own :
    (k i : ℕ) (ss : List Slot) (s : Slot)
    → IsTable k ss
    → get_elem? ss i ≡ some s
    → is_vacant s.kind ≡ false
    → find_asset (fixed_to_string s.name) ss ≡ some i
unfolding find_asset
find-own k i [] s t e u = cc
find-own k zero (x ∷ ss) s t e u =
    let is_s : x ≡ s = cc in
    let own = t.0 (ap (λ y. is_vacant y.kind) is_s ∙ u) in
    let hit : matches x.name (fixed_to_string x.name) ≡ true =
      (matches_iff x.name (fixed_to_string x.name) own.2 own.1).1 refl in
    rw (← is_s) (ground (arith, ap (λ y. is_vacant y.kind) is_s ∙ u))
find-own k (suc i) (x ∷ ss) s t e u =
    let rest = find-own (suc k) i ss s t.2 e u in
    elim (Bool-cases (not (is_vacant x.kind) && matches x.name (fixed_to_string s.name))) [
      | inr miss ↦ ground arith
      | inl hit ↦
          let full : is_vacant x.kind ≡ false = ground arith in
          let same : fixed_to_string x.name ≡ fixed_to_string s.name =
            (matches_iff x.name (fixed_to_string s.name) (t.0 full).2
                (name-HasNoZero (suc k) i ss s t.2 e u)).0
              (ground arith) in
          let absent : find_asset (fixed_to_string s.name) ss ≡ none = rw same at (t.1 full) in
          cc (rest, absent)
    ]

-- Whether an asset is late, and what becomes of its slot.
abbrev pub is_late : ℤ → ℤ → Slot → Bool
is_late now timeout s =
    clock_is_timeout now s.update_time (if leb_ℤ timeout (pos 0) then default_timeout else timeout)

abbrev pub outcome : ℤ → ℤ → Slot → Slot
outcome now timeout s =
    if is_vacant s.kind
    then s
    else if is_late now timeout s
    then vacate (told error_event s)
    else told error_event s

get_asset-here :
    (pre : List Slot) (s : Slot) (ss : List Slot)
    → get_asset (length pre) (pre ++ s ∷ ss) ≡ (if is_vacant s.kind then none else some s)
unfolding get_asset
get_asset-here pre s ss = ground (arith, get_elem?-length pre s ss)

-- The ids that are late, from the slot behind `pre` on.
timed_out-here :
    (now timeout : ℤ) (n : ℕ) (pre : List Slot) (s : Slot) (ss : List Slot)
    → timed_out now timeout (suc n) (length pre) (pre ++ s ∷ ss) ≡ (
        if is_vacant s.kind
        then timed_out now timeout n (suc (length pre)) (pre ++ s ∷ ss)
        else if is_late now timeout s
        then length pre ∷ timed_out now timeout n (suc (length pre)) (pre ++ s ∷ ss)
        else timed_out now timeout n (suc (length pre)) (pre ++ s ∷ ss))
unfolding timed_out is_asset_timeout
timed_out-here now timeout n pre s ss =
    ground (arith, get_asset-here pre s ss, get_elem?-length pre s ss)

-- Removing the asset behind `pre`.
remove_here :
    (id : ℕ) (ids : List ℕ) (pre : List Slot) (s : Slot) (ss : List Slot) (m : Master)
    → id ≡ length pre
    → m.slots ≡ pre ++ s ∷ ss
    → IsTable 0 m.slots
    → m.state ≡ error
    → is_vacant s.kind ≡ false
    → (m' : Master) × (unregister_all (id ∷ ids) m ≡ unregister_all ids m')
      × (m'.slots ≡ pre ++ vacate s ∷ ss)
      × (m'.state ≡ error)
      × IsTable 0 m'.slots
unfolding unregister_all free_asset get_asset
remove_here id ids pre s ss m place is_m t bad u =
    let here : get_elem? m.slots id ≡ some s =
      ap (λ xs. get_elem? xs id) is_m
      ∙ ap (get_elem? (pre ++ s ∷ ss)) place
      ∙ get_elem?-length pre s ss in
    let found = find-own 0 id m.slots s t here u in
    let gone : modify id vacate m.slots ≡ pre ++ vacate s ∷ ss =
      ap (λ i. modify i vacate m.slots) place
      ∙ ap (modify (length pre) vacate) is_m
      ∙ modify-length vacate pre s ss in
    (
      record m { slots = modify id vacate m.slots; asset_num = drop_u32 m.asset_num },
      ground (arith, here, found),
      gone,
      bad,
      modify-vacate-IsTable 0 id m.slots t,
    )

-- The table and the state after the assets that are late, from the slot behind `pre` on, are removed.
abbrev pub Removed : ℤ → ℤ → ℕ → List Slot → List Slot → List Slot → Master → Type 0
Removed now timeout n opre pre ss m =
    (m' : Master) × (unregister_all (timed_out now timeout n (length opre) (opre ++ ss)) m
      ≡ some m')
    × (m'.slots ≡ pre ++ map (outcome now timeout) ss)
    × (m'.state ≡ error)

-- From the state `m1`, in which the first slot `s` has become `x`, on.
Removed-next :
    (now timeout : ℤ) (n : ℕ) (opre pre : List Slot) (s x : Slot) (ss : List Slot) (m m1 : Master)
    → unregister_all (timed_out now timeout (suc n) (length opre) (opre ++ s ∷ ss)) m
      ≡ unregister_all (timed_out now timeout n (suc (length opre)) (opre ++ s ∷ ss)) m1
    → outcome now timeout s ≡ x
    → Removed now timeout n (opre ++ s ∷ []) (pre ++ x ∷ []) ss m1
    → Removed now timeout (suc n) opre pre (s ∷ ss) m
Removed-next now timeout n opre pre s x ss m m1 step is_x (m', did, slots, bad) =
    let next : suc (length opre) ≡ length (opre ++ s ∷ []) =
      omega (arith, length-append opre (s ∷ [])) in
    let same = append_assoc opre (s ∷ []) ss in
    (
      m',
      step
          ∙ ap (λ i. unregister_all (timed_out now timeout n i (opre ++ s ∷ ss)) m1) next
          ∙ ap (λ xs. unregister_all (timed_out now timeout n (length (opre ++ s ∷ [])) xs) m1)
              (sym same)
          ∙ did,
      slots
          ∙ append_assoc pre (x ∷ []) (map (outcome now timeout) ss)
          ∙ ap (λ y. pre ++ y ∷ map (outcome now timeout) ss) (sym is_x),
      bad,
    )

pub unregister_all-told :
    (now timeout : ℤ) (n : ℕ) (opre pre ss : List Slot) (m : Master)
    → length ss ≡ n
    → length pre ≡ length opre
    → m.slots ≡ pre ++ tell_all error_event ss
    → IsTable 0 m.slots
    → m.state ≡ error
    → Removed now timeout n opre pre ss m
unregister_all-told now timeout zero opre pre [] m l lp is_m t bad =
    (m, unfold timed_out unregister_all in refl, is_m, bad)
unregister_all-told now timeout zero opre pre (s ∷ ss) m l lp is_m t bad = absurd (omega arith)
unregister_all-told now timeout (suc n) opre pre [] m l lp is_m t bad = absurd (omega arith)
unregister_all-told now timeout (suc n) opre pre (s ∷ ss) m l lp is_m t bad =
    let further = λ (x : Slot).
      unregister_all-told now timeout n (opre ++ s ∷ []) (pre ++ x ∷ []) ss m (omega arith)
        (longer x) in
    elim (Bool-cases (is_vacant s.kind)) [
      | inl free ↦
          stays (further (tell error_event s))
            (timed_out-here now timeout n opre s ss ∙ ground arith) (ground arith)
      | inr full ↦ elim (Bool-cases (is_late now timeout s)) [
        | inr early ↦
            stays (further (tell error_event s))
              (timed_out-here now timeout n opre s ss ∙ ground arith) (ground arith)
        | inl late ↦
            let rest = timed_out now timeout n (suc (length opre)) (opre ++ s ∷ ss) in
            let first_late : timed_out now timeout (suc n) (length opre) (opre ++ s ∷ ss)
                ≡ length opre ∷ rest =
              timed_out-here now timeout n opre s ss ∙ ground arith in
            let now_there : m.slots ≡ pre ++ told error_event s ∷ tell_all error_event ss =
              is_m ∙ ap (λ y. pre ++ y ∷ tell_all error_event ss) (ground arith) in
            let (m1, same, slots, bad1, t1) =
              remove_here (length opre) rest pre (told error_event s) (tell_all error_event ss) m
                (sym lp) now_there t bad full in
            Removed-next now timeout n opre pre s (vacate (told error_event s)) ss m m1
              (ap (λ ids. unregister_all ids m) first_late ∙ same) (ground arith)
              (unregister_all-told now timeout n (opre ++ s ∷ [])
                (pre ++ vacate (told error_event s) ∷ []) ss m1 (omega arith)
                (longer (vacate (told error_event s)))
                (slots
                  ∙ sym (
                      append_assoc pre (vacate (told error_event s) ∷ [])
                        (tell_all error_event ss)))
                t1 bad1)
      ]
    ]
  where
    longer : (x : Slot) → length (pre ++ x ∷ []) ≡ length (opre ++ s ∷ [])
    longer x = omega (arith, length-append pre (x ∷ []), length-append opre (s ∷ []))

    stays :
        (m.slots ≡ (pre ++ tell error_event s ∷ []) ++ tell_all error_event ss
          → IsTable 0 m.slots
          → m.state ≡ error
          → Removed now timeout n (opre ++ s ∷ []) (pre ++ tell error_event s ∷ []) ss m)
        → timed_out now timeout (suc n) (length opre) (opre ++ s ∷ ss)
          ≡ timed_out now timeout n (suc (length opre)) (opre ++ s ∷ ss)
        → outcome now timeout s ≡ tell error_event s
        → Removed now timeout (suc n) opre pre (s ∷ ss) m
    stays further none_here is_x =
        Removed-next now timeout n opre pre s (tell error_event s) ss m m
          (ap (λ ids. unregister_all ids m) none_here) is_x
          (further
            (is_m ∙ sym (append_assoc pre (tell error_event s ∷ []) (tell_all error_event ss))) t
            bad)
