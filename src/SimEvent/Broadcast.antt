-- ===== src/SimEvent/Broadcast.antt =====
-- What `publish_event_nolock` of hako_simevent_impl.cpp does to the table as a whole, where no client's
-- function is called: for errors, and for assets that poll for events.
use hakoniwa_core_cpp.Prelude.{
  ℕ, zero, suc, true, false, if◌then◌else◌, List, [], ◌∷◌, ◌++◌, length, map, get_elem?, some, ◌≡◌,
  refl, ap, sym, ◌∙◌, arith, ◌⊎◌, All, length-append,
}
use mathlib.Core.List.{append_assoc}
use hakoniwa_core_cpp.Master.Types.{
  SimState, state_eq, AssetEvent, no_event, start_event, stop_event, reset_event, error_event,
  is_error_event, is_vacant, Slot, Master, modify,
}
use hakoniwa_core_cpp.Master.Assets.{get_asset}
use hakoniwa_core_cpp.Master.Table.Update.{KeepsIdentity}
use hakoniwa_core_cpp.SimEvent.Publish.{
  Host, Bus, clear_feedback, change_state, trigger_event, set_event, notify, publish_one,
  publish_from, publish_event,
}

-- The slot after it has been told of an event.
abbrev pub told : AssetEvent → Slot → Slot
told start_event s = set_event start_event false s
told stop_event s = set_event stop_event false s
told reset_event s =
    if is_error_event s.event
    then record s { event_feedback = true }
    else set_event reset_event false s
told error_event s = set_event error_event true s
told no_event s = s

abbrev pub tell : AssetEvent → Slot → Slot
tell e s = if is_vacant s.kind then s else told e s

abbrev pub tell_all : AssetEvent → List Slot → List Slot
tell_all e = map (tell e)

pub tell-KeepsIdentity : (e : AssetEvent) → KeepsIdentity (tell e)
tell-KeepsIdentity start_event s = ground arith
tell-KeepsIdentity stop_event s = ground arith
tell-KeepsIdentity reset_event s = ground arith
tell-KeepsIdentity error_event s = ground arith
tell-KeepsIdentity no_event s = ground arith

-- The first loop of `trigger_event`, as a map.
abbrev pub unfed : Slot → Slot
unfed s = if is_vacant s.kind then s else record s { event_feedback = false }

pub clear_feedback-map : (ss : List Slot) → clear_feedback ss ≡ map unfed ss
unfolding clear_feedback
clear_feedback-map [] = refl
clear_feedback-map (s ∷ ss) = ap (◌∷◌ (unfed s)) (clear_feedback-map ss)

pub unfed-KeepsIdentity : KeepsIdentity unfed
unfed-KeepsIdentity s = ground arith

-- No client's function is called: the event is an error, or the asset has no callbacks.
abbrev pub IsQuiet : AssetEvent → Slot → Type 0
IsQuiet e s = (is_error_event e ≡ true) ⊎ (s.callbacks.start ≡ 0)

pub get_elem?-length {ℓ} :
    {A : Type ℓ} (pre : List A) (x : A) (xs : List A)
    → get_elem? (pre ++ x ∷ xs) (length pre) ≡ some x
get_elem?-length [] x xs = refl
get_elem?-length (y ∷ pre) x xs = get_elem?-length pre x xs

pub modify-length {ℓ} :
    {A : Type ℓ} (f : A → A) (pre : List A) (x : A) (xs : List A)
    → modify (length pre) f (pre ++ x ∷ xs) ≡ pre ++ f x ∷ xs
modify-length f [] x xs = refl
modify-length f (y ∷ pre) x xs = ap (◌∷◌ y) (modify-length f pre x xs)

abbrev pub with_slots : Bus → List Slot → Bus
with_slots b ss = record b { master = record b.master { slots = ss } }

publish_one-told :
    (h : Host) (e : AssetEvent) (b : Bus) (pre : List Slot) (s : Slot) (ss : List Slot)
    → IsQuiet e s
    → b.master.slots ≡ pre ++ s ∷ ss
    → publish_one h e (length pre) b
      ≡ with_slots b (pre ++ (if is_vacant s.kind then s else told e s) ∷ ss)
unfolding publish_one notify get_asset
publish_one-told h start_event b pre s ss q eq =
    ground (arith, get_elem?-length pre s ss, modify-length (set_event start_event false) pre s ss)
publish_one-told h stop_event b pre s ss q eq =
    ground (arith, get_elem?-length pre s ss, modify-length (set_event stop_event false) pre s ss)
publish_one-told h reset_event b pre s ss q eq = ground (
  arith,
  get_elem?-length pre s ss,
  modify-length (set_event reset_event false) pre s ss,
  modify-length (λ (t : Slot). record t { event_feedback = true }) pre s ss,
)
publish_one-told h error_event b pre s ss q eq =
    ground (arith, get_elem?-length pre s ss, modify-length (set_event error_event true) pre s ss)
publish_one-told h no_event b pre s ss q eq = ground (arith, get_elem?-length pre s ss)

publish_from-told :
    (h : Host) (e : AssetEvent) (n : ℕ) (b : Bus) (pre ss : List Slot)
    → length ss ≡ n
    → All (IsQuiet e) ss
    → b.master.slots ≡ pre ++ ss
    → publish_from h e n (length pre) b ≡ with_slots b (pre ++ tell_all e ss)
unfolding publish_from
publish_from-told h e zero b pre [] l q eq = ground arith
publish_from-told h e zero b pre (s ∷ ss) l q eq = absurd (omega arith)
publish_from-told h e (suc n) b pre [] l q eq = absurd (omega arith)
publish_from-told h e (suc n) b pre (s ∷ ss) l q eq =
    let s' : Slot = if is_vacant s.kind then s else told e s in
    let here = publish_one-told h e b pre s ss q.0 eq in
    let next : suc (length pre) ≡ length (pre ++ s' ∷ []) =
      omega (arith, length-append pre (s' ∷ [])) in
    let rest =
      publish_from-told h e n (with_slots b (pre ++ s' ∷ ss)) (pre ++ s' ∷ []) ss (omega arith) q.1
        (sym (append_assoc pre (s' ∷ []) ss)) in
    ap (publish_from h e n (suc (length pre))) here
    ∙ ap (λ i. publish_from h e n i (with_slots b (pre ++ s' ∷ ss))) next
    ∙ rest
    ∙ ap (with_slots b) (append_assoc pre (s' ∷ []) (tell_all e ss))

-- Where no client's function is called, publishing an event tells every asset in use of it, and
-- changes nothing else.
pub publish_event-told :
    (h : Host) (e : AssetEvent) (b : Bus)
    → All (IsQuiet e) b.master.slots
    → publish_event h e b ≡ with_slots b (tell_all e b.master.slots)
unfolding publish_event
publish_event-told h e b q =
    publish_from-told h e (length b.master.slots) b [] b.master.slots refl q refl

state_eq_refl : (a : SimState) → state_eq a a ≡ true
state_eq_refl a = ground arith

change_state-same :
    (curr next : SimState) (m : Master)
    → m.state ≡ curr
    → change_state curr next m ≡ (record m { state = next; slots = map unfed m.slots }, true)
unfolding change_state
change_state-same curr next m e =
    let hit : state_eq m.state curr ≡ true = rw e (state_eq_refl curr) in
    ground (arith, clear_feedback-map m.slots)

IsQuiet-unfed :
    (e : AssetEvent) (ss : List Slot) → All (IsQuiet e) ss → All (IsQuiet e) (map unfed ss)
IsQuiet-unfed e [] q = tt
IsQuiet-unfed e (s ∷ ss) q = (ground arith, IsQuiet-unfed e ss q.1)

-- An event that is triggered in its state changes the state, clears the feedback of every asset in use,
-- and tells each of the event, if no client's function is called.
pub trigger_event-told :
    (h : Host) (curr next : SimState) (event : AssetEvent) (b : Bus)
    → b.master.state ≡ curr
    → All (IsQuiet event) b.master.slots
    → trigger_event h curr next event b ≡ (
      record b {
        master = record b.master {
          state = next;
          slots = tell_all event (map unfed b.master.slots);
        };
      },
      true,
    )
unfolding trigger_event
trigger_event-told h curr next event b e q =
    rw (change_state-same curr next b.master e)
      (ap (λ c. (c, true)) (publish_event-told h event _ (IsQuiet-unfed event b.master.slots q)))
