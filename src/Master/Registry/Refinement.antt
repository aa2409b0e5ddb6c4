-- ===== src/Master/Registry/Refinement.antt =====
-- The calls on the table of assets answer as a set of names does (hako_master_data.hpp).
use hakoniwa_core_cpp.Prelude.{
  ℕ, zero, suc, ◌<◌, ◌^◌, ℤ, Bool, true, false, List, [], ◌∷◌, Option, none, some, replicate, All,
  ◌≡◌, refl, subst, sym, ap, ◌∙◌, arith, length-replicate, Bool-cases, Option-cases, inl, inr,
}
use hakoniwa_core_cpp.FixedString.Laws.{HasNoZero}
use hakoniwa_core_cpp.Master.Types.{stopped, AssetType, Callbacks, Master, zero_slot}
use hakoniwa_core_cpp.Master.Assets.{init, find_asset, alloc_asset, free_asset}
use hakoniwa_core_cpp.Master.WellFormed.{init-IsWf, alloc_iff, alloc-none, free-true, free-false}
use hakoniwa_core_cpp.Master.Registry.{
  is_some, Call, registers, unregisters, looks_up, Answer, perform, perform_all, Registry, promise,
  promise_all, empty_registry, IsPlainCall,
}
use hakoniwa_core_cpp.Master.Registry.Representation.{
  Represents, takes, takes-MayAlloc, MayAlloc-takes, registered, unregistered,
}

-- A call answers as promised, and keeps the promise.
abbrev Keeps : ℕ → Registry × Bool → Master × Bool → Type 0
Keeps room p q = (p.1 ≡ q.1) × Represents room p.0 q.0

none-ne-some : (i : ℕ) → Path (Option ℕ) none (some i) → ⊥
none-ne-some i h = cc

registers-Keeps :
    (now pid : ℤ) (name : List ℕ) (kind : AssetType) (callbacks : Option Callbacks) (room : ℕ)
    (r : Registry) (m : Master)
    → HasNoZero name
    → Represents room r m
    → Keeps room
        (promise room (registers now pid name kind callbacks) r)
        (perform (registers now pid name kind callbacks) m)
unfolding perform
registers-Keeps now pid name kind callbacks room r m nz v =
    go (alloc_asset now pid name kind callbacks m) refl
  where
    go :
        (x : Master × Option ℕ)
        → alloc_asset now pid name kind callbacks m ≡ x
        → Keeps room (promise room (registers now pid name kind callbacks) r) (x.0, is_some x.1)
    go (n, some i) e =
        let may = (alloc_iff now pid name kind callbacks m v.wf).0 (n, i, e) in
        let yes_ = MayAlloc-takes now pid name kind callbacks room r m nz v may in
        rw yes_ (refl, registered now pid name kind callbacks room r m n i nz v e)
    go (n, none) e = elim (Bool-cases (takes now pid name kind callbacks room r m)) [
      | inl yes_ ↦
          let may = takes-MayAlloc now pid name kind callbacks room r m nz v yes_ in
          let (k, i, did) = (alloc_iff now pid name kind callbacks m v.wf).1 may in
          absurd (
            none-ne-some i (
              sym (ap (λ (x : Master × Option ℕ). x.1) e)
              ∙ ap (λ (x : Master × Option ℕ). x.1) did))
      | inr not_ ↦
          rw not_
            (refl, subst (Represents room r) (sym (alloc-none now pid name kind callbacks m n e)) v)
    ]

free_asset-false :
    (name : List ℕ) (m n : Master)
    → m.state ≡ stopped
    → free_asset name m ≡ (n, false)
    → find_asset name m.slots ≡ none
unfolding free_asset
free_asset-false name m n e h = elim (Option-cases (find_asset name m.slots)) [
  | inl gone ↦ gone
  | inr (i, at) ↦ ground arith
]

unregisters-Keeps :
    (name : List ℕ) (room : ℕ) (r : Registry) (m : Master)
    → HasNoZero name
    → Represents room r m
    → Keeps room (promise room (unregisters name) r) (perform (unregisters name) m)
unfolding perform
unregisters-Keeps name room r m nz v = go (free_asset name m) refl
  where
    go :
        (x : Master × Bool)
        → free_asset name m ≡ x
        → Keeps room (promise room (unregisters name) r) x
    go (n, true) e =
        let at = free-true name m n e in
        let has : r.has name ≡ true = v.found name nz ∙ ap (λ (o : Option ℕ). is_some o) at.1 in
        rw has (refl, unregistered name room r m n nz v e)
    go (n, false) e =
        let has : r.has name ≡ false =
          v.found name nz
          ∙ ap (λ (o : Option ℕ). is_some o) (free_asset-false name m n v.is_stopped e) in
        rw has (refl, subst (Represents room r) (sym (free-false name m n e)) v)

perform-Keeps :
    (c : Call) (room : ℕ) (r : Registry) (m : Master)
    → IsPlainCall c
    → Represents room r m
    → Keeps room (promise room c r) (perform c m)
unfolding perform
perform-Keeps (registers now pid name kind callbacks) room r m nz v =
    registers-Keeps now pid name kind callbacks room r m nz v
perform-Keeps (unregisters name) room r m nz v = unregisters-Keeps name room r m nz v
perform-Keeps (looks_up name) room r m nz v = (v.found name nz, v)

perform_all-promise_all :
    (cs : List Call) (room : ℕ) (r : Registry) (m : Master)
    → All IsPlainCall cs
    → Represents room r m
    → perform_all cs m ≡ promise_all room cs r
unfolding perform_all
perform_all-promise_all [] room r m plain v = refl
perform_all-promise_all (c ∷ cs) room r m plain v =
    let step = perform-Keeps c room r m plain.0 v in
    let rest =
      perform_all-promise_all cs room (promise room c r).0 (perform c m).0 plain.1 step.1 in
    let head : Path Answer ((perform c m).1, (perform c m).0.asset_num)
        ((promise room c r).1, (promise room c r).0.count) =
      ap2 (sym step.0) (sym step.1.counted) in
    ap (λ a. a ∷ perform_all cs (perform c m).0) head
    ∙ ap (◌∷◌ ((promise room c r).1, (promise room c r).0.count)) rest
  where
    ap2 : {a b : Bool} {i j : ℕ} → a ≡ b → i ≡ j → Path Answer (a, i) (b, j)
    ap2 e h = rw (e, h) refl

nothing : (name : List ℕ) (n : ℕ) → find_asset name (replicate n zero_slot) ≡ none
unfolding find_asset
nothing name zero = refl
nothing name (suc n) = ground (arith, nothing name n)

init-Represents :
    (room : ℕ) (pid : ℤ) → room < 2 ^ 32 → Represents room empty_registry (init room pid)
unfolding init
init-Represents room pid small = record {
  wf = init-IsWf room pid small;
  is_stopped = refl;
  counted = refl;
  sized = length-replicate room zero_slot;
  found = λ name nz. sym (ap (λ (o : Option ℕ). is_some o) (nothing name room));
}

-- The table of a new master with less than 2^32 slots answers any calls of alloc_asset and free_asset, and
-- lookups, of names with no zero byte, as a set of names does that has room for as many names as there
-- are slots: whether a call succeeds, and how many assets there are then. A registration succeeds if its
-- type is set, its name short enough and not in the set, and there is room.
pub init-refines :
    (cs : List Call) (room : ℕ) (pid : ℤ)
    → room < 2 ^ 32
    → All IsPlainCall cs
    → perform_all cs (init room pid) ≡ promise_all room cs empty_registry
init-refines cs room pid small plain =
    perform_all-promise_all cs room empty_registry (init room pid) plain
      (init-Represents room pid small)
