-- ===== src/Master/Registry.antt =====
-- What the table of assets promises (hako_master_data.hpp): a set of names with room for so many, in which
-- neither the slots nor their order can be seen.
pub mod Representation
pub mod Refinement
use hakoniwa_core_cpp.Prelude.{
  ℕ, zero, suc, ◌+◌, ◌-◌, ◌<◌, ◌^◌, ℤ, Bool, true, false, not, ◌&&◌, ◌==◌, ltb, if◌then◌else◌, List,
  [], ◌∷◌, length, Option, none, some, replicate, All, ◌≡◌, ◌≢◌, ◌↔◌, refl, subst, sym, ap, ◌∙◌,
  arith, ==_iff, length-replicate, Bool-cases, Option-cases, inl, inr,
}
use hakoniwa_core_cpp.FixedString.{fixed_strlen_max}
use hakoniwa_core_cpp.FixedString.Laws.{HasNoZero}
use hakoniwa_core_cpp.Master.Types.{stopped, AssetType, is_vacant, Callbacks, Master, zero_slot}
use hakoniwa_core_cpp.Master.Assets.{init, find_asset, alloc_asset, free_asset, vacate}
use hakoniwa_core_cpp.Master.Table.{length-modify}
use hakoniwa_core_cpp.Master.Table.Occupy.{used-occupy_first}
use hakoniwa_core_cpp.Master.WellFormed.{
  IsWf, init-IsWf, alloc-IsWf, find-alloc, MayAlloc, alloc_iff, may_alloc-true, alloc-some,
  alloc-none, free-true, free-false, free-IsWf, find-free,
}

-- A call, with the time and the process that it is made at.
pub data Call : Type 0 where
  registers : ℤ → ℤ → List ℕ → AssetType → Option Callbacks → Call
  unregisters : List ℕ → Call
  looks_up : List ℕ → Call

abbrev pub is_some {ℓ} : {A : Type ℓ} → Option A → Bool
is_some none = false
is_some (some a) = true

-- What a call answers, and how many assets there are then.
abbrev pub Answer : Type 0
Answer = Bool × ℕ

unfoldable pub perform : Call → Master → Master × Bool
perform (registers now pid name kind callbacks) m = (
  (alloc_asset now pid name kind callbacks m).0,
  is_some (alloc_asset now pid name kind callbacks m).1,
)
perform (unregisters name) m = free_asset name m
perform (looks_up name) m = (m, is_some (find_asset name m.slots))

unfoldable pub perform_all : List Call → Master → List Answer
unfolding perform
perform_all [] m = []
perform_all (c ∷ cs) m =
    ((perform c m).1, (perform c m).0.asset_num) ∷ perform_all cs (perform c m).0

-- The promise: the names that are registered, and how many they are.
pub record Registry : Type 0 where
  pub has : List ℕ → Bool
  pub count : ℕ

abbrev pub same_text : List ℕ → List ℕ → Bool
same_text [] [] = true
same_text [] (y ∷ ys) = false
same_text (x ∷ xs) [] = false
same_text (x ∷ xs) (y ∷ ys) = (x == y) && same_text xs ys

abbrev pub put : List ℕ → Bool → Registry → List ℕ → Bool
put name b r other = if same_text other name then b else r.has other

-- A call on a registry with room for `room` names.
abbrev pub promise : ℕ → Call → Registry → Registry × Bool
promise room (registers now pid name kind callbacks) r =
    if not (is_vacant kind)
      && (not (ltb fixed_strlen_max (length name)) && (not (r.has name) && ltb r.count room))
    then (record { has = put name true r; count = suc r.count }, true)
    else (r, false)
promise room (unregisters name) r =
    if r.has name
    then (record { has = put name false r; count = r.count - 1 }, true)
    else (r, false)
promise room (looks_up name) r = (r, r.has name)

abbrev pub promise_all : ℕ → List Call → Registry → List Answer
promise_all room [] r = []
promise_all room (c ∷ cs) r =
    ((promise room c r).1, (promise room c r).0.count) ∷ promise_all room cs (promise room c r).0

abbrev pub empty_registry : Registry
empty_registry = record { has = λ name. false; count = 0 }

-- The names in a call have no zero byte.
abbrev pub IsPlainCall : Call → Type 0
IsPlainCall (registers now pid name kind callbacks) = HasNoZero name
IsPlainCall (unregisters name) = HasNoZero name
IsPlainCall (looks_up name) = HasNoZero name
