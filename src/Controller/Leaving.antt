-- ===== src/Controller/Leaving.antt =====
-- Assets that leave, or register again, while their thread runs (`asset_unregister` and
-- `asset_register` of hako_asset_impl.cpp with `stop` of hako_internal_rpc.cpp).
use hakoniwa_core_cpp.Prelude.{
  ℕ, zero, suc, ℤ, eqb_ℤ, Bool, true, false, ◌||◌, List, [], ◌∷◌, Option, none, some, ◌≡◌, ◌≢◌,
  refl, arith, Option-cases, inl, inr, ◌⊎◌,
}
use hakoniwa_core_cpp.Master.Types.{
  stopped, error, state_eq, inside, Callbacks, Slot, Master, modify,
}
use hakoniwa_core_cpp.Master.Assets.{
  alloc_asset, free_asset, find_asset, get_asset, occupy, occupy_first, vacate, drop_u32,
}
use hakoniwa_core_cpp.Pdu.Types.{Outcome, returns, spins, faults}
use hakoniwa_core_cpp.Controller.{
  Rpc, Session, call_of, ends, proxy_round, stop, asset_register, register_rpc, asset_unregister,
}

Outcome-cases {ℓ} :
    {A : Type ℓ} (o : Outcome A) → ((a : A) × (o ≡ returns a)) ⊎ (o ≡ spins) ⊎ (o ≡ faults)
Outcome-cases (returns a) = inl (a, refl)
Outcome-cases spins = inr (inl refl)
Outcome-cases faults = inr (inr refl)

call_of-ne-ends : (f : ℕ) → call_of f ≢ ends
call_of-ne-ends f = ground arith

-- While its asset is in use the thread does not end.
proxy_round-ne-ends :
    (r : Rpc) (ss : List Slot) (x : Slot)
    → get_asset r.asset_id ss ≡ some x
    → proxy_round r ss ≢ ends
unfolding proxy_round
proxy_round-ne-ends r ss x e = ground arith

-- A thread whose asset is in use is waited for without end, or reads through a null pointer.
stop-ne-returns :
    (r : Rpc) (s t : Session) (x : Slot)
    → r.has_thread ≡ true
    → eqb_ℤ s.pid s.master.master_pid ≡ false
    → get_asset r.asset_id s.master.slots ≡ some x
    → stop r s ≢ returns t
unfolding stop
stop-ne-returns r s t x on other used = ground (arith, proxy_round-ne-ends r s.master.slots x)

free_asset-busy :
    (name : List ℕ) (m : Master)
    → (state_eq m.state stopped || state_eq m.state error) ≡ false
    → free_asset name m ≡ (m, false)
unfolding free_asset
free_asset-busy name m busy = rw busy refl

-- In a process other than the master's, whose thread runs for an asset that is in use: a call of
-- asset_unregister, for whatever name, does not return while the simulation is neither stopped nor in
-- the error state.
pub unregister-ne-returns :
    (name : List ℕ) (r : Rpc) (s t : Session) (x : Slot) (b : Bool)
    → s.rpc ≡ some r
    → r.has_thread ≡ true
    → eqb_ℤ s.pid s.master.master_pid ≡ false
    → get_asset r.asset_id s.master.slots ≡ some x
    → (state_eq s.master.state stopped || state_eq s.master.state error) ≡ false
    → asset_unregister name s ≢ returns (t, b)
unfolding asset_unregister
unregister-ne-returns name r s t x b e on other used busy = ground (
  arith,
  free_asset-busy name s.master busy,
  stop-ne-returns r (record s { master = s.master }) t x on other used,
)

free_asset-found :
    (name : List ℕ) (m : Master) (i : ℕ)
    → m.state ≡ stopped
    → find_asset name m.slots ≡ some i
    → free_asset name m
      ≡ (record m { slots = modify i vacate m.slots; asset_num = drop_u32 m.asset_num }, true)
unfolding free_asset
free_asset-found name m i still found = ground arith

get_asset-vacate : (i : ℕ) (ss : List Slot) → get_asset i (modify i vacate ss) ≡ none
unfolding get_asset
get_asset-vacate i [] = refl
get_asset-vacate zero (s ∷ ss) = refl
get_asset-vacate (suc i) (s ∷ ss) = get_asset-vacate i ss

-- In a process other than the master's, whose thread runs for the asset of this name: in a stopped
-- simulation asset_unregister returns true, the asset's slot is not in use any more, and the thread has
-- ended.
pub unregister-ends :
    (name : List ℕ) (r : Rpc) (s : Session)
    → s.rpc ≡ some r
    → r.has_thread ≡ true
    → eqb_ℤ s.pid s.master.master_pid ≡ false
    → find_asset name s.master.slots ≡ some r.asset_id
    → s.master.state ≡ stopped
    → (t : Session) × (asset_unregister name s ≡ returns (t, true))
      × (get_asset r.asset_id t.master.slots ≡ none)
      × (t.rpc ≡ some (record r { has_thread = false }))
unfolding asset_unregister proxy_round
unregister-ends name r s e on other found still =
    let gone = get_asset-vacate r.asset_id s.master.slots in
    (
      record s {
        master = record s.master {
          slots = modify r.asset_id vacate s.master.slots;
          asset_num = drop_u32 s.master.asset_num;
        };
        rpc = some (record r { has_thread = false });
      },
      ground (arith, free_asset-found name s.master r.asset_id still found),
      gone,
      refl,
    )

-- A registration leaves the slots in use.
occupy_first-keeps :
    (fill : ℕ → Slot → Slot) (k : ℕ) (ss ss' : List Slot) (j i : ℕ) (x : Slot)
    → occupy_first fill k ss ≡ some (j, ss')
    → get_asset i ss ≡ some x
    → get_asset i ss' ≡ some x
unfolding occupy_first get_asset
occupy_first-keeps fill k [] ss' j i x e u = cc
occupy_first-keeps fill k (s ∷ ss) ss' j zero x e u = ground arith
occupy_first-keeps fill k (s ∷ ss) ss' j (suc i) x e u =
    elim (Option-cases (occupy_first fill (suc k) ss)) [
      | inl stop ↦ ground arith
      | inr ((l, us), go) ↦ ground (arith, occupy_first-keeps fill (suc k) ss us l i x go u)
    ]

alloc_asset-keeps :
    (now pid : ℤ) (name : List ℕ) (callbacks : Option Callbacks) (i : ℕ) (x : Slot) (m : Master)
    → get_asset i m.slots ≡ some x
    → (get_asset i (alloc_asset now pid name inside callbacks m).0.slots ≡ some x)
      × ((alloc_asset now pid name inside callbacks m).0.master_pid ≡ m.master_pid)
unfolding alloc_asset
alloc_asset-keeps now pid name callbacks i x m u =
    elim (Option-cases (occupy_first (occupy now pid name inside callbacks) 0 m.slots)) [
      | inl full ↦ ground arith
      | inr ((j, ss), go) ↦
          ground (
            arith,
            occupy_first-keeps (occupy now pid name inside callbacks) 0 m.slots ss j i x go u,
          )
    ]

register_rpc-ne-returns :
    (callbacks : Callbacks) (r : Rpc) (s t : Session) (id : Option ℕ) (x : Slot)
    → s.rpc ≡ some r
    → r.has_thread ≡ true
    → eqb_ℤ s.pid s.master.master_pid ≡ false
    → get_asset r.asset_id s.master.slots ≡ some x
    → register_rpc callbacks s id ≢ returns (t, true)
unfolding register_rpc
register_rpc-ne-returns callbacks r s t none x e on other used = ground arith
register_rpc-ne-returns callbacks r s t (some i) x e on other used =
    elim (Outcome-cases (stop r s)) [
      | inl (u, over) ↦ absurd (stop-ne-returns r s u x on other used over)
      | inr (inl waits) ↦ ground arith
      | inr (inr faulty) ↦ ground arith
    ]

-- In a process other than the master's, whose thread runs for an asset that is in use: the
-- registration of a second asset with callbacks does not return true, the thread of the first one being
-- waited for.
pub register-ne-returns :
    (now : ℤ) (name : List ℕ) (callbacks : Callbacks) (r : Rpc) (s t : Session) (x : Slot)
    → s.rpc ≡ some r
    → r.has_thread ≡ true
    → eqb_ℤ s.pid s.master.master_pid ≡ false
    → get_asset r.asset_id s.master.slots ≡ some x
    → asset_register now name callbacks s ≢ returns (t, true)
unfolding asset_register
register-ne-returns now name callbacks r s t x e on other used =
    let (still, same) =
      alloc_asset-keeps now s.pid name (some callbacks) r.asset_id x s.master used in
    register_rpc-ne-returns callbacks r
      (record s { master = (alloc_asset now s.pid name inside (some callbacks) s.master).0 }) t
      (alloc_asset now s.pid name inside (some callbacks) s.master).1 x e on (rw same other) still
