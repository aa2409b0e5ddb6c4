-- ===== src/Master/WellFormed.antt =====
-- The invariant of the table of assets, and what registering and removing an asset do
-- (`alloc_asset` and `free_asset` of hako_master_data.hpp).
use hakoniwa_core_cpp.Prelude.{
  ℕ, zero, suc, ◌+◌, ◌≤◌, ◌<◌, ◌%◌, ◌^◌, ℤ, Bool, true, false, List, length, Option, none, some,
  ◌≡◌, ◌≢◌, ◌↔◌, refl, sym, arith, Option-cases, inl, inr, length-replicate, replicate,
}
use hakoniwa_core_cpp.FixedString.{fixed_strlen_max}
use hakoniwa_core_cpp.FixedString.Laws.{HasNoZero}
use hakoniwa_core_cpp.Master.Types.{
  stopped, AssetType, is_vacant, Callbacks, Master, modify, used, zero_slot,
}
use hakoniwa_core_cpp.Master.Assets.{
  init, find_asset, occupy, occupy_first, may_alloc, alloc_asset, free_asset, vacate, bump_u32,
  drop_u32,
}
use hakoniwa_core_cpp.Master.Table.{IsTable, used-le-length, length-modify}
use hakoniwa_core_cpp.Master.Table.Occupy.{
  used-occupy_first, occupy_first-none, occupy_first-IsTable, find-occupy_first_ne,
  find-occupy_first_self,
}
use hakoniwa_core_cpp.Master.Table.Vacate.{
  used-modify-vacate, modify-vacate-IsTable, find-modify-vacate_self, find-modify-vacate_ne,
}

-- The count of assets is right, ids are indices, and no two assets have one name.
pub record IsWf (m : Master) : Type 0 where
  pub counted : m.asset_num ≡ used m.slots
  pub table : IsTable 0 m.slots
  pub small : length m.slots < 2 ^ 32

zeros-IsTable : (n i : ℕ) → IsTable i (replicate n zero_slot)
zeros-IsTable zero i = tt
zeros-IsTable (suc n) i = ((λ h. cc), (λ h. cc), zeros-IsTable n (suc i))

zeros-used : (n : ℕ) → used (replicate n zero_slot) ≡ 0
unfolding used
zeros-used zero = refl
zeros-used (suc n) = zeros-used n

-- The data of a new master with less than 2^32 slots is well formed.
pub init-IsWf : (n : ℕ) (pid : ℤ) → n < 2 ^ 32 → IsWf (init n pid)
unfolding init
init-IsWf n pid h = record {
  counted = sym (zeros-used n);
  table = zeros-IsTable n 0;
  small = omega (arith, length-replicate n zero_slot);
}

-- What the guard of `alloc_asset` says.
pub may_alloc-true :
    (name : List ℕ) (kind : AssetType) (m : Master)
    → may_alloc name kind m ≡ true
    → (is_vacant kind ≡ false)
      × (length name ≤ fixed_strlen_max)
      × (m.state ≡ stopped)
      × (find_asset name m.slots ≡ none)
      × (m.asset_num < length m.slots)
unfolding may_alloc
may_alloc-true name kind m h =
    (ground arith, ground arith, ground arith, ground arith, ground arith)

module _ (now pid : ℤ) (name : List ℕ) (kind : AssetType) (callbacks : Option Callbacks) where
  -- A registration that succeeds was allowed, and took a slot.
  pub alloc-some :
      (m n : Master) (i : ℕ)
      → alloc_asset now pid name kind callbacks m ≡ (n, some i)
      → (may_alloc name kind m ≡ true)
        × (occupy_first (occupy now pid name kind callbacks) 0 m.slots ≡ some (i, n.slots))
        × (n.asset_num ≡ (m.asset_num + 1) % 2 ^ 32)
        × (n.state ≡ m.state)
  unfolding alloc_asset
  alloc-some m n i e = ground arith

  -- One that does not leaves the data as it was.
  pub alloc-none : (m n : Master) → alloc_asset now pid name kind callbacks m ≡ (n, none) → n ≡ m
  unfolding alloc_asset
  alloc-none m n e = ground arith

  some-IsWf :
      (m n : Master) (i : ℕ)
      → HasNoZero name
      → IsWf m
      → alloc_asset now pid name kind callbacks m ≡ (n, some i)
      → IsWf n
  some-IsWf m n i nz v e =
      let (may, went, num, _) = alloc-some m n i e in
      let (taken, _, _, absent, room) = may_alloc-true name kind m may in
      let (more, same) = used-occupy_first now pid name kind callbacks taken 0 m.slots went in
      record {
        counted = omega (arith, v.counted, v.small);
        table =
            occupy_first-IsTable now pid name kind callbacks taken nz 0 m.slots went absent v.table;
        small = omega (arith, v.small);
      }

  -- Registering an asset with a name that has no zero byte keeps well-formed data well formed, whether
  -- it succeeds or not.
  pub alloc-IsWf :
      (m : Master) → HasNoZero name → IsWf m → IsWf (alloc_asset now pid name kind callbacks m).0
  alloc-IsWf m nz v = go (alloc_asset now pid name kind callbacks m) refl
    where
      go : (r : Master × Option ℕ) → alloc_asset now pid name kind callbacks m ≡ r → IsWf r.0
      go (n, none) e = rw (alloc-none m n e) v
      go (n, some i) e = some-IsWf m n i nz v e

  -- After a registration on well-formed data, of a name with no zero byte, the name is found at the id
  -- that was returned, any other name with no zero byte is found where it was, and there is one asset
  -- more.
  pub find-alloc :
      (m n : Master) (i : ℕ) (other : List ℕ)
      → HasNoZero name
      → HasNoZero other
      → other ≢ name
      → IsWf m
      → alloc_asset now pid name kind callbacks m ≡ (n, some i)
      → (find_asset name n.slots ≡ some i)
        × (find_asset other n.slots ≡ find_asset other m.slots)
        × (n.asset_num ≡ suc m.asset_num)
  find-alloc m n i other nz onz ne v e =
      let (may, went, num, _) = alloc-some m n i e in
      let (taken, _, _, absent, room) = may_alloc-true name kind m may in
      let (d, at, found) =
        find-occupy_first_self now pid name kind callbacks taken nz 0 m.slots went absent in
      let place : d ≡ i = omega arith in
      (
        rw (← place) found,
        find-occupy_first_ne now pid name kind callbacks taken other onz ne 0 m.slots went,
        omega (arith, v.small, num),
      )

  -- What has to hold for a registration.
  pub record MayAlloc (m : Master) : Type 0 where
    pub is_set : is_vacant kind ≡ false
    pub short : length name ≤ fixed_strlen_max
    pub is_stopped : m.state ≡ stopped
    pub absent : find_asset name m.slots ≡ none
    pub room : m.asset_num < length m.slots

  -- On well-formed data an asset is registered exactly if its type is set, its name is short enough
  -- and not in use, the simulation is stopped, and there are fewer assets than slots.
  pub alloc_iff :
      (m : Master)
      → IsWf m
      → ((n : Master) × (i : ℕ) × (alloc_asset now pid name kind callbacks m ≡ (n, some i)))
        ↔ MayAlloc m
  unfolding alloc_asset may_alloc
  alloc_iff m v = (
    (λ (n, i, e).
        let (a, b, c, d, f) = may_alloc-true name kind m (alloc-some m n i e).0 in
        record { is_set = a; short = b; is_stopped = c; absent = d; room = f }),
    (λ h. elim (Option-cases (occupy_first (occupy now pid name kind callbacks) 0 m.slots)) [
      | inl full ↦ absurd (
          omega (
            arith,
            h.room,
            v.counted,
            occupy_first-none now pid name kind callbacks h.is_set 0 m.slots full,
          ))
      | inr ((i, ss), went) ↦ (
        record m { slots = ss; asset_num = bump_u32 m.asset_num },
        i,
        ground (arith, h.is_set, h.short, h.is_stopped, h.absent, h.room),
      )
    ]),
  )

-- A removal that succeeds took the asset of this name.
pub free-true :
    (name : List ℕ) (m n : Master)
    → free_asset name m ≡ (n, true)
    → (i : ℕ) × (find_asset name m.slots ≡ some i)
      × (n ≡ record m { slots = modify i vacate m.slots; asset_num = drop_u32 m.asset_num })
unfolding free_asset
free-true name m n e = elim (Option-cases (find_asset name m.slots)) [
  | inl gone ↦ ground arith
  | inr (i, at) ↦ (i, at, ground arith)
]

pub free-false : (name : List ℕ) (m n : Master) → free_asset name m ≡ (n, false) → n ≡ m
unfolding free_asset
free-false name m n e = ground arith

vacated-IsWf :
    (name : List ℕ) (m : Master) (i : ℕ)
    → IsWf m
    → find_asset name m.slots ≡ some i
    → IsWf (record m { slots = modify i vacate m.slots; asset_num = drop_u32 m.asset_num })
vacated-IsWf name m i v at = record {
  counted =
      omega
        (arith, v.counted, v.small, used-modify-vacate name m.slots i at, used-le-length m.slots);
  table = modify-vacate-IsTable 0 i m.slots v.table;
  small = omega (arith, v.small, length-modify i vacate m.slots);
}

-- Removing an asset keeps well-formed data well formed, whether it succeeds or not.
pub free-IsWf : (name : List ℕ) (m : Master) → IsWf m → IsWf (free_asset name m).0
free-IsWf name m v = go (free_asset name m) refl
  where
    go : (r : Master × Bool) → free_asset name m ≡ r → IsWf r.0
    go (n, false) e = rw (free-false name m n e) v
    go (n, true) e =
        let (i, at, is_n) = free-true name m n e in rw is_n (vacated-IsWf name m i v at)

-- After a removal that succeeds on well-formed data, of a name with no zero byte, the name is not
-- found any more, any other name with no zero byte is found where it was, and there is one asset less.
pub find-free :
    (name other : List ℕ) (m n : Master)
    → HasNoZero name
    → HasNoZero other
    → other ≢ name
    → IsWf m
    → free_asset name m ≡ (n, true)
    → (find_asset name n.slots ≡ none)
      × (find_asset other n.slots ≡ find_asset other m.slots)
      × (suc n.asset_num ≡ m.asset_num)
find-free name other m n nz onz ne v e =
    let (i, at, is_n) = free-true name m n e in
    rw is_n (
      find-modify-vacate_self name nz 0 m.slots i at v.table,
      find-modify-vacate_ne name other nz onz ne 0 m.slots i at v.table,
      omega
          (arith, v.counted, v.small, used-modify-vacate name m.slots i at, used-le-length m.slots),
    )
