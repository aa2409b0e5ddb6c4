-- ===== src/Master/Table.antt =====
-- The table of assets: what is found in it (hako_master_data.hpp).
pub mod Occupy
pub mod Vacate
pub mod Update
use hakoniwa_core_cpp.Prelude.{
  ℕ, zero, suc, ◌+◌, ◌-◌, ◌≤◌, ◌<◌, ℤ, Bool, true, false, ◌==◌, ◌&&◌, not, ltb, if◌then◌else◌, List,
  [], ◌∷◌, length, Option, none, some, get_elem?, set, drop, All, map, ◌≡◌, ◌≢◌, ◌↔◌, refl, ap, sym,
  ◌∙◌, arith, Option-cases, Bool-cases, ◌⊎◌, inl, inr, ◌++◌, length-append,
}
use hakoniwa_core_cpp.FixedString.{FixedString, string_to_fixed, fixed_to_string, matches}
use hakoniwa_core_cpp.FixedString.Laws.{HasNoZero, matches_iff, fixed_to_string-string_to_fixed}
use hakoniwa_core_cpp.Master.Types.{
  AssetType, vacant, is_vacant, Callbacks, Slot, Master, modify, used,
}
use hakoniwa_core_cpp.Master.Assets.{find_asset, get_asset, occupy, occupy_first, vacate}

pub used-le-length : (ss : List Slot) → used ss ≤ length ss
unfolding used
used-le-length [] = omega arith
used-le-length (s ∷ ss) = ground (arith, used-le-length ss)

-- A stored name matches exactly the text that was stored.
pub matches-stored :
    (name n : List ℕ) (dst : FixedString)
    → HasNoZero n
    → (matches (string_to_fixed name dst) n ≡ true) ↔ (name ≡ n)
unfolding string_to_fixed
matches-stored name n dst nz =
    rw (fixed_to_string-string_to_fixed name dst) at
      (matches_iff (string_to_fixed name dst) n (omega (arith, length-append name _)) nz)

-- A slot in use has its own index as its id, and a name with no zero byte.
abbrev pub IsSlot : ℕ → Slot → Type 0
IsSlot i s =
    is_vacant s.kind ≡ false
    → (s.id ≡ i) × HasNoZero (fixed_to_string s.name) × (s.name.len ≤ length s.name.chars)

-- The slots from index `i` on, of which no two in use have one name.
abbrev pub IsTable : ℕ → List Slot → Type 0
IsTable i [] = Unit
IsTable i (s ∷ ss) =
    IsSlot i s
    × (is_vacant s.kind ≡ false → find_asset (fixed_to_string s.name) ss ≡ none)
    × IsTable (suc i) ss

pub absent_tail :
    (name : List ℕ) (s : Slot) (ss : List Slot)
    → find_asset name (s ∷ ss) ≡ none
    → find_asset name ss ≡ none
unfolding find_asset
absent_tail name s ss e = ground arith

-- The name of a slot in use is another one than a name that is not found.
pub other_name :
    (name : List ℕ)
    → HasNoZero name
    → (s : Slot) (ss : List Slot) → is_vacant s.kind ≡ false
    → s.name.len ≤ length s.name.chars
    → find_asset name (s ∷ ss) ≡ none
    → fixed_to_string s.name ≢ name
unfolding find_asset
other_name name nz s ss u room absent same =
    ground (arith, (matches_iff s.name name room nz).1 same)

-- A search stops at the head, or finds in the tail.
pub find_asset-cases :
    (name : List ℕ) (s : Slot) (ss : List Slot) (i : ℕ)
    → find_asset name (s ∷ ss) ≡ some i
    → ((i ≡ 0) × (is_vacant s.kind ≡ false) × (matches s.name name ≡ true))
      ⊎ ((k : ℕ) × (i ≡ suc k) × (find_asset name ss ≡ some k))
unfolding find_asset
find_asset-cases name s ss i e = elim (Option-cases (find_asset name ss)) [
  | inl gone ↦ inl (ground arith)
  | inr (k, at) ↦ elim (Bool-cases (not (is_vacant s.kind) && matches s.name name)) [
    | inl hit ↦ inl (ground arith)
    | inr miss ↦ inr (k, ground arith, at)
  ]
]

-- What is found is in use and matches.
pub find_asset-found :
    (name : List ℕ) (ss : List Slot) (i : ℕ)
    → find_asset name ss ≡ some i
    → (s : Slot) × (get_elem? ss i ≡ some s)
      × (is_vacant s.kind ≡ false)
      × (matches s.name name ≡ true)
find_asset-found name [] i e = unfold find_asset in cc
find_asset-found name (s ∷ ss) i e = elim (find_asset-cases name s ss i e) [
  | inl (here, full, same) ↦ rw here (s, refl, full, same)
  | inr (k, there, at) ↦ rw there (find_asset-found name ss k at)
]

pub IsTable-IsSlot :
    (k i : ℕ) (ss : List Slot) {s : Slot}
    → IsTable k ss
    → get_elem? ss i ≡ some s
    → IsSlot (k + i) s
IsTable-IsSlot k i [] t e = cc
IsTable-IsSlot k zero (s ∷ ss) t e =
    let same : k + 0 ≡ k = omega arith in rw same (ground (arith, t.0))
IsTable-IsSlot k (suc i) (s ∷ ss) t e =
    let same : k + suc i ≡ suc k + i = omega arith in rw same (IsTable-IsSlot (suc k) i ss t.2 e)

pub length-modify : (i : ℕ) (f : Slot → Slot) (ss : List Slot) → length (modify i f ss) ≡ length ss
length-modify i f [] = refl
length-modify zero f (s ∷ ss) = refl
length-modify (suc i) f (s ∷ ss) = ap suc (length-modify i f ss)
