-- ===== src/Master/Table/Vacate.antt =====
-- Giving up a slot of the table of assets (`free_asset` of hako_master_data.hpp).
use hakoniwa_core_cpp.Prelude.{
  ℕ, zero, suc, true, ◌&&◌, not, List, [], ◌∷◌, none, some, ◌≡◌, ◌≢◌, refl, sym, ◌∙◌, arith,
  Bool-cases, inl, inr,
}
use hakoniwa_core_cpp.FixedString.{fixed_to_string, matches}
use hakoniwa_core_cpp.FixedString.Laws.{HasNoZero, matches_iff}
use hakoniwa_core_cpp.Master.Types.{is_vacant, Slot, modify, used}
use hakoniwa_core_cpp.Master.Assets.{find_asset, vacate}
use hakoniwa_core_cpp.Master.Table.{IsTable, find_asset-cases}

pub used-modify-vacate :
    (name : List ℕ) (ss : List Slot) (i : ℕ)
    → find_asset name ss ≡ some i
    → suc (used (modify i vacate ss)) ≡ used ss
unfolding used
used-modify-vacate name [] i e = unfold find_asset in cc
used-modify-vacate name (s ∷ ss) i e = elim (find_asset-cases name s ss i e) [
  | inl (here, full, _) ↦ rw here (ground arith)
  | inr (k, there, at) ↦ rw there (ground (arith, used-modify-vacate name ss k at))
]

find-modify-vacate-none :
    (other : List ℕ) (ss : List Slot) (i : ℕ)
    → find_asset other ss ≡ none
    → find_asset other (modify i vacate ss) ≡ none
unfolding find_asset
find-modify-vacate-none other [] i e = refl
find-modify-vacate-none other (s ∷ ss) zero e = ground arith
find-modify-vacate-none other (s ∷ ss) (suc i) e =
    ground (arith, find-modify-vacate-none other ss i)

pub modify-vacate-IsTable :
    (k i : ℕ) (ss : List Slot) → IsTable k ss → IsTable k (modify i vacate ss)
modify-vacate-IsTable k i [] t = tt
modify-vacate-IsTable k zero (s ∷ ss) t = ((λ h. cc), (λ h. cc), t.2)
modify-vacate-IsTable k (suc i) (s ∷ ss) t = (
  t.0,
  (λ u. find-modify-vacate-none (fixed_to_string s.name) ss i (t.1 u)),
  modify-vacate-IsTable (suc k) i ss t.2,
)

pub find-modify-vacate_self :
    (name : List ℕ)
    → HasNoZero name
    → (k : ℕ) (ss : List Slot) (i : ℕ) → find_asset name ss ≡ some i
    → IsTable k ss
    → find_asset name (modify i vacate ss) ≡ none
unfolding find_asset
find-modify-vacate_self name nz k [] i e t = cc
find-modify-vacate_self name nz k (s ∷ ss) i e t = elim (find_asset-cases name s ss i e) [
  | inl (here, full, same) ↦
      let is_name : fixed_to_string s.name ≡ name =
        (matches_iff s.name name (t.0 full).2 nz).0 same in
      let rest : find_asset name ss ≡ none = rw is_name at (t.1 full) in rw here (ground arith)
  | inr (j, there, at) ↦
      let rest = find-modify-vacate_self name nz (suc k) ss j at t.2 in
      elim (Bool-cases (not (is_vacant s.kind) && matches s.name name)) [
        | inl hit ↦ ground arith
        | inr miss ↦ rw there (ground arith)
      ]
]

pub find-modify-vacate_ne :
    (name other : List ℕ)
    → HasNoZero name
    → HasNoZero other
    → other ≢ name
    → (k : ℕ) (ss : List Slot) (i : ℕ) → find_asset name ss ≡ some i
    → IsTable k ss
    → find_asset other (modify i vacate ss) ≡ find_asset other ss
unfolding find_asset
find-modify-vacate_ne name other nz onz ne k [] i e t = cc
find-modify-vacate_ne name other nz onz ne k (s ∷ ss) i e t =
    elim (find_asset-cases name s ss i e) [
      | inl (here, full, same) ↦
          let room = (t.0 full).2 in
          let is_name : fixed_to_string s.name ≡ name = (matches_iff s.name name room nz).0 same in
          let miss : matches s.name other ≢ true =
            λ h. ne (sym ((matches_iff s.name other room onz).0 h) ∙ is_name) in
          rw here (ground arith)
      | inr (j, there, at) ↦
          let rest = find-modify-vacate_ne name other nz onz ne (suc k) ss j at t.2 in
          rw there (ground arith)
    ]
