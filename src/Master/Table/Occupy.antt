-- ===== src/Master/Table/Occupy.antt =====
-- Taking a vacant slot of the table of assets (`alloc_asset` of hako_master_data.hpp).
use hakoniwa_core_cpp.Prelude.{
  ℕ, suc, ◌+◌, ℤ, true, false, List, [], ◌∷◌, length, Option, none, some, get_elem?, set, drop, ◌≡◌,
  ◌≢◌, refl, ◌∙◌, arith, Option-cases, Bool-cases, inl, inr, length-append,
}
use hakoniwa_core_cpp.FixedString.{string_to_fixed, fixed_to_string}
use hakoniwa_core_cpp.FixedString.Laws.{HasNoZero, fixed_to_string-string_to_fixed}
use hakoniwa_core_cpp.Master.Types.{AssetType, is_vacant, Callbacks, Slot, used}
use hakoniwa_core_cpp.Master.Assets.{find_asset, occupy, occupy_first}
use hakoniwa_core_cpp.Master.Table.{matches-stored, IsSlot, IsTable, absent_tail, other_name}

module _ (now pid : ℤ) (name : List ℕ) (kind : AssetType) (callbacks : Option Callbacks)
    (taken : is_vacant kind ≡ false) where
  abbrev fill : ℕ → Slot → Slot
  fill = occupy now pid name kind callbacks

  pub used-occupy_first :
      (i : ℕ) (ss : List Slot) {j : ℕ} {ts : List Slot}
      → occupy_first fill i ss ≡ some (j, ts)
      → (used ts ≡ suc (used ss)) × (length ts ≡ length ss)
  unfolding used occupy_first occupy
  used-occupy_first i [] e = cc
  used-occupy_first i (s ∷ ss) e = elim (Option-cases (occupy_first fill (suc i) ss)) [
    | inl stop ↦ ground arith
    | inr ((k, us), go) ↦ ground (arith, used-occupy_first (suc i) ss go)
  ]

  pub occupy_first-none :
      (i : ℕ) (ss : List Slot) → occupy_first fill i ss ≡ none → used ss ≡ length ss
  unfolding used occupy_first
  occupy_first-none i [] e = refl
  occupy_first-none i (s ∷ ss) e = elim (Option-cases (occupy_first fill (suc i) ss)) [
    | inl stop ↦ ground (arith, occupy_first-none (suc i) ss stop)
    | inr ((k, us), go) ↦ ground arith
  ]

  pub find-occupy_first_ne :
      (n : List ℕ)
      → HasNoZero n
      → n ≢ name
      → (i : ℕ) (ss : List Slot) {j : ℕ} {ts : List Slot} → occupy_first fill i ss ≡ some (j, ts)
      → find_asset n ts ≡ find_asset n ss
  unfolding find_asset occupy_first occupy
  find-occupy_first_ne n nz ne i [] e = cc
  find-occupy_first_ne n nz ne i (s ∷ ss) e = elim (Option-cases (occupy_first fill (suc i) ss)) [
    | inl stop ↦ ground (arith, matches-stored name n s.name nz)
    | inr ((k, us), go) ↦
        ground (arith, matches-stored name n s.name nz, find-occupy_first_ne n nz ne (suc i) ss go)
  ]

  -- The slot that is taken, and that all others stay.
  pub record Taken (i j : ℕ) (ss ts : List Slot) : Type 0 where
    pub index : ℕ
    pub old : Slot
    pub place : i + index ≡ j
    pub was : get_elem? ss index ≡ some old
    pub was_vacant : is_vacant old.kind ≡ true
    pub result : ts ≡ set ss index (fill j old)

  pub occupy_first-Taken :
      (i : ℕ) (ss : List Slot) {j : ℕ} {ts : List Slot}
      → occupy_first fill i ss ≡ some (j, ts)
      → Taken i j ss ts
  unfolding occupy_first
  occupy_first-Taken i [] e = cc
  occupy_first-Taken i (s ∷ ss) {j} {ts} e = elim (Bool-cases (is_vacant s.kind)) [
    | inl free ↦ record {
      index = 0;
      old = s;
      place = ground arith;
      was = refl;
      was_vacant = free;
      result = ground arith;
    }
    | inr full ↦ elim (Option-cases (occupy_first fill (suc i) ss)) [
      | inl stop ↦ ground arith
      | inr ((k, us), go) ↦
          let r = occupy_first-Taken (suc i) ss go in
          record {
            index = suc r.index;
            old = r.old;
            place = ground arith;
            was = r.was;
            was_vacant = r.was_vacant;
            result = ground (arith, r.result);
          }
    ]
  ]

  pub find-occupy_first_self :
      HasNoZero name
      → (i : ℕ) (ss : List Slot) {j : ℕ} {ts : List Slot} → occupy_first fill i ss ≡ some (j, ts)
      → find_asset name ss ≡ none
      → (d : ℕ) × (i + d ≡ j) × (find_asset name ts ≡ some d)
  unfolding find_asset occupy_first occupy
  find-occupy_first_self nz i [] e absent = cc
  find-occupy_first_self nz i (s ∷ ss) {j} {ts} e absent = elim (Bool-cases (is_vacant s.kind)) [
    | inl free ↦ (0, ground arith, ground (arith, matches-stored name name s.name nz))
    | inr full ↦ elim (Option-cases (occupy_first fill (suc i) ss)) [
      | inl stop ↦ ground arith
      | inr ((k, us), go) ↦
          let (d, at, found) = find-occupy_first_self nz (suc i) ss go (ground arith) in
          (suc d, ground arith, ground arith)
    ]
  ]

  name-fill : (i : ℕ) (s : Slot) → fixed_to_string (fill i s).name ≡ name
  unfolding occupy
  name-fill i s = fixed_to_string-string_to_fixed name s.name

  fill-IsSlot : HasNoZero name → (i : ℕ) (s : Slot) → IsSlot i (fill i s)
  unfolding occupy string_to_fixed
  fill-IsSlot nz i s _ = (
    refl,
    rw (fixed_to_string-string_to_fixed name s.name) nz,
    omega (arith, length-append name (0 ∷ drop (suc (length name)) s.name.chars)),
  )

  pub occupy_first-IsTable :
      HasNoZero name
      → (i : ℕ) (ss : List Slot) {j : ℕ} {ts : List Slot} → occupy_first fill i ss ≡ some (j, ts)
      → find_asset name ss ≡ none
      → IsTable i ss
      → IsTable i ts
  unfolding find_asset occupy_first
  occupy_first-IsTable nz i [] e absent t = cc
  occupy_first-IsTable nz i (s ∷ ss) {j} {ts} e absent t = elim (Bool-cases (is_vacant s.kind)) [
    | inl free ↦
        let e' : ts ≡ fill i s ∷ ss = ground arith in
        rw e' (fill-IsSlot nz i s, (λ _. rw (name-fill i s) (absent_tail name s ss absent)), t.2)
    | inr full ↦ elim (Option-cases (occupy_first fill (suc i) ss)) [
      | inl stop ↦ ground arith
      | inr ((k, us), go) ↦
          let e' : ts ≡ s ∷ us = ground arith in
          let tail_absent = absent_tail name s ss absent in
          rw e' (
            t.0,
            (λ u.
                let n = fixed_to_string s.name in
                find-occupy_first_ne n (t.0 u).1 (other_name name nz s ss u (t.0 u).2 absent)
                  (suc i) ss go
                ∙ t.1 u),
            occupy_first-IsTable nz (suc i) ss go tail_absent t.2,
          )
    ]
  ]
