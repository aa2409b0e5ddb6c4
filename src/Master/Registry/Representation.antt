-- ===== src/Master/Registry/Representation.antt =====
-- The set of names that a table of assets stands for, and its changes (hako_master_data.hpp).
use hakoniwa_core_cpp.Prelude.{
  ℕ, suc, ◌-◌, ℤ, Bool, true, false, not, ◌&&◌, ltb, List, [], ◌∷◌, length, Option, none, some, ◌≡◌,
  ◌≢◌, refl, subst, ap, ◌∙◌, arith, Bool-cases, Option-cases, inl, inr,
}
use hakoniwa_core_cpp.FixedString.{fixed_strlen_max}
use hakoniwa_core_cpp.FixedString.Laws.{HasNoZero}
use hakoniwa_core_cpp.Master.Types.{stopped, AssetType, is_vacant, Callbacks, Master}
use hakoniwa_core_cpp.Master.Assets.{find_asset, alloc_asset, free_asset, vacate}
use hakoniwa_core_cpp.Master.Table.{length-modify}
use hakoniwa_core_cpp.Master.Table.Occupy.{used-occupy_first}
use hakoniwa_core_cpp.Master.WellFormed.{
  IsWf, alloc-IsWf, find-alloc, MayAlloc, may_alloc-true, alloc-some, free-true, free-IsWf,
  find-free,
}
use hakoniwa_core_cpp.Master.Registry.{is_some, Registry, same_text, put}

same_text_sound : (a b : List ℕ) → same_text a b ≡ true → a ≡ b
same_text_sound [] [] h = refl
same_text_sound [] (y ∷ ys) h = cc
same_text_sound (x ∷ xs) [] h = cc
same_text_sound (x ∷ xs) (y ∷ ys) h = ground (arith, same_text_sound xs ys)

same_text_refl : (a : List ℕ) → same_text a a ≡ true
same_text_refl [] = refl
same_text_refl (x ∷ xs) = ground (arith, same_text_refl xs)

same_text_ne : (a b : List ℕ) → same_text a b ≡ false → a ≢ b
same_text_ne a b h e =
    let same : same_text a b ≡ true = subst (λ c. same_text a c ≡ true) e (same_text_refl a) in
    ground arith

-- The table keeps the promise.
pub record Represents (room : ℕ) (r : Registry) (m : Master) : Type 0 where
  pub wf : IsWf m
  pub is_stopped : m.state ≡ stopped
  pub counted : r.count ≡ m.asset_num
  pub sized : length m.slots ≡ room
  pub found : (name : List ℕ) → HasNoZero name → r.has name ≡ is_some (find_asset name m.slots)

longer-ne : (name : List ℕ) → Path (List ℕ) (1 ∷ name) name → ⊥
longer-ne name e = omega (arith, ap (λ (l : List ℕ). length l) e)

module _ (now pid : ℤ) (name : List ℕ) (kind : AssetType) (callbacks : Option Callbacks) (room : ℕ)
    (r : Registry) (m : Master) where
  abbrev pub takes : Bool
  takes =
      not (is_vacant kind)
      && (not (ltb fixed_strlen_max (length name)) && (not (r.has name) && ltb r.count room))

  pub takes-MayAlloc :
      HasNoZero name → Represents room r m → takes ≡ true → MayAlloc now pid name kind callbacks m
  takes-MayAlloc nz v h = record {
    is_set = ground arith;
    short = ground arith;
    is_stopped = v.is_stopped;
    absent = elim (Option-cases (find_asset name m.slots)) [
      | inl gone ↦ gone
      | inr (i, at) ↦ ground (arith, v.found name nz)
    ];
    room = ground (arith, v.counted, v.sized);
  }

  pub MayAlloc-takes :
      HasNoZero name → Represents room r m → MayAlloc now pid name kind callbacks m → takes ≡ true
  MayAlloc-takes nz v h =
      let free = v.found name nz in
      let absent = h.absent in
      let space = h.room in
      ground (arith, h.is_set, h.short, v.counted, v.sized, free, absent, space)

  pub registered :
      (n : Master) (i : ℕ)
      → HasNoZero name
      → Represents room r m
      → alloc_asset now pid name kind callbacks m ≡ (n, some i)
      → Represents room (record { has = put name true r; count = suc r.count }) n
  registered n i nz v e =
      let (may, went, num, state) = alloc-some now pid name kind callbacks m n i e in
      let (taken, _, _, absent, space) = may_alloc-true name kind m may in
      let (more, same) = used-occupy_first now pid name kind callbacks taken 0 m.slots went in
      record {
        wf =
            subst (λ (p : Master × Option ℕ). IsWf p.0) e
              (alloc-IsWf now pid name kind callbacks m nz v.wf);
        is_stopped = state ∙ v.is_stopped;
        counted = omega (arith, num, space, v.wf.small, v.counted);
        sized = omega (arith, same, v.sized);
        found = λ other nzo. elim (Bool-cases (same_text other name)) [
          | inl own ↦
              let at =
                find-alloc now pid name kind callbacks m n i (1 ∷ name) nz
                  ((λ h. omega (arith, h)), nz) (longer-ne name) v.wf e in
              let is_own = same_text_sound other name own in
              let here : find_asset other n.slots ≡ some i =
                ap (λ x. find_asset x n.slots) is_own ∙ at.0 in
              ground (arith, own, here)
          | inr apart ↦
              let at =
                find-alloc now pid name kind callbacks m n i other nz nzo
                  (same_text_ne other name apart) v.wf e in
              ground (arith, apart, at.1, v.found other nzo)
        ];
      }

module _ (name : List ℕ) (room : ℕ) (r : Registry) (m : Master) where
  pub unregistered :
      (n : Master)
      → HasNoZero name
      → Represents room r m
      → free_asset name m ≡ (n, true)
      → Represents room (record { has = put name false r; count = r.count - 1 }) n
  unregistered n nz v e =
      let (i, at, is_n) = free-true name m n e in
      let fewer =
        find-free name (1 ∷ name) m n nz ((λ h. omega (arith, h)), nz) (longer-ne name) v.wf e in
      record {
        wf = subst (λ (p : Master × Bool). IsWf p.0) e (free-IsWf name m v.wf);
        is_stopped = ap (λ k. k.state) is_n ∙ v.is_stopped;
        counted = omega (arith, v.counted, fewer.2);
        sized = ap (λ k. length k.slots) is_n ∙ length-modify i vacate m.slots ∙ v.sized;
        found = λ other nzo. elim (Bool-cases (same_text other name)) [
          | inl own ↦
              let is_own = same_text_sound other name own in
              let gone : find_asset other n.slots ≡ none =
                ap (λ x. find_asset x n.slots) is_own ∙ fewer.0 in
              ground (arith, own, gone)
          | inr apart ↦
              let kept = find-free name other m n nz nzo (same_text_ne other name apart) v.wf e in
              ground (arith, apart, kept.1, v.found other nzo)
        ];
      }
