-- ===== src/Controller/Times.antt =====
-- The smallest time of the assets (`get_min_asset_time` of hako_asset_impl.cpp).
use hakoniwa_core_cpp.Prelude.{
  ℤ, ltb_ℤ, ◌≤ℤ◌, Bool-cases, inl, inr, ◌⊎◌, List, [], ◌∷◌, ◌≡◌, refl, arith, All, subst, sym, ◌∙◌,
  if◌then◌else◌, eq_of_parts,
}
use hakoniwa_core_cpp.Master.Assets.{get_asset_times}
use hakoniwa_core_cpp.Controller.{Session, min_from, min_time, get_min_asset_time, int64_max}

-- One of the elements is it.
abbrev pub Occurs : ℤ → List ℤ → Type 0
Occurs t [] = ⊥
Occurs t (u ∷ us) = (t ≡ u) ⊎ Occurs t us

abbrev lower : ℤ → ℤ → ℤ
lower t least = if ltb_ℤ t least then t else least

lower-le : (t least : ℤ) → (lower t least ≤ℤ t) × (lower t least ≤ℤ least)
lower-le t least = ground arith

min_from-le : (least : ℤ) (ts : List ℤ) → min_from least ts ≤ℤ least
unfolding min_from
min_from-le least [] = omega arith
min_from-le least (t ∷ ts) = omega (arith, min_from-le (lower t least) ts, (lower-le t least).1)

min_from-le_all : (least : ℤ) (ts : List ℤ) → All (λ t. min_from least ts ≤ℤ t) ts
unfolding min_from
min_from-le_all least [] = tt
min_from-le_all least (t ∷ ts) = (
  omega (arith, min_from-le (lower t least) ts, (lower-le t least).0),
  min_from-le_all (lower t least) ts,
)

lower-cases : (t least : ℤ) → (lower t least ≡ t) ⊎ (lower t least ≡ least)
lower-cases t least = elim (Bool-cases (ltb_ℤ t least)) [
  | inl lt ↦ inl (rw lt refl)
  | inr ge ↦ inr (rw ge refl)
]

min_from-Occurs :
    (least : ℤ) (ts : List ℤ) → (min_from least ts ≡ least) ⊎ Occurs (min_from least ts) ts
unfolding min_from
min_from-Occurs least [] = inl refl
min_from-Occurs least (t ∷ ts) = elim (min_from-Occurs (lower t least) ts) [
  | inr o ↦ inr (inr o)
  | inl e ↦ elim (lower-cases t least) [
    | inl is_t ↦ inr (inl (e ∙ is_t))
    | inr kept ↦ inl (e ∙ kept)
  ]
]

-- No element is less, and one of them is it.
abbrev pub IsLeast : List ℤ → ℤ → Type 0
IsLeast ts t = All (λ u. t ≤ℤ u) ts × Occurs t ts

min_time-IsLeast : (t : ℤ) (ts : List ℤ) → t ≤ℤ int64_max → IsLeast (t ∷ ts) (min_time (t ∷ ts))
unfolding min_time
min_time-IsLeast t ts small =
    let all = min_from-le_all int64_max (t ∷ ts) in
    (
      all,
      elim (min_from-Occurs int64_max (t ∷ ts)) [
        | inr o ↦ o
        | inl top ↦
            let below : int64_max ≤ℤ t = subst (λ m. m ≤ℤ t) top all.0 in
            inl (top ∙ eq_of_parts int64_max t (omega arith))
      ],
    )

-- Where there is an asset, and no time is beyond what 64 bits hold, the smallest time is the time of an
-- asset, and no asset's time is less.
pub get_min_asset_time-IsLeast :
    (s : Session) (t : ℤ) (ts : List ℤ)
    → get_asset_times s.master.slots ≡ t ∷ ts
    → t ≤ℤ int64_max
    → IsLeast (t ∷ ts) (get_min_asset_time s)
unfolding get_min_asset_time
get_min_asset_time-IsLeast s t ts e small =
    subst (λ us. IsLeast (t ∷ ts) (min_time us)) (sym e) (min_time-IsLeast t ts small)
