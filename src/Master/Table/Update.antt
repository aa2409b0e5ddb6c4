-- ===== src/Master/Table/Update.antt =====
-- Changes of slots that keep the assets' names, types and ids (hako_master_data.hpp).
use hakoniwa_core_cpp.Prelude.{
  ℕ, zero, suc, List, [], ◌∷◌, length, some, get_elem?, All, map, ◌≡◌, refl, ◌∙◌, arith,
}
use hakoniwa_core_cpp.FixedString.{fixed_to_string}
use hakoniwa_core_cpp.Master.Types.{Slot, modify, used}
use hakoniwa_core_cpp.Master.Assets.{find_asset}
use hakoniwa_core_cpp.Master.Table.{IsTable}

-- A change of a slot that is not about its identity.
abbrev pub KeepsIdentity : (Slot → Slot) → Type 0
KeepsIdentity f = (s : Slot) → ((f s).kind ≡ s.kind) × ((f s).id ≡ s.id) × ((f s).name ≡ s.name)

pub find-modify :
    (f : Slot → Slot)
    → KeepsIdentity f
    → (n : List ℕ) (i : ℕ) (ss : List Slot) → find_asset n (modify i f ss) ≡ find_asset n ss
unfolding find_asset
find-modify f same n i [] = refl
find-modify f same n zero (s ∷ ss) = ground (arith, same s)
find-modify f same n (suc i) (s ∷ ss) = ground (arith, find-modify f same n i ss)

pub modify-IsTable :
    (f : Slot → Slot)
    → KeepsIdentity f
    → (k i : ℕ) (ss : List Slot) → IsTable k ss
    → IsTable k (modify i f ss)
modify-IsTable f same k i [] t = tt
modify-IsTable f same k zero (s ∷ ss) t = let (kind, id, name) = same s in rw (kind, id, name) t
modify-IsTable f same k (suc i) (s ∷ ss) t = (
  t.0,
  (λ u. find-modify f same (fixed_to_string s.name) i ss ∙ t.1 u),
  modify-IsTable f same (suc k) i ss t.2,
)

pub All-modify {κ} :
    (P : Slot → Type κ) (f : Slot → Slot) (i : ℕ) (ss : List Slot)
    → All P ss
    → ((s : Slot) → get_elem? ss i ≡ some s → P (f s))
    → All P (modify i f ss)
All-modify P f i [] a h = tt
All-modify P f zero (s ∷ ss) a h = (h s refl, a.1)
All-modify P f (suc i) (s ∷ ss) a h = (a.0, All-modify P f i ss a.1 h)

pub find-map :
    (f : Slot → Slot)
    → KeepsIdentity f
    → (n : List ℕ) (ss : List Slot) → find_asset n (map f ss) ≡ find_asset n ss
unfolding find_asset
find-map f same n [] = refl
find-map f same n (s ∷ ss) = ground (arith, same s, find-map f same n ss)

pub map-IsTable :
    (f : Slot → Slot)
    → KeepsIdentity f
    → (k : ℕ) (ss : List Slot) → IsTable k ss
    → IsTable k (map f ss)
map-IsTable f same k [] t = tt
map-IsTable f same k (s ∷ ss) t =
    let (kind, id, name) = same s in
    rw (kind, id, name, find-map f same (fixed_to_string s.name) ss)
      (t.0, t.1, map-IsTable f same (suc k) ss t.2)

pub used-map :
    (f : Slot → Slot)
    → KeepsIdentity f
    → (ss : List Slot) → (used (map f ss) ≡ used ss) × (length (map f ss) ≡ length ss)
unfolding used
used-map f same [] = (refl, refl)
used-map f same (s ∷ ss) = ground (arith, same s, used-map f same ss)
