-- ===== src/Controller/Naming.antt =====
-- How the calls of hako_asset_impl.cpp find an asset and a channel by their names.
use hakoniwa_core_cpp.Prelude.{
  ℕ, ℤ, List, none, some, ◌≡◌, refl, ◌∙◌, arith, Option-cases, inl, inr,
}
use hakoniwa_core_cpp.Master.Types.{Slot, Master}
use hakoniwa_core_cpp.Master.Assets.{find_asset, get_asset}
use hakoniwa_core_cpp.Master.Table.{IsTable, IsTable-IsSlot, find_asset-found}
use hakoniwa_core_cpp.Pdu.Types.{CacheEntry, Pdu, Outcome}
use hakoniwa_core_cpp.Pdu.Channels.{scan, entries, cache_find, cache_emplace, get_pdu_channel}
use hakoniwa_core_cpp.Pdu.Cache.{IsCoherent, get_pdu_channel-scan}
use hakoniwa_core_cpp.Controller.{Session, slot_of, on_pdu, on_channel}

-- In a table the slot of an asset that is found has the index as its id.
pub slot_of-found :
    (name : List ℕ) (m : Master) (i : ℕ)
    → IsTable 0 m.slots
    → find_asset name m.slots ≡ some i
    → (s : Slot) × (slot_of name m ≡ some s) × (s.id ≡ i) × (get_asset i m.slots ≡ some s)
unfolding get_asset
slot_of-found name m i t e =
    let (s, here, full, _) = find_asset-found name m.slots i e in
    let id : s.id ≡ i = (IsTable-IsSlot 0 i m.slots t here full).0 ∙ omega arith in
    (s, ground arith, id, ground arith)

pub slot_of-none :
    (name : List ℕ) (m : Master) → find_asset name m.slots ≡ none → slot_of name m ≡ none
slot_of-none name m e = rw (slot_of, e) refl

-- A lookup changes the cache only.
lookup-cache :
    (name : List ℕ) (id : ℤ) (p : Pdu)
    → (cache : List CacheEntry) × ((get_pdu_channel name id p).0 ≡ record p { cache = cache })
unfolding get_pdu_channel
lookup-cache name id p = elim (Option-cases (cache_find name id p.cache)) [
  | inr (i, there) ↦ (p.cache, ground arith)
  | inl gone ↦ elim (Option-cases (scan name id (entries p.meta))) [
    | inl absent ↦ (p.cache, ground arith)
    | inr (i, at) ↦ (cache_emplace name id i p.cache, ground arith)
  ]
]

-- A call on a channel that the table has.
pub on_channel-found {ℓ} :
    {A : Type ℓ} (s : Session) (robo : List ℕ) (id : ℤ) (missing : A)
    (call : ℕ → Pdu → Outcome (Pdu × A)) (c : ℕ)
    → IsCoherent (entries s.pdu.meta) s.pdu.cache
    → scan robo id (entries s.pdu.meta) ≡ some c
    → (cache : List CacheEntry) × (on_channel s robo id missing call
        ≡ on_pdu s (call c (record s.pdu { cache = cache })))
on_channel-found s robo id missing call c v at =
    let (cache, left) = lookup-cache robo id s.pdu in
    let found : (get_pdu_channel robo id s.pdu).1 ≡ some c =
      (get_pdu_channel-scan robo id s.pdu v).0 ∙ at in
    (cache, rw (on_channel, found, left) refl)
