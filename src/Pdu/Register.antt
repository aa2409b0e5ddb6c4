-- ===== src/Pdu/Register.antt =====
-- Making a channel by name (`create_lchannel` of hako_pdu_data.hpp).
use hakoniwa_core_cpp.Prelude.{
  ℕ, zero, suc, ◌+◌, ◌≤◌, ◌<◌, ℤ, true, false, List, [], ◌∷◌, ◌++◌, length, take, get_elem?, none,
  some, ◌≡◌, ◌≢◌, refl, ap, ◌∙◌, arith, inl, inr, Option-cases, length-take, take-set,
}
use hakoniwa_core_cpp.FixedString.{FixedString, string_to_fixed, matches, fixed_strlen_max}
use hakoniwa_core_cpp.FixedString.Laws.{HasNoZero}
use hakoniwa_core_cpp.Master.Table.{matches-stored}
use hakoniwa_core_cpp.Pdu.Types.{ChannelMap, CacheEntry, Pdu, returns}
use hakoniwa_core_cpp.Pdu.Channels.{
  cache_find, entry_matches, scan, entries, get_pdu_channel, add_lchannel, create_lchannel, size_at,
}
use hakoniwa_core_cpp.Pdu.Cache.{
  IsCoherent, cache_find-scan, emplace-IsCoherent, get_pdu_channel-scan, scan-new,
  append-IsCoherent,
}

entries-add :
    (name : List ℕ) (id : ℤ) (size : ℕ) (p : Pdu)
    → p.meta.channel_num < length p.meta.channel_map
    → (m : ChannelMap) × (entries (add_lchannel name id size p).meta ≡ entries p.meta ++ m ∷ [])
      × (m.logical_id ≡ id)
      × ((dst : FixedString) × (m.robo_name ≡ string_to_fixed name dst))
unfolding add_lchannel
entries-add name id size p room =
    elim (Option-cases (get_elem? p.meta.channel_map p.meta.channel_num)) [
      | inl out ↦ absurd (beyond p.meta.channel_map p.meta.channel_num out room)
      | inr (old, at) ↦
          let m : ChannelMap = record {
            robo_name = string_to_fixed name old.robo_name;
            logical_id = id;
          } in
          let next : p.meta.channel_num + 1 ≡ suc p.meta.channel_num = omega arith in
          (
            m,
            rw (add_lchannel, at, next) (take-set p.meta.channel_num p.meta.channel_map m room),
            refl,
            (old.robo_name, refl),
          )
    ]
  where
    beyond : (xs : List ChannelMap) (n : ℕ) → get_elem? xs n ≡ none → n < length xs → ⊥
    beyond [] n e h = omega arith
    beyond (x ∷ xs) zero e h = cc
    beyond (x ∷ xs) (suc n) e h = beyond xs n e (omega arith)

length-entries : (n : ℕ) (xs : List ChannelMap) → n ≤ length xs → length (take n xs) ≡ n
length-entries n xs h = length-take n xs h

-- What has to hold for a new channel to be made.
pub record MayCreate (name : List ℕ) (id : ℤ) (p : Pdu) : Type 0 where
  pub short : length name < fixed_strlen_max
  pub plain : HasNoZero name
  pub is_free : p.meta.table_busy ≡ false
  pub coherent : IsCoherent (entries p.meta) p.cache
  pub is_new : scan name id (entries p.meta) ≡ none
  pub map_room : p.meta.channel_num < length p.meta.channel_map
  pub room : p.meta.channel_num < length p.meta.channel
  pub unused : size_at p.meta.channel_num p.meta.channel ≡ 0

lookup_new :
    (name : List ℕ) (id : ℤ) (p : Pdu)
    → IsCoherent (entries p.meta) p.cache
    → scan name id (entries p.meta) ≡ none
    → get_pdu_channel name id p ≡ (p, none)
unfolding get_pdu_channel
lookup_new name id p v gone = elim (Option-cases (cache_find name id p.cache)) [
  | inr (i, there) ↦ cc (cache_find-scan name id (entries p.meta) p.cache i v there, gone)
  | inl no_hit ↦ rw (no_hit, gone, get_pdu_channel) refl
]

scan-add :
    (name : List ℕ) (id : ℤ) (size : ℕ) (p : Pdu)
    → MayCreate name id p
    → scan name id (entries (add_lchannel name id size p).meta) ≡ some p.meta.channel_num
scan-add name id size p v =
    let (m, grown, same_id, (dst, same_name)) = entries-add name id size p v.map_room in
    let hit : entry_matches name id m ≡ true = ground (
      arith,
      same_id,
      ap (λ n. matches n name) same_name,
      (matches-stored name name dst v.plain).1 refl,
    ) in
    let n : length (entries p.meta) ≡ p.meta.channel_num =
      length-entries p.meta.channel_num p.meta.channel_map (omega (arith, v.map_room)) in
    ap (scan name id) grown ∙ scan-new name id (entries p.meta) m v.is_new hit ∙ ap some n

add-IsCoherent :
    (name : List ℕ) (id : ℤ) (size : ℕ) (p : Pdu)
    → MayCreate name id p
    → IsCoherent (entries (add_lchannel name id size p).meta) (add_lchannel name id size p).cache
unfolding add_lchannel
add-IsCoherent name id size p v =
    let (m, grown, _, _) = entries-add name id size p v.map_room in
    emplace-IsCoherent name id p.meta.channel_num (entries (add_lchannel name id size p).meta)
      p.cache (rw grown (append-IsCoherent (entries p.meta) m p.cache v.coherent))
      (scan-add name id size p v)

create-add :
    (name : List ℕ) (id : ℤ) (size : ℕ) (p : Pdu)
    → MayCreate name id p
    → create_lchannel name id size p ≡ returns (add_lchannel name id size p, true)
unfolding create_lchannel
create-add name id size p v =
    rw (lookup_new name id p v.coherent v.is_new)
      (ground (arith, v.short, v.is_free, v.room, v.unused))

-- A channel with a new name and id, of which the table has room, is made: afterwards the table gives the
-- next index for it, and a lookup in the process that made it gives this index too.
pub get-create_lchannel :
    (name : List ℕ) (id : ℤ) (size : ℕ) (p : Pdu)
    → MayCreate name id p
    → (q : Pdu) × (create_lchannel name id size p ≡ returns (q, true))
      × (scan name id (entries q.meta) ≡ some p.meta.channel_num)
      × ((get_pdu_channel name id q).1 ≡ some p.meta.channel_num)
get-create_lchannel name id size p v = (
  add_lchannel name id size p,
  create-add name id size p v,
  scan-add name id size p v,
  (get_pdu_channel-scan name id (add_lchannel name id size p) (add-IsCoherent name id size p v)).0
      ∙ scan-add name id size p v,
)

-- Caches of other processes stay right: a new channel does not change what the table gives for names
-- that were found before.
pub create_lchannel-others :
    (name : List ℕ) (id : ℤ) (size : ℕ) (p : Pdu) (theirs : List CacheEntry)
    → MayCreate name id p
    → IsCoherent (entries p.meta) theirs
    → (q : Pdu) × (create_lchannel name id size p ≡ returns (q, true))
      × IsCoherent (entries q.meta) theirs
create_lchannel-others name id size p theirs v w =
    let (m, grown, _, _) = entries-add name id size p v.map_room in
    (
      add_lchannel name id size p,
      create-add name id size p v,
      rw grown (append-IsCoherent (entries p.meta) m theirs w),
    )

-- Where the slot of the next channel has a size already, `create_lchannel` answers `true` for a new
-- name, and makes no channel: the name is not found afterwards.
pub create_lchannel-taken :
    (name : List ℕ) (id : ℤ) (size : ℕ) (p : Pdu)
    → length name < fixed_strlen_max
    → p.meta.table_busy ≡ false
    → IsCoherent (entries p.meta) p.cache
    → scan name id (entries p.meta) ≡ none
    → p.meta.channel_num < length p.meta.channel
    → size_at p.meta.channel_num p.meta.channel ≢ 0
    → (create_lchannel name id size p ≡ returns (p, true)) × (get_pdu_channel name id p ≡ (p, none))
unfolding create_lchannel
create_lchannel-taken name id size p short is_free v is_new room taken =
    let gone = lookup_new name id p v is_new in (rw gone (ground arith), gone)
