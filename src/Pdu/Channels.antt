-- ===== src/Pdu/Channels.antt =====
-- hako_pdu_data.hpp: the table of channels, and the cache of lookups that each process keeps.
use hakoniwa_core_cpp.Prelude.{
  ℕ, suc, ◌+◌, ℤ, eqb_ℤ, Bool, true, false, ◌&&◌, ◌==◌, leb, if◌then◌else◌, List, [], ◌∷◌, length,
  take, set, get_elem?, Option, none, some,
}
use hakoniwa_core_cpp.FixedString.{string_to_fixed, fixed_to_string, matches, fixed_strlen_max}
use hakoniwa_core_cpp.Pdu.Types.{
  Channel, ChannelMap, Meta, CacheEntry, Pdu, Outcome, returns, spins,
}

-- `operator==` of `std::string`.
unfoldable pub bytes_eq : List ℕ → List ℕ → Bool
bytes_eq [] [] = true
bytes_eq [] (y ∷ ys) = false
bytes_eq (x ∷ xs) [] = false
bytes_eq (x ∷ xs) (y ∷ ys) = (x == y) && bytes_eq xs ys

-- `find` of the cache.
unfoldable pub cache_find : List ℕ → ℤ → List CacheEntry → Option ℕ
unfolding bytes_eq
cache_find name id [] = none
cache_find name id (e ∷ es) =
    let rest = cache_find name id es in
    if eqb_ℤ e.logical_id id && bytes_eq e.robo_name name then some e.real_id else rest

-- `emplace`, which keeps an entry that is there.
unfoldable pub cache_emplace : List ℕ → ℤ → ℕ → List CacheEntry → List CacheEntry
unfolding cache_find
cache_emplace name id real es = elim (cache_find name id es) [
  | none ↦ record { robo_name = name; logical_id = id; real_id = real } ∷ es
  | some r ↦ es
]

abbrev pub entry_matches : List ℕ → ℤ → ChannelMap → Bool
entry_matches name id m = eqb_ℤ m.logical_id id && matches m.robo_name name

-- The loop over the table: the first entry that matches.
unfoldable pub scan : List ℕ → ℤ → List ChannelMap → Option ℕ
scan name id [] = none
scan name id (m ∷ ms) =
    let rest : Option ℕ = elim (scan name id ms) [ none ↦ none | some i ↦ some (suc i) ] in
    if entry_matches name id m then some 0 else rest

-- The entries that are in use.
abbrev pub entries : Meta → List ChannelMap
entries m = take m.channel_num m.channel_map

-- The index, `none` for -1, with the cache as the call leaves it.
unfoldable pub get_pdu_channel : List ℕ → ℤ → Pdu → Pdu × Option ℕ
unfolding cache_find scan cache_emplace
get_pdu_channel name id p = elim (cache_find name id p.cache) [
  | some i ↦ (p, some i)
  | none ↦ elim (scan name id (entries p.meta)) [
    | none ↦ (p, none)
    | some i ↦ (record p { cache = cache_emplace name id i p.cache }, some i)
  ]
]

-- The loop of `rebuild_pdu_channel_index`, which skips entries with no name.
unfoldable pub index_from : ℕ → List ChannelMap → List CacheEntry → List CacheEntry
unfolding cache_emplace
index_from i [] es = es
index_from i (m ∷ ms) es = index_from (suc i) ms (
    if m.robo_name.len == 0
    then es
    else cache_emplace (fixed_to_string m.robo_name) m.logical_id i es)

unfoldable pub rebuild_pdu_channel_index : Pdu → Pdu
unfolding index_from
rebuild_pdu_channel_index p = record p { cache = index_from 0 (entries p.meta) [] }

abbrev pub size_at : ℕ → List Channel → ℕ
size_at i cs = elim (get_elem? cs i) [ none ↦ 0 | some c ↦ c.size ]

abbrev pub set_size : ℕ → ℕ → List Channel → List Channel
set_size i n cs = elim (get_elem? cs i) [ none ↦ cs | some c ↦ set cs i (record c { size = n }) ]

unfoldable pub create_channel : ℕ → ℕ → Pdu → Outcome (Pdu × Bool)
create_channel id size p =
    if leb (length p.meta.channel) id
    then returns (p, false)
    else if p.meta.table_busy
    then spins
    else if size_at id p.meta.channel == 0
    then returns (
      record p {
        meta = record p.meta {
          channel = set_size id size p.meta.channel;
          channel_num = p.meta.channel_num + 1;
        };
      },
      true,
    )
    else returns (p, false)

-- What `create_lchannel` writes for the new channel.
unfoldable pub add_lchannel : List ℕ → ℤ → ℕ → Pdu → Pdu
unfolding cache_emplace
add_lchannel name id size p =
    let new_id = p.meta.channel_num in
    let entry : ChannelMap = elim (get_elem? p.meta.channel_map new_id) [
      | none ↦ record {
        robo_name = string_to_fixed name (record { len = 0; chars = [] });
        logical_id = id;
      }
      | some old ↦ record { robo_name = string_to_fixed name old.robo_name; logical_id = id }
    ] in
    record p {
      meta = record p.meta {
        channel_map = set p.meta.channel_map new_id entry;
        channel = set_size new_id size p.meta.channel;
        channel_num = p.meta.channel_num + 1;
      };
      cache = cache_emplace name id new_id p.cache;
    }

unfoldable pub create_lchannel : List ℕ → ℤ → ℕ → Pdu → Outcome (Pdu × Bool)
unfolding get_pdu_channel add_lchannel
create_lchannel name id size p =
    if leb fixed_strlen_max (length name)
    then returns (p, false)
    else if p.meta.table_busy
    then spins
    else let (q, found) = get_pdu_channel name id p in
      elim found [
        | some i ↦ returns (q, true)
        | none ↦
            if leb (length q.meta.channel) q.meta.channel_num
            then returns (q, false)
            else if size_at q.meta.channel_num q.meta.channel == 0
            then returns (add_lchannel name id size q, true)
            else returns (q, true)
      ]
