-- ===== src/Pdu/Cache.antt =====
-- The cache of channel lookups (`pdu_channel_index_` of hako_pdu_data.hpp): a lookup with it and the
-- search of the shared table.
use hakoniwa_core_cpp.Prelude.{
  ℕ, ℤ, eqb_ℤ, true, ◌&&◌, List, [], ◌∷◌, ◌++◌, length, none, some, ◌≡◌, refl, sym, arith, inl, inr,
  Option-cases, Bool-cases, All,
}
use hakoniwa_core_cpp.Pdu.Types.{ChannelMap, CacheEntry, Pdu}
use hakoniwa_core_cpp.Pdu.Channels.{
  bytes_eq, cache_find, cache_emplace, entry_matches, scan, entries, get_pdu_channel,
}

bytes_eq_sound : (xs ys : List ℕ) → bytes_eq xs ys ≡ true → xs ≡ ys
unfolding bytes_eq
bytes_eq_sound [] [] e = refl
bytes_eq_sound [] (y ∷ ys) e = cc
bytes_eq_sound (x ∷ xs) [] e = cc
bytes_eq_sound (x ∷ xs) (y ∷ ys) e = ground (arith, bytes_eq_sound xs ys)

bytes_eq_refl : (xs : List ℕ) → bytes_eq xs xs ≡ true
unfolding bytes_eq
bytes_eq_refl [] = refl
bytes_eq_refl (x ∷ xs) = ground (arith, bytes_eq_refl xs)

-- What the cache holds is what the search of the table gives.
abbrev pub IsCoherent : List ChannelMap → List CacheEntry → Type 0
IsCoherent ms = All (λ e. scan e.robo_name e.logical_id ms ≡ some e.real_id)

pub cache_find-scan :
    (name : List ℕ) (id : ℤ) (ms : List ChannelMap) (es : List CacheEntry) (i : ℕ)
    → IsCoherent ms es
    → cache_find name id es ≡ some i
    → scan name id ms ≡ some i
unfolding cache_find
cache_find-scan name id ms [] i v e = cc
cache_find-scan name id ms (x ∷ es) i v e =
    elim (Bool-cases (eqb_ℤ x.logical_id id && bytes_eq x.robo_name name)) [
      | inl hit ↦
          let same_id : x.logical_id ≡ id = ground arith in
          let same_name : x.robo_name ≡ name = bytes_eq_sound x.robo_name name (ground arith) in
          let same_real : x.real_id ≡ i = ground arith in rw (same_id, same_name, same_real) at v.0
      | inr miss ↦ cache_find-scan name id ms es i v.1 (ground arith)
    ]

pub emplace-IsCoherent :
    (name : List ℕ) (id : ℤ) (i : ℕ) (ms : List ChannelMap) (es : List CacheEntry)
    → IsCoherent ms es
    → scan name id ms ≡ some i
    → IsCoherent ms (cache_emplace name id i es)
unfolding cache_emplace
emplace-IsCoherent name id i ms es v e = elim (Option-cases (cache_find name id es)) [
  | inl none_there ↦ rw (none_there, cache_emplace) (e, v)
  | inr (r, there) ↦ rw (there, cache_emplace) v
]

-- With a cache whose entries agree with the table, a lookup gives the answer of the search, and the
-- cache it leaves agrees with the table too.
pub get_pdu_channel-scan :
    (name : List ℕ) (id : ℤ) (p : Pdu)
    → IsCoherent (entries p.meta) p.cache
    → ((get_pdu_channel name id p).1 ≡ scan name id (entries p.meta))
      × IsCoherent (entries p.meta) (get_pdu_channel name id p).0.cache
unfolding get_pdu_channel
get_pdu_channel-scan name id p v = elim (Option-cases (cache_find name id p.cache)) [
  | inr (i, there) ↦
      rw (there, get_pdu_channel)
        (sym (cache_find-scan name id (entries p.meta) p.cache i v there), v)
  | inl no_hit ↦ elim (Option-cases (scan name id (entries p.meta))) [
    | inl gone ↦ rw (no_hit, gone, get_pdu_channel) (refl, v)
    | inr (i, at) ↦
        rw (no_hit, at, get_pdu_channel)
          (refl, emplace-IsCoherent name id i (entries p.meta) p.cache v at)
  ]
]

scan-append :
    (name : List ℕ) (id : ℤ) (ms : List ChannelMap) (m : ChannelMap) (i : ℕ)
    → scan name id ms ≡ some i
    → scan name id (ms ++ m ∷ []) ≡ some i
unfolding scan
scan-append name id [] m i e = cc
scan-append name id (x ∷ ms) m i e = elim (Option-cases (scan name id ms)) [
  | inl gone ↦ ground arith
  | inr (j, at) ↦ let more = scan-append name id ms m j at in ground arith
]

pub scan-new :
    (name : List ℕ) (id : ℤ) (ms : List ChannelMap) (m : ChannelMap)
    → scan name id ms ≡ none
    → entry_matches name id m ≡ true
    → scan name id (ms ++ m ∷ []) ≡ some (length ms)
unfolding scan
scan-new name id [] m e hit = ground arith
scan-new name id (x ∷ ms) m e hit = elim (Option-cases (scan name id ms)) [
  | inl gone ↦ let more = scan-new name id ms m gone hit in ground arith
  | inr (j, at) ↦ ground arith
]

pub append-IsCoherent :
    (ms : List ChannelMap) (m : ChannelMap) (es : List CacheEntry)
    → IsCoherent ms es
    → IsCoherent (ms ++ m ∷ []) es
append-IsCoherent ms m [] v = tt
append-IsCoherent ms m (e ∷ es) v =
    (scan-append e.robo_name e.logical_id ms m e.real_id v.0, append-IsCoherent ms m es v.1)
