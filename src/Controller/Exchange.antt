-- ===== src/Controller/Exchange.antt =====
-- Assets that exchange data by the names of channels (`write_pdu`, `read_pdu` and `is_pdu_dirty` of
-- hako_asset_impl.cpp).
use hakoniwa_core_cpp.Prelude.{
  ℕ, ◌<◌, ◌≤◌, ◌^◌, ℤ, true, false, List, [], length, Option, none, some, ◌≡◌, ap, sym, ◌∙◌, subst,
}
use hakoniwa_core_cpp.Master.Types.{Slot}
use hakoniwa_core_cpp.Master.Assets.{find_asset}
use hakoniwa_core_cpp.Master.Table.{IsTable}
use hakoniwa_core_cpp.Pdu.Types.{CacheEntry, Pdu, Env, returns, faults}
use hakoniwa_core_cpp.Pdu.Channels.{size_at, scan, entries}
use hakoniwa_core_cpp.Pdu.Transfer
use hakoniwa_core_cpp.Pdu.Transfer.{is_pdu_rbusy, mark_written}
use hakoniwa_core_cpp.Pdu.Layout.{IsReady}
use hakoniwa_core_cpp.Pdu.RoundTrip.{write_pdu-Written}
use hakoniwa_core_cpp.Pdu.Sharing.{elsewhere, read-elsewhere}
use hakoniwa_core_cpp.Pdu.Cache.{IsCoherent}
use hakoniwa_core_cpp.Controller.{Session, slot_of, on_pdu, write_pdu, read_pdu, is_pdu_dirty}
use hakoniwa_core_cpp.Controller.Naming.{slot_of-found, slot_of-none, on_channel-found}

write-found :
    (env : Env) (name robo : List ℕ) (id : ℤ) (bytes : List ℕ) (s : Session) (x : Slot) (c : ℕ)
    → slot_of name s.master ≡ some x
    → IsCoherent (entries s.pdu.meta) s.pdu.cache
    → scan robo id (entries s.pdu.meta) ≡ some c
    → (cache : List CacheEntry) × (write_pdu env name robo id bytes s
        ≡ on_pdu s (Transfer.write_pdu env c bytes (record s.pdu { cache = cache })))
unfolding write_pdu
write-found env name robo id bytes s x c e v at =
    let (cache, did) =
      on_channel-found s robo id false (λ c. Transfer.write_pdu env c bytes) c v at in
    (cache, rw (write_pdu, slot_of, e) did)

read-found :
    (env : Env) (name robo : List ℕ) (id : ℤ) (len : ℕ) (s : Session) (x : Slot) (c : ℕ)
    → slot_of name s.master ≡ some x
    → IsCoherent (entries s.pdu.meta) s.pdu.cache
    → scan robo id (entries s.pdu.meta) ≡ some c
    → (cache : List CacheEntry) × (read_pdu env name robo id len s
        ≡ on_pdu s (Transfer.read_pdu env x.id c len (record s.pdu { cache = cache })))
unfolding read_pdu
read-found env name robo id len s x c e v at =
    let (cache, did) =
      on_channel-found s robo id none (λ c. Transfer.read_pdu env x.id c len) c v at in
    (cache, rw (read_pdu, slot_of, e) did)

-- A write leaves the entries of the table.
write-entries :
    (env : Env) (c : ℕ) (bytes : List ℕ) (p q : Pdu) (v : IsReady p)
    → c < length p.meta.channel
    → length bytes ≤ size_at c p.meta.channel
    → is_pdu_rbusy c p.meta ≡ false
    → Transfer.write_pdu env c bytes p ≡ returns (q, true)
    → entries q.meta ≡ entries p.meta
unfolding mark_written
write-entries env c bytes p q v h fits free wrote =
    let (r, did, w) = write_pdu-Written env c bytes p v h fits free in
    let same : r ≡ q = cc in ap (λ (x : Pdu). entries x.meta) (sym same) ∙ ap entries w.marked

cache-IsReady :
    (cache : List CacheEntry) (p : Pdu) → IsReady p → IsReady (record p { cache = cache })
cache-IsReady cache p v = record {
  bytes = v.bytes;
  is_attached = v.is_attached;
  has_area = v.has_area;
  laid_out = v.laid_out;
  fits = v.fits;
}

-- What is written is read by any process, whatever its cache.
read_by_all :
    (env : Env) (a c : ℕ) (bytes : List ℕ) (p : Pdu) (v : IsReady p)
    → env.init_lock ≡ true
    → length v.bytes < 2 ^ 64
    → c < length p.meta.channel
    → 0 < length bytes
    → length bytes ≤ size_at c p.meta.channel
    → is_pdu_rbusy c p.meta ≡ false
    → (q : Pdu) × (Transfer.write_pdu env c bytes p ≡ returns (q, true))
      × (entries q.meta ≡ entries p.meta)
      × ((cache : List CacheEntry)
          → (r : Pdu) × (Transfer.read_pdu env a c (length bytes) (elsewhere cache q)
              ≡ returns (r, some bytes)))
read_by_all env a c bytes p v lock small h some_bytes fits free =
    let (q, _, wrote, _) = read-elsewhere env a c bytes [] p v lock small h some_bytes fits free in
    (
      q,
      wrote,
      write-entries env c bytes p q v h fits free wrote,
      λ cache.
          let (q', r, wrote', back) =
            read-elsewhere env a c bytes cache p v lock small h some_bytes fits free in
          let same : q' ≡ q = cc in
          (
            r,
            subst
                (λ x.
                  Transfer.read_pdu env a c (length bytes) (elsewhere cache x)
                  ≡ returns (r, some bytes))
                same back,
          ),
    )

read_named :
    (env : Env) (reader robo : List ℕ) (id : ℤ) (bytes : List ℕ) (t : Session)
    (cache : List CacheEntry) (y : Slot) (c : ℕ) (q : Pdu)
    → slot_of reader t.master ≡ some y
    → IsCoherent (entries q.meta) cache
    → scan robo id (entries q.meta) ≡ some c
    → ((cache : List CacheEntry)
        → (r : Pdu) × (Transfer.read_pdu env y.id c (length bytes) (elsewhere cache q)
            ≡ returns (r, some bytes)))
    → (t' : Session) × (read_pdu env reader robo id
          (length bytes)
          (record t { pdu = elsewhere cache q })
        ≡ returns (t', some bytes))
read_named env reader robo id bytes t cache y c q e v at all =
    let (c2, got) =
      read-found env reader robo id (length bytes) (record t { pdu = elsewhere cache q }) y c e v
        at in
    let (r, back) = all c2 in
    (record t { pdu = r }, got ∙ ap (on_pdu (record t { pdu = elsewhere cache q })) back)

-- Two assets in two processes that share the table of assets and the area, each with a cache that
-- agrees with the table of channels: what one writes to a channel by its name, to a size that fits,
-- where no reader is in the way, the other, whose process has not mapped the area, reads by this name.
-- The area has a region for each channel and less than 2^64 bytes.
pub read-write_named :
    (env : Env) (writer reader robo : List ℕ) (id : ℤ) (bytes : List ℕ) (s t : Session)
    (cache : List CacheEntry) (i j c : ℕ) (v : IsReady s.pdu)
    → IsTable 0 s.master.slots
    → find_asset writer s.master.slots ≡ some i
    → find_asset reader s.master.slots ≡ some j
    → IsCoherent (entries s.pdu.meta) s.pdu.cache
    → IsCoherent (entries s.pdu.meta) cache
    → scan robo id (entries s.pdu.meta) ≡ some c
    → env.init_lock ≡ true
    → length v.bytes < 2 ^ 64
    → c < length s.pdu.meta.channel
    → 0 < length bytes
    → length bytes ≤ size_at c s.pdu.meta.channel
    → is_pdu_rbusy c s.pdu.meta ≡ false
    → (s' t' : Session) × (write_pdu env writer robo id bytes s ≡ returns (s', true))
      × (read_pdu env reader robo id
            (length bytes)
            (record t { master = s'.master; pdu = elsewhere cache s'.pdu })
          ≡ returns (t', some bytes))
unfolding cache-IsReady
read-write_named env writer reader robo id bytes s t cache i j c v tbl wi rj vs vt at lock small hc
      pos_len fits free =
    let (x, ex, _, _) = slot_of-found writer s.master i tbl wi in
    let (y, ey, _, _) = slot_of-found reader s.master j tbl rj in
    let (c1, did) = write-found env writer robo id bytes s x c ex vs at in
    let (q, wrote, same, all) =
      read_by_all env y.id c bytes (record s.pdu { cache = c1 }) (cache-IsReady c1 s.pdu v) lock
        small hc pos_len fits free in
    let (t', got) =
      read_named env reader robo id bytes (record t { master = s.master }) cache y c q ey
        (subst (λ e. IsCoherent e cache) (sym same) vt) (ap (scan robo id) same ∙ at) all in
    (record s { pdu = q }, t', did ∙ ap (on_pdu s) wrote, got)

-- The test of a channel that the table has, in the name of an asset that the table does not have,
-- reads through a null pointer. The cache agrees with the table of channels.
pub is_pdu_dirty_unknown :
    (name robo : List ℕ) (id : ℤ) (s : Session) (c : ℕ)
    → find_asset name s.master.slots ≡ none
    → IsCoherent (entries s.pdu.meta) s.pdu.cache
    → scan robo id (entries s.pdu.meta) ≡ some c
    → is_pdu_dirty name robo id s ≡ faults
unfolding is_pdu_dirty
is_pdu_dirty_unknown name robo id s c gone v at =
    let (cache, did) =
      on_channel-found s robo id false
        (λ c p. elim (slot_of name s.master) [
          | none ↦ faults
          | some asset ↦ returns (p, Transfer.is_pdu_dirty asset.id c p.meta)
        ])
        c v at in
    did
    ∙ ap
        (λ (o : Option Slot). on_pdu s (elim o [
          | none ↦ faults
          | some asset ↦
              returns (record s.pdu { cache = cache }, Transfer.is_pdu_dirty asset.id c s.pdu.meta)
        ]))
        (slot_of-none name s.master gone)
