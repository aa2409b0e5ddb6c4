-- ===== src/Pdu/Sharing.antt =====
-- The area as other processes see it, and after a reset (`load` and `reset` of hako_pdu_data.hpp).
use hakoniwa_core_cpp.Prelude.{
  ℕ, ◌≤◌, ◌<◌, ◌^◌, Bool, true, false, List, length, some, ◌≡◌, refl, ap, ◌∙◌, arith,
}
use hakoniwa_core_cpp.Pdu.Types.{Meta, Pdu, Env, returns, CacheEntry}
use hakoniwa_core_cpp.Pdu.Channels.{size_at, rebuild_pdu_channel_index}
use hakoniwa_core_cpp.Pdu.Area.{pdu_total_size, load}
use hakoniwa_core_cpp.Pdu.Transfer.{is_pdu_rbusy, write_pdu, read_pdu, mark_read, mark_written}
use hakoniwa_core_cpp.Pdu.Layout.{IsReady, IsReady-inside, sum_sizes, pdu_total_size-sum}
use hakoniwa_core_cpp.Pdu.RoundTrip.{Written, write_pdu-Written, read_after}

-- Another process, which has not mapped the area: it shares all but its cache.
abbrev pub elsewhere : List CacheEntry → Pdu → Pdu
elsewhere cache p = record p { attached = false; cache = cache }

pub total-sum : (m : Meta) → sum_sizes m.channel < 2 ^ 64 → pdu_total_size m ≡ sum_sizes m.channel
total-sum m h = ground (arith, pdu_total_size-sum m)

-- A process that maps an area in which every channel has its region, of at least one byte and less than
-- 2^64, sees the same regions and bytes.
pub load-IsReady :
    (env : Env) (cache : List CacheEntry) (p : Pdu) (v : IsReady p)
    → env.init_lock ≡ true
    → 0 < length v.bytes
    → length v.bytes < 2 ^ 64
    → (q : Pdu) × (load env (elsewhere cache p) ≡ (q, true))
      × IsReady q
      × (q.meta ≡ p.meta)
      × (q.area ≡ p.area)
unfolding load rebuild_pdu_channel_index
load-IsReady env cache p v lock some_bytes small =
    let total = total-sum p.meta (omega (arith, v.fits)) in
    (
      rebuild_pdu_channel_index (record p { attached = true; cache = cache }),
      ground (arith, v.has_area, v.fits, total),
      record {
        bytes = v.bytes;
        is_attached = refl;
        has_area = v.has_area;
        laid_out = v.laid_out;
        fits = v.fits;
      },
      refl,
      refl,
    )

read-load :
    (env : Env) (a c len : ℕ) (p q : Pdu)
    → c < length p.meta.channel
    → len ≤ size_at c p.meta.channel
    → p.attached ≡ false
    → load env p ≡ (q, true)
    → q.attached ≡ true
    → q.meta ≡ p.meta
    → read_pdu env a c len p ≡ read_pdu env a c len q
unfolding read_pdu
read-load env a c len p q h fits fresh loads mapped_ same =
    ground (arith, ap (λ (r : Pdu × Bool). r.0) loads)

-- In an area in which every channel has its region, of less than 2^64 bytes: what one process writes to
-- a channel that is big enough, where no reader is in the way, another process reads, which maps the area
-- only then.
pub read-elsewhere :
    (env : Env) (a c : ℕ) (bytes : List ℕ) (cache : List CacheEntry) (p : Pdu) (v : IsReady p)
    → env.init_lock ≡ true
    → length v.bytes < 2 ^ 64
    → c < length p.meta.channel
    → 0 < length bytes
    → length bytes ≤ size_at c p.meta.channel
    → is_pdu_rbusy c p.meta ≡ false
    → (q r : Pdu) × (write_pdu env c bytes p ≡ returns (q, true))
      × (read_pdu env a c (length bytes) (elsewhere cache q) ≡ returns (r, some bytes))
unfolding mark_written
read-elsewhere env a c bytes cache p v lock small h some_bytes fits free =
    let (q, wrote, w) = write_pdu-Written env c bytes p v h fits free in
    let inside = IsReady-inside p v c h in
    let (s, loads, sv, sm, sa) =
      load-IsReady env cache q w.ready lock (omega (arith, w.same_length))
        (omega (arith, w.same_length)) in
    let ws : Written p s c bytes v = record {
      ready = record {
        bytes = w.ready.bytes;
        is_attached = sv.is_attached;
        has_area = sa ∙ w.ready.has_area;
        laid_out = sv.laid_out;
        fits = rw (← sm) at w.ready.fits;
      };
      copied = w.copied;
      same_length = w.same_length;
      marked = sm ∙ w.marked;
    } in
    let same : q.meta.channel ≡ p.meta.channel = ap (λ (m : Meta). m.channel) w.marked in
    let hq : c < length q.meta.channel = omega (arith, ap length same) in
    let fq : length bytes ≤ size_at c q.meta.channel = omega (arith, ap (size_at c) same) in
    (
      q,
      record s { meta = mark_read a c s.meta },
      wrote,
      read-load env a c (length bytes) (elsewhere cache q) s hq fq refl loads sv.is_attached sm
          ∙ read_after env a c bytes p s v ws h fits,
    )
