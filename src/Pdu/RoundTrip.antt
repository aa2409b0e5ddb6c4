-- ===== src/Pdu/RoundTrip.antt =====
-- Reading what was written (`write_pdu` and `read_pdu` of hako_pdu_data.hpp).
use hakoniwa_core_cpp.Prelude.{
  ℕ, ◌≤◌, ◌<◌, true, false, List, length, take, drop, some, ◌≡◌, ◌≢◌, refl, ap, sym, ◌∙◌, arith,
  inl, inr,
}
use hakoniwa_core_cpp.Pdu.Types.{Meta, Pdu, Env, returns, mem_write, mem_read}
use hakoniwa_core_cpp.Pdu.Channels.{size_at}
use hakoniwa_core_cpp.Pdu.Transfer.{
  offset_at, is_pdu_dirty, is_pdu_rbusy, mark_written, store, write_pdu, mark_read, read_pdu,
}
use hakoniwa_core_cpp.Pdu.Layout.{IsReady, IsReady-inside, IsReady-regions}
use hakoniwa_core_cpp.Pdu.Memory.{mem_write-fits, read-write_self, read-write_other}

-- What a write that succeeds leaves.
pub record Written (p q : Pdu) (c : ℕ) (bytes : List ℕ) (v : IsReady p) : Type 0 where
  pub ready : IsReady q
  pub copied : mem_write (offset_at c p.meta.channel) bytes v.bytes ≡ some ready.bytes
  pub same_length : length ready.bytes ≡ length v.bytes
  pub marked : q.meta ≡ mark_written c p.meta

-- In an area with a region for each channel, a write that no reader blocks, to a channel that is big
-- enough, succeeds.
pub write_pdu-Written :
    (env : Env) (c : ℕ) (bytes : List ℕ) (p : Pdu) (v : IsReady p)
    → c < length p.meta.channel
    → length bytes ≤ size_at c p.meta.channel
    → is_pdu_rbusy c p.meta ≡ false
    → (q : Pdu) × (write_pdu env c bytes p ≡ returns (q, true)) × Written p q c bytes v
unfolding write_pdu store
write_pdu-Written env c bytes p v in_range fits free =
    let inside = IsReady-inside p v c in_range in
    let (out, copied, l) =
      mem_write-fits (offset_at c p.meta.channel) bytes v.bytes (omega arith) in
    (
      record p { area = some out; meta = mark_written c p.meta },
      ground (arith, v.is_attached, v.has_area),
      record {
        ready = record {
          bytes = out;
          is_attached = v.is_attached;
          has_area = refl;
          laid_out = v.laid_out;
          fits = v.fits ∙ sym l;
        };
        copied = copied;
        same_length = l;
        marked = refl;
      },
    )

-- In such an area a read that the writer does not block, of no more than the channel holds, returns
-- the bytes of its region.
pub read_pdu-region :
    (env : Env) (a c len : ℕ) (p : Pdu) (v : IsReady p)
    → c < length p.meta.channel
    → len ≤ size_at c p.meta.channel
    → p.meta.wbusy c ≡ false
    → (bytes : List ℕ) × (mem_read (offset_at c p.meta.channel) len v.bytes ≡ some bytes)
      × (read_pdu env a c len p ≡ returns (record p { meta = mark_read a c p.meta }, some bytes))
unfolding read_pdu mem_read
read_pdu-region env a c len p v in_range fits free =
    let inside = IsReady-inside p v c in_range in
    (
      take len (drop (offset_at c p.meta.channel) v.bytes),
      ground arith,
      ground (arith, v.is_attached, v.has_area),
    )

same_channels : (c : ℕ) (m n : Meta) → n ≡ mark_written c m → n.channel ≡ m.channel
unfolding mark_written
same_channels c m n e = ap (λ (k : Meta). k.channel) e

not_busy : (c : ℕ) (m n : Meta) → n ≡ mark_written c m → n.wbusy c ≡ false
unfolding mark_written
not_busy c m n e = ap (λ (k : Meta). k.wbusy c) e ∙ ground arith

clean_after_read : (a c : ℕ) (m : Meta) → is_pdu_dirty a c (mark_read a c m) ≡ false
unfolding is_pdu_dirty mark_read
clean_after_read a c m = ground arith

pub read_after :
    (env : Env) (a c : ℕ) (bytes : List ℕ) (p q : Pdu) (v : IsReady p)
    → Written p q c bytes v
    → c < length p.meta.channel
    → length bytes ≤ size_at c p.meta.channel
    → read_pdu env a c (length bytes) q
      ≡ returns (record q { meta = mark_read a c q.meta }, some bytes)
read_after env a c bytes p q v w in_range fits =
    let same = same_channels c p.meta q.meta w.marked in
    let (out, region, did) =
      read_pdu-region env a c (length bytes) q w.ready (rw same in_range) (rw same fits)
        (not_busy c p.meta q.meta w.marked) in
    let self =
      read-write_self (offset_at c p.meta.channel) bytes v.bytes w.ready.bytes w.copied
        w.same_length in
    let is_bytes : out ≡ bytes = cc (rw same at region) in
    did ∙ ap (λ x. returns (record q { meta = mark_read a c q.meta }, some x)) is_bytes

-- Reading a channel gives the bytes that were written to it last, and then the channel is not dirty
-- for the asset that has read it. This holds in an area with a region for each channel, where no
-- reader blocks the write and the channel is big enough.
pub read-write :
    (env : Env) (a c : ℕ) (bytes : List ℕ) (p : Pdu)
    → IsReady p
    → c < length p.meta.channel
    → length bytes ≤ size_at c p.meta.channel
    → is_pdu_rbusy c p.meta ≡ false
    → (q r : Pdu) × (write_pdu env c bytes p ≡ returns (q, true))
      × (read_pdu env a c (length bytes) q ≡ returns (r, some bytes))
      × (is_pdu_dirty a c r.meta ≡ false)
read-write env a c bytes p v in_range fits free =
    let (q, wrote, w) = write_pdu-Written env c bytes p v in_range fits free in
    (
      q,
      record q { meta = mark_read a c q.meta },
      wrote,
      read_after env a c bytes p q v w in_range fits,
      clean_after_read a c q.meta,
    )

busy_elsewhere : (c d : ℕ) (m n : Meta) → n ≡ mark_written c m → c ≢ d → n.wbusy d ≡ m.wbusy d
unfolding mark_written
busy_elsewhere c d m n e ne = ap (λ (k : Meta). k.wbusy d) e ∙ ground arith

-- In an area with a region for each channel, where no reader blocks the write, no writer the reads, and
-- the lengths fit, a write to one channel does not change what is read from another one.
pub read-write_ne :
    (env : Env) (a c d len : ℕ) (bytes : List ℕ) (p : Pdu)
    → IsReady p
    → c < length p.meta.channel
    → d < length p.meta.channel
    → c ≢ d
    → length bytes ≤ size_at c p.meta.channel
    → len ≤ size_at d p.meta.channel
    → is_pdu_rbusy c p.meta ≡ false
    → p.meta.wbusy d ≡ false
    → (q r s : Pdu) × (out : List ℕ) × (write_pdu env c bytes p ≡ returns (q, true))
      × (read_pdu env a d len p ≡ returns (r, some out))
      × (read_pdu env a d len q ≡ returns (s, some out))
read-write_ne env a c d len bytes p v hc hd ne fits short free quiet =
    let (q, wrote, w) = write_pdu-Written env c bytes p v hc fits free in
    let same = same_channels c p.meta q.meta w.marked in
    let (x, at_x, did_x) = read_pdu-region env a d len p v hd short quiet in
    let (y, at_y, did_y) =
      read_pdu-region env a d len q w.ready (rw same hd) (rw same short)
        (busy_elsewhere c d p.meta q.meta w.marked ne ∙ quiet) in
    let apart = (IsReady-regions p v c d hc hd ne).1 in
    let frame =
      read-write_other (offset_at c p.meta.channel) (offset_at d p.meta.channel) len bytes v.bytes
        w.ready.bytes w.copied w.same_length
        (elim apart [ inl le ↦ inr (omega arith) | inr le ↦ inl (omega arith) ]) in
    let y_is_x : y ≡ x = cc (rw same at at_y) in (q, _, _, x, wrote, did_x, rw y_is_x at did_y)
