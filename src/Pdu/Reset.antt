-- ===== src/Pdu/Reset.antt =====
-- The area after a reset (`reset` of hako_pdu_data.hpp).
use hakoniwa_core_cpp.Prelude.{
  ℕ, zero, suc, ◌+◌, ◌≤◌, ◌<◌, ◌^◌, true, false, List, [], ◌∷◌, ◌++◌, length, drop, take, replicate,
  some, ◌≡◌, refl, ap, sym, ◌∙◌, arith, length-replicate,
}
use hakoniwa_core_cpp.Pdu.Types.{Pdu, Env, returns, mem_write, mem_read}
use hakoniwa_core_cpp.Pdu.Channels.{size_at, rebuild_pdu_channel_index}
use hakoniwa_core_cpp.Pdu.Area.{cleared_meta, pdu_total_size, reset}
use hakoniwa_core_cpp.Pdu.Transfer.{offset_at, is_pdu_dirty, read_pdu, mark_read}
use hakoniwa_core_cpp.Pdu.Layout.{IsReady}
use hakoniwa_core_cpp.Pdu.Sharing.{total-sum}
use hakoniwa_core_cpp.Pdu.RoundTrip.{read_pdu-region}

abbrev pub zeros : ℕ → List ℕ
zeros n = replicate n 0

length-zeros : (n : ℕ) → length (zeros n) ≡ n
length-zeros n = length-replicate {A = ℕ} n 0

drop-all {ℓ} : {A : Type ℓ} (xs : List A) → drop (length xs) xs ≡ []
drop-all [] = refl
drop-all (x ∷ xs) = drop-all xs

append-nil {ℓ} : {A : Type ℓ} (xs : List A) → xs ++ [] ≡ xs
append-nil [] = refl
append-nil (x ∷ xs) = ap (◌∷◌ x) (append-nil xs)

-- Filling the whole area.
fill-all : (n : ℕ) (area : List ℕ) → n ≡ length area → mem_write 0 (zeros n) area ≡ some (zeros n)
unfolding mem_write
fill-all n area e =
    let l : 0 + length (zeros n) ≡ length area = omega (arith, length-zeros n) in
    let tail : drop (0 + length (zeros n)) area ≡ [] = ap (λ k. drop k area) l ∙ drop-all area in
    let whole : zeros n ++ drop (0 + length (zeros n)) area ≡ zeros n =
      ap (◌++◌ (zeros n)) tail ∙ append-nil (zeros n) in
    ground (arith, whole)

take-replicate : (len n : ℕ) → len ≤ n → take len (zeros n) ≡ zeros len
take-replicate zero n h = refl
take-replicate (suc len) zero h = absurd (omega arith)
take-replicate (suc len) (suc n) h = ap (◌∷◌ 0) (take-replicate len n (omega arith))

drop-replicate : (off len n : ℕ) → off + len ≤ n → take len (drop off (zeros n)) ≡ zeros len
drop-replicate zero len n h = take-replicate len n (omega arith)
drop-replicate (suc off) len zero h = absurd (omega arith)
drop-replicate (suc off) len (suc n) h = drop-replicate off len n (omega arith)

mem_read-some :
    (off n : ℕ) (area out : List ℕ)
    → mem_read off n area ≡ some out
    → (off + n ≤ length area) × (out ≡ take n (drop off area))
unfolding mem_read
mem_read-some off n area out e = (ground arith, ground arith)

-- A reset area.
pub record IsCleared (p q : Pdu) : Type 0 where
  pub ready : IsReady q
  pub channels : q.meta.channel ≡ p.meta.channel
  pub zero_bytes : ready.bytes ≡ zeros (length ready.bytes)
  pub no_writer : (c : ℕ) → q.meta.wbusy c ≡ false
  pub clean : (a c : ℕ) → is_pdu_dirty a c q.meta ≡ false

pub reset-IsCleared :
    (env : Env) (p : Pdu) (v : IsReady p)
    → env.init_lock ≡ true
    → length v.bytes < 2 ^ 64
    → (q : Pdu) × (reset env p ≡ returns q) × IsCleared p q
unfolding reset rebuild_pdu_channel_index is_pdu_dirty cleared_meta
reset-IsCleared env p v lock small =
    let total = total-sum p.meta (omega (arith, v.fits)) in
    let n = pdu_total_size p.meta in
    let filled = fill-all n v.bytes (omega (arith, total, v.fits)) in
    let size = length-zeros n in
    (
      rebuild_pdu_channel_index (record p { meta = cleared_meta p.meta; area = some (zeros n) }),
      ground (arith, v.is_attached, v.has_area, filled),
      record {
        ready = record {
          bytes = zeros n;
          is_attached = v.is_attached;
          has_area = refl;
          laid_out = v.laid_out;
          fits = omega (arith, total, size);
        };
        channels = refl;
        zero_bytes = ap (λ k. zeros k) (sym size);
        no_writer = λ c. refl;
        clean = λ a c. refl;
      },
    )

-- After a reset of an area in which every channel has its region, of less than 2^64 bytes, reading any
-- channel gives zeros, and no channel is dirty for any asset.
pub read-reset :
    (env : Env) (a c len : ℕ) (p : Pdu) (v : IsReady p)
    → env.init_lock ≡ true
    → length v.bytes < 2 ^ 64
    → c < length p.meta.channel
    → len ≤ size_at c p.meta.channel
    → (q r : Pdu) × (reset env p ≡ returns q)
      × (is_pdu_dirty a c q.meta ≡ false)
      × (read_pdu env a c len q ≡ returns (r, some (zeros len)))
read-reset env a c len p v lock small h fits =
    let (q, did, k) = reset-IsCleared env p v lock small in
    let hq : c < length q.meta.channel = omega (arith, ap length k.channels) in
    let fq : len ≤ size_at c q.meta.channel = omega (arith, ap (size_at c) k.channels) in
    let (out, region, reads) = read_pdu-region env a c len q k.ready hq fq (k.no_writer c) in
    let all_zero = cleared (offset_at c q.meta.channel) len k.ready.bytes out k.zero_bytes region in
    (
      q,
      _,
      did,
      k.clean a c,
      reads ∙ ap (λ x. returns (record q { meta = mark_read a c q.meta }, some x)) all_zero,
    )
  where
    cleared :
        (off n : ℕ) (area out : List ℕ)
        → area ≡ zeros (length area)
        → mem_read off n area ≡ some out
        → out ≡ zeros n
    cleared off n area out e d =
        let (room, is_out) = mem_read-some off n area out d in
        is_out ∙ ap (λ x. take n (drop off x)) e ∙ drop-replicate off n (length area) room
