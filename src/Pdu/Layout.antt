-- ===== src/Pdu/Layout.antt =====
-- The layout of the area (`create` of hako_pdu_data.hpp): the channels' regions follow one another,
-- do not overlap, and fill the area exactly.
use hakoniwa_core_cpp.Prelude.{
  ℕ, zero, suc, ◌+◌, ◌%◌, ◌^◌, ◌≤◌, ◌<◌, true, false, leb, if◌then◌else◌, List, [], ◌∷◌, length,
  replicate, some, ◌≡◌, ◌≢◌, refl, sym, ◌∙◌, arith, ◌⊎◌, inl, inr, length-replicate, dec_lt,
}
use hakoniwa_core_cpp.Pdu.Types.{Channel, Meta, Pdu, Env, returns}
use hakoniwa_core_cpp.Pdu.Channels.{size_at}
use hakoniwa_core_cpp.Pdu.Area.{
  lay_out, total_from, pdu_total_size, assign_offsets, create, uint64_max,
}
use hakoniwa_core_cpp.Pdu.Transfer.{offset_at}

-- The sum of the sizes, as a number of any size.
unfoldable pub sum_sizes : List Channel → ℕ
sum_sizes [] = 0
sum_sizes (c ∷ cs) = c.size + sum_sizes cs

total_from-sum :
    (total : ℕ) (cs : List Channel)
    → total + sum_sizes cs < 2 ^ 64
    → total_from total cs ≡ total + sum_sizes cs
unfolding total_from sum_sizes
total_from-sum total [] h = omega arith
total_from-sum total (c ∷ cs) h = ground (arith, total_from-sum (total + c.size) cs)

total_from-max :
    (total : ℕ) (cs : List Channel)
    → total < 2 ^ 64
    → 2 ^ 64 ≤ total + sum_sizes cs
    → total_from total cs ≡ uint64_max
unfolding total_from sum_sizes
total_from-max total [] small h = absurd (omega arith)
total_from-max total (c ∷ cs) small h = ground (arith, total_from-max (total + c.size) cs)

-- The total size is the sum of all sizes if it fits into 64 bits, and else the largest number.
pub pdu_total_size-sum :
    (m : Meta)
    → pdu_total_size m
      ≡ (if leb (sum_sizes m.channel) uint64_max then sum_sizes m.channel else uint64_max)
unfolding pdu_total_size
pdu_total_size-sum m = elim (dec_lt (sum_sizes m.channel) (2 ^ 64)) [
  | yes lt ↦ ground (arith, total_from-sum 0 m.channel (omega arith))
  | no ge ↦ ground (arith, total_from-max 0 m.channel (omega arith) (omega arith))
]

-- The channels from one on begin at `off`, one behind the other.
abbrev pub IsLaidOut : ℕ → List Channel → Type 0
IsLaidOut off [] = Unit
IsLaidOut off (c ∷ cs) = (c.offset ≡ off) × IsLaidOut (off + c.size) cs

assign_offsets-IsLaidOut :
    (off : ℕ) (cs : List Channel)
    → off + sum_sizes cs < 2 ^ 64
    → IsLaidOut off (assign_offsets off cs)
unfolding assign_offsets sum_sizes
assign_offsets-IsLaidOut off [] h = tt
assign_offsets-IsLaidOut off (c ∷ cs) h =
    let e : (off + c.size) % 2 ^ 64 ≡ off + c.size = omega arith in
    rw e (refl, assign_offsets-IsLaidOut (off + c.size) cs (omega arith))

sum_sizes-assign_offsets :
    (off : ℕ) (cs : List Channel) → sum_sizes (assign_offsets off cs) ≡ sum_sizes cs
unfolding assign_offsets sum_sizes
sum_sizes-assign_offsets off [] = refl
sum_sizes-assign_offsets off (c ∷ cs) =
    omega (arith, sum_sizes-assign_offsets ((off + c.size) % 2 ^ 64) cs)

-- A region that is laid out lies between the start and the end of all.
laid_out-bounds :
    (off i : ℕ) (cs : List Channel)
    → IsLaidOut off cs
    → i < length cs
    → (off ≤ offset_at i cs) × (offset_at i cs + size_at i cs ≤ off + sum_sizes cs)
unfolding sum_sizes
laid_out-bounds off i [] l h = absurd (omega arith)
laid_out-bounds off zero (c ∷ cs) l h = omega arith
laid_out-bounds off (suc i) (c ∷ cs) l h =
    omega (arith, laid_out-bounds (off + c.size) i cs l.1 (omega arith))

-- Of two channels the one with the smaller index ends before the other begins.
pub laid_out-ordered :
    (off i j : ℕ) (cs : List Channel)
    → IsLaidOut off cs
    → i < j
    → j < length cs
    → offset_at i cs + size_at i cs ≤ offset_at j cs
laid_out-ordered off i j [] l h k = absurd (omega arith)
laid_out-ordered off zero zero (c ∷ cs) l h k = absurd (omega arith)
laid_out-ordered off (suc i) zero (c ∷ cs) l h k = absurd (omega arith)
laid_out-ordered off zero (suc j) (c ∷ cs) l h k =
    omega (arith, laid_out-bounds (off + c.size) j cs l.1 (omega arith))
laid_out-ordered off (suc i) (suc j) (c ∷ cs) l h k =
    laid_out-ordered (off + c.size) i j cs l.1 (omega arith) (omega arith)

-- A process that has mapped an area in which every channel has its region.
pub record IsReady (p : Pdu) : Type 0 where
  pub bytes : List ℕ
  pub is_attached : p.attached ≡ true
  pub has_area : p.area ≡ some bytes
  pub laid_out : IsLaidOut 0 p.meta.channel
  pub fits : sum_sizes p.meta.channel ≡ length bytes

length-assign_offsets : (off : ℕ) (cs : List Channel) → length (assign_offsets off cs) ≡ length cs
unfolding assign_offsets
length-assign_offsets off [] = refl
length-assign_offsets off (c ∷ cs) =
    omega (arith, length-assign_offsets ((off + c.size) % 2 ^ 64) cs)

size_at-assign_offsets :
    (off i : ℕ) (cs : List Channel) → size_at i (assign_offsets off cs) ≡ size_at i cs
unfolding assign_offsets
size_at-assign_offsets off i [] = refl
size_at-assign_offsets off zero (c ∷ cs) = refl
size_at-assign_offsets off (suc i) (c ∷ cs) = size_at-assign_offsets ((off + c.size) % 2 ^ 64) i cs

create-lay_out :
    (env : Env) (n : ℕ) (p : Pdu)
    → env.init_lock ≡ true
    → p.attached ≡ false
    → sum_sizes p.meta.channel < 2 ^ 64
    → env.alloc_ok (sum_sizes p.meta.channel) ≡ true
    → create env n p ≡ returns (lay_out n (sum_sizes p.meta.channel) p)
unfolding create
create-lay_out env n p lock fresh small room =
    let total : pdu_total_size p.meta ≡ sum_sizes p.meta.channel =
      ground (arith, pdu_total_size-sum p.meta) in
    rw (lock, fresh, total, room) refl

lay_out-IsReady :
    (n : ℕ) (p : Pdu)
    → sum_sizes p.meta.channel < 2 ^ 64
    → IsReady (lay_out n (sum_sizes p.meta.channel) p)
unfolding lay_out
lay_out-IsReady n p small =
    let size = sum_sizes p.meta.channel in
    record {
      bytes = replicate size 0;
      is_attached = refl;
      has_area = refl;
      laid_out = assign_offsets-IsLaidOut 0 p.meta.channel (omega arith);
      fits = sum_sizes-assign_offsets 0 p.meta.channel ∙ sym (length-replicate size 0);
    }

-- `create` in a process with no area, given the lock, the memory and sizes whose sum fits into 64
-- bits, makes an area in which every channel has its region.
pub create-IsReady :
    (env : Env) (n : ℕ) (p : Pdu)
    → env.init_lock ≡ true
    → p.attached ≡ false
    → sum_sizes p.meta.channel < 2 ^ 64
    → env.alloc_ok (sum_sizes p.meta.channel) ≡ true
    → (q : Pdu) × (create env n p ≡ returns q) × IsReady q
create-IsReady env n p lock fresh small room = (
  lay_out n (sum_sizes p.meta.channel) p,
  create-lay_out env n p lock fresh small room,
  lay_out-IsReady n p small,
)

pub IsReady-inside :
    (p : Pdu) (v : IsReady p) (i : ℕ)
    → i < length p.meta.channel
    → offset_at i p.meta.channel + size_at i p.meta.channel ≤ length v.bytes
IsReady-inside p v i h = omega (arith, laid_out-bounds 0 i p.meta.channel v.laid_out h, v.fits)

pub IsReady-regions :
    (p : Pdu) (v : IsReady p) (i j : ℕ)
    → i < length p.meta.channel
    → j < length p.meta.channel
    → i ≢ j
    → (offset_at i p.meta.channel + size_at i p.meta.channel ≤ length v.bytes)
      × ((offset_at i p.meta.channel + size_at i p.meta.channel ≤ offset_at j p.meta.channel)
          ⊎ (offset_at j p.meta.channel + size_at j p.meta.channel ≤ offset_at i p.meta.channel))
IsReady-regions p v i j hi hj ne = (
  IsReady-inside p v i hi,
  elim (dec_lt i j) [
    | yes lt ↦ inl (laid_out-ordered 0 i j p.meta.channel v.laid_out lt hj)
    | no ge ↦ inr (laid_out-ordered 0 j i p.meta.channel v.laid_out (omega arith) hi)
  ],
)

-- `create` in a process with no area, given the lock, the memory and sizes whose sum fits into 64
-- bits, makes an area in which two different channels have regions of their sizes, which lie inside it,
-- and one of which ends before the other begins.
pub create-regions :
    (env : Env) (n i j : ℕ) (p : Pdu)
    → env.init_lock ≡ true
    → p.attached ≡ false
    → sum_sizes p.meta.channel < 2 ^ 64
    → env.alloc_ok (sum_sizes p.meta.channel) ≡ true
    → i < length p.meta.channel
    → j < length p.meta.channel
    → i ≢ j
    → (q : Pdu) × (bytes : List ℕ) × (create env n p ≡ returns q)
      × (q.area ≡ some bytes)
      × (size_at i q.meta.channel ≡ size_at i p.meta.channel)
      × (offset_at i q.meta.channel + size_at i q.meta.channel ≤ length bytes)
      × (offset_at j q.meta.channel + size_at j q.meta.channel ≤ length bytes)
      × ((offset_at i q.meta.channel + size_at i q.meta.channel ≤ offset_at j q.meta.channel)
          ⊎ (offset_at j q.meta.channel + size_at j q.meta.channel ≤ offset_at i q.meta.channel))
unfolding lay_out
create-regions env n i j p lock fresh small room hi hj ne =
    let q = lay_out n (sum_sizes p.meta.channel) p in
    let v : IsReady q = lay_out-IsReady n p small in
    let same = length-assign_offsets 0 p.meta.channel in
    let (inside, apart) = IsReady-regions q v i j (omega arith) (omega arith) ne in
    (
      q,
      v.bytes,
      create-lay_out env n p lock fresh small room,
      v.has_area,
      size_at-assign_offsets 0 i p.meta.channel,
      inside,
      IsReady-inside q v j (omega arith),
      apart,
    )
