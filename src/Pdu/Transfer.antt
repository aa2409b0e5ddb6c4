-- ===== src/Pdu/Transfer.antt =====
-- hako_pdu_data.hpp: reading and writing a channel. A spin loop that would have to wait gives `spins`;
-- The index of a channel is not
-- negative (the callers have checked it). HAKO_CORE_EXTENSION is not set.
use hakoniwa_core_cpp.Prelude.{
  ℕ, zero, suc, ◌+◌, ◌%◌, ◌^◌, Bool, true, false, not, ◌||◌, ◌==◌, ltb, leb, if◌then◌else◌, List,
  length, take, get_elem?, Option, none, some,
}
use Prim.Native.Nat.{min}
use hakoniwa_core_cpp.Pdu.Types.{
  Channel, Meta, Pdu, Env, Outcome, returns, spins, faults, update, mem_write, mem_read,
}
use hakoniwa_core_cpp.Pdu.Channels.{size_at}
use hakoniwa_core_cpp.Pdu.Area.{load}

abbrev pub offset_at : ℕ → List Channel → ℕ
offset_at i cs = elim (get_elem? cs i) [ none ↦ 0 | some c ↦ c.offset ]

unfoldable pub is_pdu_dirty : ℕ → ℕ → Meta → Bool
is_pdu_dirty asset c m = not (m.read_version asset c == m.write_version c)

-- The loop of `is_pdu_rbusy` over `n` assets.
unfoldable pub any_rbusy : ℕ → ℕ → Meta → Bool
any_rbusy zero c m = false
any_rbusy (suc n) c m = any_rbusy n c m || m.rbusy n c

unfoldable pub is_pdu_rbusy : ℕ → Meta → Bool
unfolding any_rbusy
is_pdu_rbusy c m = m.rbusy_external c || any_rbusy (length m.check_status) c m

-- `if (pdu_ == nullptr) load()`, whose answer is not looked at.
abbrev pub loaded : Env → Pdu → Pdu
loaded env p = if p.attached then p else (load env p).0

-- The bytes behind `pdu_`, which is null before the area is mapped.
abbrev pub mapped : Pdu → Option (List ℕ)
mapped p = if p.attached then p.area else none

-- The marks of a write that is done.
unfoldable pub mark_written : ℕ → Meta → Meta
mark_written c m = record m {
  is_dirty = update m.is_dirty c true;
  write_version = update m.write_version c ((m.write_version c + 1) % 2 ^ 32);
  wbusy = update m.wbusy c false;
}

-- The copy into the area, once no reader is in the way.
unfoldable pub store : ℕ → List ℕ → Pdu → Outcome (Pdu × Bool)
unfolding mark_written
store c bytes p = elim (mapped p) [
  | none ↦ faults
  | some area ↦ elim (mem_write (offset_at c p.meta.channel) bytes area) [
    | none ↦ faults
    | some area' ↦ returns (record p { area = some area'; meta = mark_written c p.meta }, true)
  ]
]

unfoldable pub write_pdu : Env → ℕ → List ℕ → Pdu → Outcome (Pdu × Bool)
unfolding is_pdu_rbusy store
write_pdu env c bytes p =
    if leb (length p.meta.channel) c
    then returns (p, false)
    else if ltb (size_at c p.meta.channel) (length bytes)
    then returns (p, false)
    else let q = loaded env p in if is_pdu_rbusy c q.meta then spins else store c bytes q

-- The marks of a read that is done: this asset has seen the last write.
unfoldable pub mark_read : ℕ → ℕ → Meta → Meta
mark_read asset c m = record m {
  read_version = update m.read_version asset (update (m.read_version asset) c (m.write_version c));
  rbusy = update m.rbusy asset (update (m.rbusy asset) c false);
}

-- `none` for the bytes stands for the answer `false`.
unfoldable pub read_pdu : Env → ℕ → ℕ → ℕ → Pdu → Outcome (Pdu × Option (List ℕ))
unfolding mark_read
read_pdu env asset c len p =
    if leb (length p.meta.channel) c
    then returns (p, none)
    else if ltb (size_at c p.meta.channel) len
    then returns (p, none)
    else let q = loaded env p in
      if q.meta.wbusy c then spins else elim (mapped q) [
        | none ↦ faults
        | some area ↦ elim (mem_read (offset_at c q.meta.channel) len area) [
          | none ↦ faults
          | some bytes ↦ returns (record q { meta = mark_read asset c q.meta }, some bytes)
        ]
      ]

unfoldable pub read_pdu_for_external : Env → ℕ → ℕ → Pdu → Outcome (Pdu × Option (List ℕ))
read_pdu_for_external env c len p =
    if leb (length p.meta.channel) c
    then returns (p, none)
    else if ltb (size_at c p.meta.channel) len
    then returns (p, none)
    else let q = loaded env p in
      if q.meta.wbusy c then spins else elim (mapped q) [
        | none ↦ faults
        | some area ↦ elim (mem_read (offset_at c q.meta.channel) len area) [
          | none ↦ faults
          | some bytes ↦ returns (
            record q {
              meta = record q.meta { rbusy_external = update q.meta.rbusy_external c false };
            },
            some bytes,
          )
        ]
      ]

-- The variants with no flags copy as much as both sides hold.
unfoldable pub read_pdu_nolock : Env → ℕ → ℕ → Pdu → Outcome (Pdu × Option (List ℕ))
read_pdu_nolock env c len p =
    if leb (length p.meta.channel) c
    then returns (p, none)
    else let q = loaded env p in
      elim (mapped q) [
        | none ↦ faults
        | some area ↦
            elim (mem_read (offset_at c q.meta.channel) (min len (size_at c q.meta.channel)) area) [
              | none ↦ faults
              | some bytes ↦ returns (q, some bytes)
            ]
      ]

unfoldable pub write_pdu_nolock : Env → ℕ → List ℕ → Pdu → Outcome (Pdu × Bool)
write_pdu_nolock env c bytes p =
    if leb (length p.meta.channel) c
    then returns (p, false)
    else let q = loaded env p in
      elim (mapped q) [
        | none ↦ faults
        | some area ↦
            elim (mem_write (offset_at c q.meta.channel)
              (take (min (length bytes) (size_at c q.meta.channel)) bytes) area) [
                | none ↦ faults
                | some area' ↦ returns (record q { area = some area' }, true)
              ]
      ]

-- `none` for (size_t)-1.
unfoldable pub pdu_size_nolock : ℕ → Meta → Option ℕ
pdu_size_nolock c m = if leb (length m.channel) c then none else some (size_at c m.channel)
