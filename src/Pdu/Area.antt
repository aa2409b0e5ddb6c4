-- ===== src/Pdu/Area.antt =====
-- hako_pdu_data.hpp: the area that holds the data of all channels (`create`, `load`, `reset`). The
-- build does not set FIX_PDU_CREATE_TIMING. Sizes are uint64_t, and size_t has 64 bits.
use hakoniwa_core_cpp.Prelude.{
  ℕ, ◌+◌, ◌-◌, ◌%◌, ◌^◌, Bool, true, false, not, ◌==◌, ltb, if◌then◌else◌, List, [], ◌∷◌, length,
  replicate, none, some, map,
}
use hakoniwa_core_cpp.Pdu.Types.{
  Channel, asset_mode, Meta, Pdu, Env, Outcome, returns, faults, mem_write,
}
use hakoniwa_core_cpp.Pdu.Channels.{rebuild_pdu_channel_index}

abbrev pub uint64_max : ℕ
uint64_max = 2 ^ 64 - 1

-- The loop of `pdu_total_size`, which gives UINT64_MAX up where the sum does not fit.
unfoldable pub total_from : ℕ → List Channel → ℕ
total_from total [] = total
total_from total (c ∷ cs) =
    let rest = total_from (total + c.size) cs in
    if ltb (uint64_max - total) c.size then uint64_max else rest

unfoldable pub pdu_total_size : Meta → ℕ
unfolding total_from
pdu_total_size m = total_from 0 m.channel

-- The loop of `create` that lays the channels out one after the other.
unfoldable pub assign_offsets : ℕ → List Channel → List Channel
assign_offsets off [] = []
assign_offsets off (c ∷ cs) =
    record c { offset = off } ∷ assign_offsets ((off + c.size) % 2 ^ 64) cs

-- What `create` does with new memory of `total` bytes.
unfoldable pub lay_out : ℕ → ℕ → Pdu → Pdu
unfolding assign_offsets rebuild_pdu_channel_index
lay_out asset_num total p = rebuild_pdu_channel_index (record p {
  meta = record p.meta {
    asset_num = asset_num;
    mode = asset_mode;
    channel = assign_offsets 0 p.meta.channel;
  };
  area = some (replicate total 0);
  attached = true;
})

-- `create`. A process that has the area already only sets the mode and the number of assets.
unfoldable pub create : Env → ℕ → Pdu → Outcome Pdu
unfolding pdu_total_size lay_out
create env asset_num p =
    if not env.init_lock
    then returns p
    else if p.attached
    then returns (record p { meta = record p.meta { asset_num = asset_num; mode = asset_mode } })
    else if env.alloc_ok (pdu_total_size p.meta)
    then returns (lay_out asset_num (pdu_total_size p.meta) p)
    else faults

-- `load`: the area is mapped only if its size is that of the channels, and not 0.
unfoldable pub load : Env → Pdu → Pdu × Bool
unfolding pdu_total_size rebuild_pdu_channel_index
load env p =
    if env.init_lock
    then if p.attached then (p, true) else elim p.area [
      | none ↦ (p, false)
      | some bytes ↦
          if pdu_total_size p.meta == 0
          then (p, false)
          else if length bytes == pdu_total_size p.meta
          then (rebuild_pdu_channel_index (record p { attached = true }), true)
          else (p, false)
    ]
    else (p, false)

-- What `reset` sets: all flags and versions go to 0; the channels stay.
unfoldable pub cleared_meta : Meta → Meta
cleared_meta m = record m {
  sync_asset_id = 0;
  mode = asset_mode;
  check_status = map (λ (b : Bool). false) m.check_status;
  is_dirty = λ c. false;
  rbusy = λ a c. false;
  rbusy_external = λ c. false;
  wbusy = λ c. false;
  table_busy = false;
  read_version = λ a c. 0;
  write_version = λ c. 0;
}

-- `reset`: the flags, and all bytes of the area.
unfoldable pub reset : Env → Pdu → Outcome Pdu
unfolding pdu_total_size rebuild_pdu_channel_index cleared_meta
reset env p =
    if env.init_lock
    then if p.attached
      then elim p.area [
        | none ↦ faults
        | some bytes ↦ elim (mem_write 0 (replicate (pdu_total_size p.meta) 0) bytes) [
          | none ↦ faults
          | some bytes' ↦ returns (
              rebuild_pdu_channel_index
                (record p { meta = cleared_meta p.meta; area = some bytes' }))
        ]
      ]
      else returns p
    else returns p

unfoldable pub is_pdu_created : Env → Pdu → Pdu × Bool
unfolding load
is_pdu_created env p =
    let p' = if p.attached then p else if ltb 0 p.meta.asset_num then (load env p).0 else p in
    (p', if p'.meta.asset_num == 0 then false else true)
