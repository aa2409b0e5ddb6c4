-- ===== src/Pdu/Types.antt =====
-- `HakoPduMetaDataType` of src/hako/data/hako_base_data.hpp, and the fields of `HakoPduData`.
-- The array `channel` is as long as HAKO_PDU_CHANNEL_MAX, and `check_status` as HAKO_DATA_MAX_ASSET_NUM;
-- the build can set both. The flags and versions of each channel are functions of its index.
use hakoniwa_core_cpp.Prelude.{
  ℕ, ◌+◌, ℤ, Bool, true, false, ◌==◌, if◌then◌else◌, List, ◌++◌, length, take, drop, Option, none,
  some, leb,
}
use hakoniwa_core_cpp.FixedString.{FixedString}

pub record Channel : Type 0 where
  pub offset : ℕ
  pub size : ℕ

pub record ChannelMap : Type 0 where
  pub robo_name : FixedString
  pub logical_id : ℤ

-- `HakoTimeModeType`.
pub data TimeMode : Type 0 where
  master_mode asset_mode : TimeMode

abbrev pub is_master_mode : TimeMode → Bool
is_master_mode master_mode = true
is_master_mode asset_mode = false

pub record Meta : Type 0 where
  pub mode : TimeMode
  pub asset_num : ℕ
  pub sync_asset_id : ℕ
  pub check_status : List Bool
  pub channel_num : ℕ
  pub channel : List Channel
  pub channel_map : List ChannelMap
  pub is_dirty : ℕ → Bool
  pub rbusy : ℕ → ℕ → Bool
  pub rbusy_external : ℕ → Bool
  pub wbusy : ℕ → Bool
  pub table_busy : Bool
  pub read_version : ℕ → ℕ → ℕ
  pub write_version : ℕ → ℕ

-- One cached lookup: the name, the logical id, and the index of the channel.
pub record CacheEntry : Type 0 where
  pub robo_name : List ℕ
  pub logical_id : ℤ
  pub real_id : ℕ

-- `meta` and `area`, the bytes of the PDU data, are shared; the cache and whether `pdu_` is set are
-- the process's own. `area` is `none` before it has been created.
pub record Pdu : Type 0 where
  pub meta : Meta
  pub area : Option (List ℕ)
  pub cache : List CacheEntry
  pub attached : Bool

-- What the host gives: the lock of the initialization, and memory of a size.
pub record Env : Type 0 where
  pub init_lock : Bool
  pub alloc_ok : ℕ → Bool

-- A call returns, waits in a spin loop for another process, or touches memory outside of the area.
pub data Outcome {ℓ} (A : Type ℓ) : Type ℓ where
  returns : A → Outcome A
  spins : Outcome A
  faults : Outcome A

module _ {ℓ} {A : Type ℓ} where
  abbrev pub update : (ℕ → A) → ℕ → A → ℕ → A
  update f i a j = if i == j then a else f j

-- `memcpy` into an area, and out of it.
unfoldable pub mem_write : ℕ → List ℕ → List ℕ → Option (List ℕ)
mem_write off bytes area =
    if leb (off + length bytes) (length area)
    then some (take off area ++ (bytes ++ drop (off + length bytes) area))
    else none

unfoldable pub mem_read : ℕ → ℕ → List ℕ → Option (List ℕ)
mem_read off len area =
    if leb (off + len) (length area) then some (take len (drop off area)) else none
