-- ===== src/Master/Types.antt =====
-- src/include/types/hako_types.hpp and src/hako/data/hako_base_data.hpp: the states, the events and
-- the records of the master data. The arrays `assets` and `assets_ev`, which share their index, are
-- one list of slots, as long as HAKO_DATA_MAX_ASSET_NUM.
use hakoniwa_core_cpp.Prelude.{
  ℕ, zero, suc, ℤ, pos, Bool, true, false, ◌==◌, if◌then◌else◌, List, [], ◌∷◌,
}
use hakoniwa_core_cpp.FixedString.{FixedString}

-- `HakoSimulationStateType`, without its count.
pub data SimState : Type 0 where
  stopped runnable running stopping resetting error terminated any : SimState

abbrev pub sim_code : SimState → ℕ
sim_code stopped = 0
sim_code runnable = 1
sim_code running = 2
sim_code stopping = 3
sim_code resetting = 4
sim_code error = 5
sim_code terminated = 6
sim_code any = 7

abbrev pub state_eq : SimState → SimState → Bool
state_eq a b = sim_code a == sim_code b

-- `HakoAssetType`; a slot of type `vacant` (HakoAsset_Unknown) is not in use.
pub data AssetType : Type 0 where
  vacant inside outside : AssetType

abbrev pub is_vacant : AssetType → Bool
is_vacant vacant = true
is_vacant _ = false

abbrev pub is_outside : AssetType → Bool
is_outside outside = true
is_outside _ = false

-- `HakoAssetEventType`, without its count.
pub data AssetEvent : Type 0 where
  no_event start_event stop_event reset_event error_event : AssetEvent

abbrev pub is_error_event : AssetEvent → Bool
is_error_event error_event = true
is_error_event _ = false

-- Function pointers are numbers, and the null pointer is 0.
pub record Callbacks : Type 0 where
  pub start : ℕ
  pub stop : ℕ
  pub reset : ℕ

abbrev pub null_callbacks : Callbacks
null_callbacks = record { start = 0; stop = 0; reset = 0 }

-- `HakoAssetEntryType` and `HakoAssetEntryEventType`.
pub record Slot : Type 0 where
  pub id : ℕ
  pub name : FixedString
  pub kind : AssetType
  pub callbacks : Callbacks
  pub pid : ℤ
  pub ctime : ℤ
  pub update_time : ℤ
  pub event : AssetEvent
  pub event_feedback : Bool
  pub semid : ℤ

pub record TimeSet : Type 0 where
  pub max_delay : ℤ
  pub delta : ℤ
  pub current : ℤ

-- `HakoMasterDataType`, without the PDU meta data and the texts of the log. `asset_num` is a
-- uint32_t.
pub record Master : Type 0 where
  pub master_pid : ℤ
  pub state : SimState
  pub time : TimeSet
  pub asset_num : ℕ
  pub slots : List Slot
  pub log_index : ℕ

-- What `memset` with 0 leaves of a slot.
abbrev pub zero_slot : Slot
zero_slot = record {
  id = 0;
  name = record { len = 0; chars = [] };
  kind = vacant;
  callbacks = null_callbacks;
  pid = pos 0;
  ctime = pos 0;
  update_time = pos 0;
  event = no_event;
  event_feedback = false;
  semid = pos 0;
}

-- A change of one element; none outside of the list.
module _ {ℓ} {A : Type ℓ} where
  abbrev pub modify : ℕ → (A → A) → List A → List A
  modify i f [] = []
  modify zero f (x ∷ xs) = f x ∷ xs
  modify (suc i) f (x ∷ xs) = x ∷ modify i f xs

-- The slots in use.
unfoldable pub used : List Slot → ℕ
used [] = 0
used (s ∷ ss) = if is_vacant s.kind then used ss else suc (used ss)
