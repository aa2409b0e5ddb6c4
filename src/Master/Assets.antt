-- ===== src/Master/Assets.antt =====
-- src/hako/data/hako_master_data.hpp: the table of assets. The lock around each operation is that of
-- the module MasterLock; here an operation is one step on the data.
use hakoniwa_core_cpp.Prelude.{
  ℕ, suc, ◌+◌, ◌-◌, ◌%◌, ◌^◌, ℤ, pos, negsuc, ◌+ℤ◌, leb_ℤ, eqb_ℤ, Bool, true, false, ◌&&◌, ◌||◌,
  not, ltb, if◌then◌else◌, List, [], ◌∷◌, length, Option, none, some, get_elem?, replicate,
}
use hakoniwa_core_cpp.FixedString.{string_to_fixed, fixed_to_string, matches, fixed_strlen_max}
use hakoniwa_core_cpp.Master.Types.{
  stopped, error, state_eq, AssetType, vacant, is_vacant, is_outside, Callbacks, null_callbacks,
  Slot, Master, zero_slot, modify,
}

-- `init`: `memset` with 0, and the id of the process.
unfoldable pub init : ℕ → ℤ → Master
init max_asset_num pid = record {
  master_pid = pid;
  state = stopped;
  time = record { max_delay = pos 0; delta = pos 0; current = pos 0 };
  asset_num = 0;
  slots = replicate max_asset_num zero_slot;
  log_index = 0;
}

abbrev pub bump_u32 : ℕ → ℕ
bump_u32 n = (n + 1) % 2 ^ 32

abbrev pub drop_u32 : ℕ → ℕ
drop_u32 n = (n + 2 ^ 32 - 1) % 2 ^ 32

-- `get_asset_nolock`: the index of the first slot in use with this name.
unfoldable pub find_asset : List ℕ → List Slot → Option ℕ
find_asset name [] = none
find_asset name (s ∷ ss) =
    let rest : Option ℕ = elim (find_asset name ss) [ none ↦ none | some i ↦ some (suc i) ] in
    if not (is_vacant s.kind) && matches s.name name then some 0 else rest

-- `get_asset` and `get_asset_event_nolock` by an id: the slot, if it is in use.
unfoldable pub get_asset : ℕ → List Slot → Option Slot
get_asset id ss = elim (get_elem? ss id) [
  | none ↦ none
  | some s ↦ if is_vacant s.kind then none else some s
]

-- What `alloc_asset` writes to slot `i`. The event and its feedback stay as they are.
unfoldable pub occupy : ℤ → ℤ → List ℕ → AssetType → Option Callbacks → ℕ → Slot → Slot
occupy now pid name kind callbacks i s = record s {
  id = i;
  name = string_to_fixed name s.name;
  kind = kind;
  callbacks = elim callbacks [ none ↦ null_callbacks | some c ↦ c ];
  pid = pid;
  ctime = pos 0;
  update_time = now;
  semid = if is_outside kind then s.semid else negsuc 0;
}

-- The loop for the first vacant slot, from index `i` on.
unfoldable pub occupy_first : (ℕ → Slot → Slot) → ℕ → List Slot → Option (ℕ × List Slot)
occupy_first fill i [] = none
occupy_first fill i (s ∷ ss) =
    let rest : Option (ℕ × List Slot) = elim (occupy_first fill (suc i) ss) [
      | none ↦ none
      | some (j, ss') ↦ some (j, s ∷ ss')
    ] in
    if is_vacant s.kind then some (i, fill i s ∷ ss) else rest

-- Whether `alloc_asset` goes on to its loop.
unfoldable pub may_alloc : List ℕ → AssetType → Master → Bool
may_alloc name kind m =
    not (is_vacant kind)
    && (not (ltb fixed_strlen_max (length name))
        && (state_eq m.state stopped
            && (elim (find_asset name m.slots) [ none ↦ true | some i ↦ false ]
                && ltb m.asset_num (length m.slots))))

-- `none` stands for the id -1.
unfoldable pub alloc_asset :
    ℤ → ℤ → List ℕ → AssetType → Option Callbacks → Master → Master × Option ℕ
unfolding may_alloc
alloc_asset now pid name kind callbacks m =
    if may_alloc name kind m
    then elim (occupy_first (occupy now pid name kind callbacks) 0 m.slots) [
      | none ↦ (m, none)
      | some (i, ss) ↦ (record m { slots = ss; asset_num = bump_u32 m.asset_num }, some i)
    ]
    else (m, none)

abbrev pub vacate : Slot → Slot
vacate s = record s { kind = vacant }

unfoldable pub free_asset : List ℕ → Master → Master × Bool
free_asset name m =
    if state_eq m.state stopped || state_eq m.state error
    then elim (find_asset name m.slots) [
      | none ↦ (m, false)
      | some i ↦
          (record m { slots = modify i vacate m.slots; asset_num = drop_u32 m.asset_num }, true)
    ]
    else (m, false)

-- `get_asset_id`: the first slot in use of a process.
unfoldable pub get_asset_id : ℤ → List Slot → Option ℕ
get_asset_id pid [] = none
get_asset_id pid (s ∷ ss) =
    let rest : Option ℕ = elim (get_asset_id pid ss) [ none ↦ none | some i ↦ some (suc i) ] in
    if not (is_vacant s.kind) && eqb_ℤ s.pid pid then some 0 else rest

unfoldable pub is_all_feedback : List Slot → Bool
is_all_feedback [] = true
is_all_feedback (s ∷ ss) =
    let rest = is_all_feedback ss in
    if is_vacant s.kind then rest else if s.event_feedback then rest else false

-- `hako_clock_is_timeout` at the time `now`.
abbrev pub clock_is_timeout : ℤ → ℤ → ℤ → Bool
clock_is_timeout now check_time timeout = leb_ℤ (check_time +ℤ timeout) now

abbrev pub default_timeout : ℤ
default_timeout = pos 30_000_000

-- `is_asset_timeout_nolock`, with the configured time of which one that is not positive is ignored.
unfoldable pub is_asset_timeout : ℤ → ℤ → ℕ → List Slot → Bool
is_asset_timeout now timeout id ss = elim (get_elem? ss id) [
  | none ↦ false
  | some s ↦
      clock_is_timeout now s.update_time
        (if leb_ℤ timeout (pos 0) then default_timeout else timeout)
]

unfoldable pub update_asset_time : ℤ → ℕ → Master → Master
update_asset_time now id m = record m {
  slots = modify id (λ s. if is_vacant s.kind then s else record s { update_time = now }) m.slots;
}

unfoldable pub get_asset_times : List Slot → List ℤ
get_asset_times [] = []
get_asset_times (s ∷ ss) =
    if is_vacant s.kind then get_asset_times ss else s.ctime ∷ get_asset_times ss

unfoldable pub get_asset_names : List Slot → List (List ℕ)
get_asset_names [] = []
get_asset_names (s ∷ ss) =
    if is_vacant s.kind then get_asset_names ss else fixed_to_string s.name ∷ get_asset_names ss

unfoldable pub reset_asset_ctime : List Slot → List Slot
reset_asset_ctime [] = []
reset_asset_ctime (s ∷ ss) =
    (if is_vacant s.kind then s else record s { ctime = pos 0 }) ∷ reset_asset_ctime ss
