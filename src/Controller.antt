-- ===== src/Controller.antt =====
-- src/hako/hako_asset_impl.cpp: the calls of an asset, which pass on to the table of assets and to the
-- channels, and src/hako/core/rpc/hako_internal_rpc.cpp: the thread that calls an asset's callbacks.
-- The feedback is in SimEvent.Handling.
pub mod Naming
pub mod Exchange
pub mod Times
pub mod Leaving
use hakoniwa_core_cpp.Prelude.{
  ℕ, ◌^◌, ℤ, pos, eqb_ℤ, ltb_ℤ, Bool, true, false, ◌==◌, if◌then◌else◌, List, [], ◌∷◌, Option, none,
  some,
}
use hakoniwa_core_cpp.Master.Types.{
  inside, AssetEvent, no_event, start_event, stop_event, reset_event, error_event, Callbacks, Slot,
  Master, modify,
}
use hakoniwa_core_cpp.Master.Assets.{
  alloc_asset, free_asset, find_asset, get_asset, get_asset_times,
}
use hakoniwa_core_cpp.Pdu.Types.{Pdu, Env, Outcome, returns, spins, faults}
use hakoniwa_core_cpp.Pdu.Channels.{get_pdu_channel, create_channel, create_lchannel}
use hakoniwa_core_cpp.Pdu.Transfer
use hakoniwa_core_cpp.Pdu.Sync
use hakoniwa_core_cpp.Pdu.Area

-- `HakoInternalRpc`: its asset, its callbacks, and whether its thread runs.
pub record Rpc : Type 0 where
  pub asset_id : ℕ
  pub callbacks : Callbacks
  pub has_thread : Bool

-- `pid` is the process's id. `rpc` is `none` where no callbacks have been registered.
pub record Session : Type 0 where
  pub pid : ℤ
  pub master : Master
  pub pdu : Pdu
  pub rpc : Option Rpc

unfoldable pub asset_register_polling : ℤ → List ℕ → Session → Session × Bool
unfolding alloc_asset
asset_register_polling now name s =
    let (m, id) = alloc_asset now s.pid name inside none s.master in
    (record s { master = m }, elim id [ none ↦ false | some i ↦ true ])

-- The slot of an asset: `get_asset_nolock` by its name, and by its id.
abbrev pub slot_of : List ℕ → Master → Option Slot
slot_of name m = elim (find_asset name m.slots) [ none ↦ none | some i ↦ get_asset i m.slots ]

unfoldable pub asset_get_event : List ℕ → Session → AssetEvent
asset_get_event name s = elim (slot_of name s.master) [
  | none ↦ error_event
  | some entry ↦ elim (get_asset entry.id s.master.slots) [
    | none ↦ error_event
    | some ev ↦ ev.event
  ]
]

-- What the thread does after it has been woken: it ends, or calls a function and waits again. An
-- event with no function is a call of a null pointer.
pub data Woken : Type 0 where
  ends : Woken
  calls : ℕ → Woken
  crashes : Woken

abbrev pub call_of : ℕ → Woken
call_of f = if f == 0 then crashes else calls f

unfoldable pub proxy_round : Rpc → List Slot → Woken
proxy_round r ss = elim (get_asset r.asset_id ss) [
  | none ↦ ends
  | some s ↦ elim s.event [
    | start_event ↦ call_of r.callbacks.start
    | stop_event ↦ call_of r.callbacks.stop
    | reset_event ↦ call_of r.callbacks.reset
    | no_event ↦ crashes
    | error_event ↦ crashes
  ]
]

-- `stop`: the thread is woken, and waited for until it ends.
unfoldable pub stop : Rpc → Session → Outcome Session
unfolding proxy_round
stop r s =
    if r.has_thread
    then if eqb_ℤ s.pid s.master.master_pid
      then returns s
      else elim (proxy_round r s.master.slots) [
        | ends ↦ returns (record s { rpc = some (record r { has_thread = false }) })
        | calls f ↦ spins
        | crashes ↦ faults
      ]
    else returns s

-- `asset_register` after the asset has been allocated. The new object takes the place of the old one,
-- whose destructor stops its thread; a new thread is started in a process other than the master's.
unfoldable pub register_rpc : Callbacks → Session → Option ℕ → Outcome (Session × Bool)
register_rpc callbacks t none = returns (t, false)
register_rpc callbacks t (some i) =
    let new : Rpc = record {
      asset_id = i;
      callbacks = callbacks;
      has_thread = if eqb_ℤ t.pid t.master.master_pid then false else true;
    } in
    elim t.rpc [
      | none ↦ returns (record t { rpc = some new }, true)
      | some old ↦ elim (stop old t) [
        | returns u ↦ returns (record u { rpc = some new }, true)
        | spins ↦ spins
        | faults ↦ faults
      ]
    ]

unfoldable pub asset_register : ℤ → List ℕ → Callbacks → Session → Outcome (Session × Bool)
asset_register now name callbacks s =
    let (m, id) = alloc_asset now s.pid name inside (some callbacks) s.master in
    register_rpc callbacks (record s { master = m }) id

unfoldable pub asset_unregister : List ℕ → Session → Outcome (Session × Bool)
unfolding free_asset stop
asset_unregister name s =
    let (m, ret) = free_asset name s.master in
    let t : Session = record s { master = m } in
    elim s.rpc [
      | none ↦ returns (t, ret)
      | some r ↦ elim (stop r t) [ returns u ↦ returns (u, ret) | spins ↦ spins | faults ↦ faults ]
    ]

-- `notify_simtime`, which looks the asset up by its id again and does not test for null there.
unfoldable pub notify_simtime : ℤ → List ℕ → ℤ → Session → Outcome Session
notify_simtime now name simtime s = elim (slot_of name s.master) [
  | none ↦ returns s
  | some entry ↦ elim (get_asset entry.id s.master.slots) [
    | none ↦ faults
    | some ev ↦ returns (record s {
      master = record s.master {
        slots =
            modify entry.id (λ x. record x { ctime = simtime; update_time = now }) s.master.slots;
      };
    })
  ]
]

unfoldable pub get_worldtime : Session → ℤ
get_worldtime s = s.master.time.current

abbrev pub int64_max : ℤ
int64_max = pos (9_223_372_036_854_775_807)

-- The loop for the smallest time.
unfoldable pub min_from : ℤ → List ℤ → ℤ
min_from least [] = least
min_from least (t ∷ ts) = min_from (if ltb_ℤ t least then t else least) ts

unfoldable pub min_time : List ℤ → ℤ
unfolding min_from
min_time [] = pos 0
min_time (t ∷ ts) = min_from int64_max (t ∷ ts)

unfoldable pub get_min_asset_time : Session → ℤ
unfolding min_time get_asset_times
get_min_asset_time s = min_time (get_asset_times s.master.slots)

-- The session after a call on the channels.
module _ {ℓ} {A : Type ℓ} where
  abbrev pub on_pdu : Session → Outcome (Pdu × A) → Outcome (Session × A)
  on_pdu s (returns (p, a)) = returns (record s { pdu = p }, a)
  on_pdu s spins = spins
  on_pdu s faults = faults

  -- A call on the channel with this name, or the answer where there is none.
  abbrev pub on_channel :
      Session → List ℕ → ℤ → A → (ℕ → Pdu → Outcome (Pdu × A)) → Outcome (Session × A)
  on_channel s robo id missing call =
      let (p, real_id) = get_pdu_channel robo id s.pdu in
      elim real_id [ none ↦ returns (record s { pdu = p }, missing) | some c ↦ on_pdu s (call c p) ]

-- `is_pdu_dirty`, which does not test whether the asset was found.
unfoldable pub is_pdu_dirty : List ℕ → List ℕ → ℤ → Session → Outcome (Session × Bool)
unfolding get_pdu_channel
is_pdu_dirty name robo id s = on_channel s robo id false (λ c p. elim (slot_of name s.master) [
  | none ↦ faults
  | some asset ↦ returns (p, Transfer.is_pdu_dirty asset.id c p.meta)
])

unfoldable pub write_pdu : Env → List ℕ → List ℕ → ℤ → List ℕ → Session → Outcome (Session × Bool)
unfolding get_pdu_channel Transfer.write_pdu
write_pdu env name robo id bytes s = elim (slot_of name s.master) [
  | none ↦ returns (s, false)
  | some asset ↦ on_channel s robo id false (λ c. Transfer.write_pdu env c bytes)
]

unfoldable pub write_pdu_for_external :
    Env → List ℕ → ℤ → List ℕ → Session → Outcome (Session × Bool)
unfolding get_pdu_channel Transfer.write_pdu
write_pdu_for_external env robo id bytes s =
    on_channel s robo id false (λ c. Transfer.write_pdu env c bytes)

unfoldable pub read_pdu :
    Env → List ℕ → List ℕ → ℤ → ℕ → Session → Outcome (Session × Option (List ℕ))
unfolding get_pdu_channel Transfer.read_pdu
read_pdu env name robo id len s = elim (slot_of name s.master) [
  | none ↦ returns (s, none)
  | some asset ↦ on_channel s robo id none (λ c. Transfer.read_pdu env asset.id c len)
]

unfoldable pub read_pdu_for_external :
    Env → List ℕ → ℤ → ℕ → Session → Outcome (Session × Option (List ℕ))
unfolding get_pdu_channel Transfer.read_pdu_for_external
read_pdu_for_external env robo id len s =
    on_channel s robo id none (λ c. Transfer.read_pdu_for_external env c len)

unfoldable pub write_pdu_nolock : Env → List ℕ → ℤ → List ℕ → Session → Outcome (Session × Bool)
unfolding get_pdu_channel Transfer.write_pdu_nolock
write_pdu_nolock env robo id bytes s =
    on_channel s robo id false (λ c. Transfer.write_pdu_nolock env c bytes)

unfoldable pub read_pdu_nolock :
    Env → List ℕ → ℤ → ℕ → Session → Outcome (Session × Option (List ℕ))
unfolding get_pdu_channel Transfer.read_pdu_nolock
read_pdu_nolock env robo id len s =
    on_channel s robo id none (λ c. Transfer.read_pdu_nolock env c len)

unfoldable pub notify_write_pdu_done : List ℕ → Session → Session
unfolding Sync.notify_write_pdu_done
notify_write_pdu_done name s = elim (slot_of name s.master) [
  | none ↦ s
  | some asset ↦ record s {
    pdu = record s.pdu { meta = Sync.notify_write_pdu_done asset.id s.pdu.meta };
  }
]

unfoldable pub is_pdu_sync_mode : List ℕ → Session → Bool
unfolding Sync.is_pdu_sync_mode
is_pdu_sync_mode name s = elim (slot_of name s.master) [
  | none ↦ false
  | some asset ↦ Sync.is_pdu_sync_mode asset.id s.pdu.meta
]

unfoldable pub create_pdu_channel : ℕ → ℕ → Session → Outcome (Session × Bool)
unfolding create_channel
create_pdu_channel channel_id pdu_size s = on_pdu s (create_channel channel_id pdu_size s.pdu)

unfoldable pub create_pdu_lchannel : List ℕ → ℤ → ℕ → Session → Outcome (Session × Bool)
unfolding create_lchannel
create_pdu_lchannel robo_name channel_id pdu_size s =
    on_pdu s (create_lchannel robo_name channel_id pdu_size s.pdu)

-- `get_pdu_channel` of the controller: the real id, or `none` for -1.
unfoldable pub channel_of : List ℕ → ℤ → Session → Session × Option ℕ
unfolding get_pdu_channel
channel_of robo_name channel_id s =
    let (p, id) = get_pdu_channel robo_name channel_id s.pdu in (record s { pdu = p }, id)

unfoldable pub is_simulation_mode : Session → Bool
unfolding Sync.is_simulation_mode
is_simulation_mode s = Sync.is_simulation_mode s.pdu.meta

unfoldable pub is_pdu_created : Env → Session → Session × Bool
unfolding Area.is_pdu_created
is_pdu_created env s = let (p, made) = Area.is_pdu_created env s.pdu in (record s { pdu = p }, made)
