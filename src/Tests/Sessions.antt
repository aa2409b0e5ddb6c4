-- ===== src/Tests/Sessions.antt =====
-- Two assets in two processes, and a channel (hako_asset_impl.cpp).
use hakoniwa_core_cpp.Prelude.{
  ℕ, pos, true, false, [], ◌∷◌, replicate, none, some, ◌≡◌, ◌≢◌, refl, arith,
}
use hakoniwa_core_cpp.FixedString.{matches, strncmp_eq, fixed_to_string}
use hakoniwa_core_cpp.Master.Types.{
  Slot, zero_slot, inside, running, Master, Callbacks, start_event,
}
use hakoniwa_core_cpp.Master.Assets.{init, find_asset, get_asset}
use hakoniwa_core_cpp.Master.Table.{IsTable}
use hakoniwa_core_cpp.Pdu.Types.{asset_mode, Meta, Pdu, Env, returns}
use hakoniwa_core_cpp.Pdu.Channels.{scan, entries, bytes_eq}
use hakoniwa_core_cpp.Pdu.Transfer.{is_pdu_rbusy, any_rbusy}
use hakoniwa_core_cpp.Pdu.Layout.{sum_sizes, IsReady}
use hakoniwa_core_cpp.Pdu.Sharing.{elsewhere}
use hakoniwa_core_cpp.Controller.{Rpc, Session, write_pdu, read_pdu, asset_unregister}
use hakoniwa_core_cpp.Command.{Opened, Surroundings}
use hakoniwa_core_cpp.Controller.Exchange.{read-write_named}
use hakoniwa_core_cpp.Controller.Leaving.{unregister-ne-returns, unregister-ends}

abbrev env : Env
env = record { init_lock = true; alloc_ok = λ n. true }

abbrev callbacks : Callbacks
callbacks = record { start = 11; stop = 12; reset = 13 }

-- The assets "A" and "B".
abbrev slot : ℕ → ℕ → Slot
slot i letter = record zero_slot {
  id = i;
  name = record { len = 1; chars = letter ∷ 0 ∷ [] };
  kind = inside;
  callbacks = callbacks;
  pid = pos 5;
  event = start_event;
}

abbrev table : Master
table = record (init 2 (pos 9)) { asset_num = 2; slots = slot 0 65 ∷ slot 1 66 ∷ [] }

-- The channel 3 of the robot "R", of two bytes.
abbrev meta : Meta
meta = record {
  mode = asset_mode;
  asset_num = 2;
  sync_asset_id = 0;
  check_status = false ∷ false ∷ [];
  channel_num = 1;
  channel = record { offset = 0; size = 2 } ∷ [];
  channel_map =
      record { robo_name = record { len = 1; chars = 82 ∷ 0 ∷ [] }; logical_id = pos 3 } ∷ [];
  is_dirty = λ c. false;
  rbusy = λ a c. false;
  rbusy_external = λ c. false;
  wbusy = λ c. false;
  table_busy = false;
  read_version = λ a c. 0;
  write_version = λ c. 0;
}

abbrev area : Pdu
area = record { meta = meta; area = some (replicate 2 0); cache = []; attached = true }

area-IsReady : IsReady area
unfolding sum_sizes
area-IsReady = record {
  bytes = replicate 2 0;
  is_attached = refl;
  has_area = refl;
  laid_out = (refl, tt);
  fits = refl;
}

abbrev session : Session
session = record { pid = pos 5; master = table; pdu = area; rpc = none }

table-IsTable : IsTable 0 table.slots
unfolding find_asset matches strncmp_eq fixed_to_string
table-IsTable = (
  (λ h. (refl, (omega arith, tt), omega arith)),
  (λ h. refl),
  ((λ h. (refl, (omega arith, tt), omega arith)), (λ h. refl), tt),
)

finds_a : find_asset (65 ∷ []) table.slots ≡ some 0
unfolding find_asset matches strncmp_eq fixed_to_string
finds_a = refl

finds_b : find_asset (66 ∷ []) table.slots ≡ some 1
unfolding find_asset matches strncmp_eq fixed_to_string
finds_b = refl

finds_no_c : find_asset (67 ∷ []) table.slots ≡ none
unfolding find_asset matches strncmp_eq fixed_to_string
finds_no_c = refl

finds_channel : scan (82 ∷ []) (pos 3) (entries meta) ≡ some 0
unfolding scan bytes_eq fixed_to_string matches
finds_channel = refl

no_reader : is_pdu_rbusy 0 meta ≡ false
unfolding is_pdu_rbusy any_rbusy
no_reader = refl

read-write_named_example :
    (s' t' : Session) × (write_pdu env (65 ∷ []) (82 ∷ []) (pos 3) (7 ∷ 8 ∷ []) session
      ≡ returns (s', true))
    × (read_pdu env
          (66 ∷ [])
          (82 ∷ [])
          (pos 3)
          2
          (record session { pid = pos 6; master = s'.master; pdu = elsewhere [] s'.pdu })
        ≡ returns (t', some (7 ∷ 8 ∷ [])))
unfolding area-IsReady
read-write_named_example =
    read-write_named env (65 ∷ []) (66 ∷ []) (82 ∷ []) (pos 3) (7 ∷ 8 ∷ []) session
      (record session { pid = pos 6 }) [] 0 1 0 area-IsReady table-IsTable finds_a finds_b tt tt
      finds_channel refl (omega arith) (omega arith) (omega arith) (omega arith) no_reader

-- The process of the asset "A", whose thread runs.
abbrev rpc : Rpc
rpc = record { asset_id = 0; callbacks = callbacks; has_thread = true }

abbrev with_thread : Session
with_thread = record session { rpc = some rpc }

abbrev while_running : Session
while_running = record with_thread { master = record table { state = running } }

uses_a : get_asset 0 table.slots ≡ some (slot 0 65)
unfolding get_asset
uses_a = refl

unregister-ne-returns_example :
    asset_unregister (65 ∷ []) while_running ≢ returns (while_running, false)
unfolding init
unregister-ne-returns_example =
    unregister-ne-returns (65 ∷ []) rpc while_running while_running (slot 0 65) false refl refl refl
      uses_a refl

unregister-ends_example :
    (t : Session) × (asset_unregister (65 ∷ []) with_thread ≡ returns (t, true))
    × (get_asset 0 t.master.slots ≡ none)
    × (t.rpc ≡ some (record rpc { has_thread = false }))
unfolding init
unregister-ends_example = unregister-ends (65 ∷ []) rpc with_thread refl refl refl finds_a refl

-- The tool, a file of two bytes, and a number.
abbrev surroundings : Surroundings
surroundings = record {
  host = record { pid = pos 7; invoke = λ f m. m };
  env = env;
  atoi = λ text. pos 0;
  read_file = λ path. some (7 ∷ 8 ∷ []);
  read_huge = λ path count. none;
  junk = λ n. replicate n 255;
}

abbrev opened : Opened
opened = record { bus = record { master = table; raised = [] }; pdu = area }
