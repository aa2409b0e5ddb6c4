-- ===== src/Tests/Channels.antt =====
-- Three channels, of 4, 2 and 0 bytes (hako_pdu_data.hpp).
use hakoniwa_core_cpp.Prelude.{
  ℕ, ◌+◌, pos, ◌^◌, ◌<◌, ◌≤◌, true, false, List, [], ◌∷◌, length, replicate, none, some, ◌≡◌, refl,
  arith, ◌⊎◌,
}
use hakoniwa_core_cpp.Pdu.Types.{ChannelMap, Meta, asset_mode, Pdu, Env, returns, faults}
use hakoniwa_core_cpp.Pdu.Channels.{
  size_at, scan, entries, get_pdu_channel, create_channel, create_lchannel,
}
use hakoniwa_core_cpp.Pdu.Area.{create, reset}
use hakoniwa_core_cpp.Pdu.Transfer.{
  offset_at, is_pdu_dirty, is_pdu_rbusy, any_rbusy, write_pdu, read_pdu,
}
use hakoniwa_core_cpp.Pdu.Layout.{sum_sizes, IsReady, create-IsReady, create-regions}
use hakoniwa_core_cpp.Pdu.RoundTrip.{read-write, read-write_ne}
use hakoniwa_core_cpp.Pdu.Register.{MayCreate, get-create_lchannel}
use hakoniwa_core_cpp.Pdu.Late.{write-late}
use hakoniwa_core_cpp.Pdu.Reset.{read-reset}

abbrev no_name : ChannelMap
no_name = record { robo_name = record { len = 0; chars = [] }; logical_id = pos 0 }

abbrev meta : Meta
meta = record {
  mode = asset_mode;
  asset_num = 0;
  sync_asset_id = 0;
  check_status = false ∷ false ∷ [];
  channel_num = 2;
  channel =
      record { offset = 0; size = 4 }
      ∷ record { offset = 0; size = 2 }
      ∷ record { offset = 0; size = 0 }
      ∷ [];
  channel_map = no_name ∷ no_name ∷ no_name ∷ [];
  is_dirty = λ c. false;
  rbusy = λ a c. false;
  rbusy_external = λ c. false;
  wbusy = λ c. false;
  table_busy = false;
  read_version = λ a c. 0;
  write_version = λ c. 0;
}

abbrev env : Env
env = record { init_lock = true; alloc_ok = λ n. true }

abbrev fresh : Pdu
fresh = record { meta = meta; area = none; cache = []; attached = false }

six : sum_sizes meta.channel < 2 ^ 64
unfolding sum_sizes
six = omega arith

create-IsReady_example : (q : Pdu) × (create env 2 fresh ≡ returns q) × IsReady q
create-IsReady_example = create-IsReady env 2 fresh refl refl six refl

-- The area of six bytes.
abbrev ready : Pdu
ready = record fresh {
  meta = record meta {
    asset_num = 2;
    channel =
        record { offset = 0; size = 4 }
        ∷ record { offset = 4; size = 2 }
        ∷ record { offset = 6; size = 0 }
        ∷ [];
  };
  area = some (replicate 6 0);
  attached = true;
}

ready-IsReady : IsReady ready
unfolding sum_sizes
ready-IsReady = record {
  bytes = replicate 6 0;
  is_attached = refl;
  has_area = refl;
  laid_out = (refl, (refl, (refl, tt)));
  fits = refl;
}

not_blocked : (c : ℕ) → is_pdu_rbusy c ready.meta ≡ false
unfolding is_pdu_rbusy any_rbusy
not_blocked c = refl

create-regions_example :
    (q : Pdu) × (bytes : List ℕ) × (create env 2 fresh ≡ returns q)
    × (q.area ≡ some bytes)
    × (size_at 0 q.meta.channel ≡ size_at 0 fresh.meta.channel)
    × (offset_at 0 q.meta.channel + size_at 0 q.meta.channel ≤ length bytes)
    × (offset_at 1 q.meta.channel + size_at 1 q.meta.channel ≤ length bytes)
    × ((offset_at 0 q.meta.channel + size_at 0 q.meta.channel ≤ offset_at 1 q.meta.channel)
        ⊎ (offset_at 1 q.meta.channel + size_at 1 q.meta.channel ≤ offset_at 0 q.meta.channel))
create-regions_example =
    create-regions env 2 0 1 fresh refl refl six refl (omega arith) (omega arith) (omega arith)

abbrev payload : List ℕ
payload = 7 ∷ 8 ∷ []

read-write_example :
    (q r : Pdu) × (write_pdu env 1 payload ready ≡ returns (q, true))
    × (read_pdu env 0 1 2 q ≡ returns (r, some payload))
    × (is_pdu_dirty 0 1 r.meta ≡ false)
read-write_example =
    read-write env 0 1 payload ready ready-IsReady (omega arith) (omega arith) (not_blocked 1)

read-write_ne_example :
    (q r s : Pdu) × (out : List ℕ) × (write_pdu env 1 payload ready ≡ returns (q, true))
    × (read_pdu env 0 0 4 ready ≡ returns (r, some out))
    × (read_pdu env 0 0 4 q ≡ returns (s, some out))
read-write_ne_example =
    read-write_ne env 0 1 0 4 payload ready ready-IsReady (omega arith) (omega arith) (omega arith)
      (omega arith) (omega arith) (not_blocked 1) refl

read-reset_example :
    (q r : Pdu) × (reset env ready ≡ returns q)
    × (is_pdu_dirty 0 1 q.meta ≡ false)
    × (read_pdu env 0 1 2 q ≡ returns (r, some (0 ∷ 0 ∷ [])))
unfolding ready-IsReady
read-reset_example =
    read-reset env 0 1 2 ready ready-IsReady refl (omega arith) (omega arith) (omega arith)

nothing_behind : sum_sizes (record { offset = 6; size = 0 } ∷ []) ≡ 0
unfolding sum_sizes
nothing_behind = refl

write-late_example :
    (q r : Pdu) × (create_channel 2 8 ready ≡ returns (q, true))
    × (create env 2 q ≡ returns r)
    × (write_pdu env 2 payload r ≡ faults)
write-late_example =
    write-late env 2 2 8 payload ready ready-IsReady refl (omega arith) nothing_behind refl
      (not_blocked 2) (omega arith) (omega arith)

abbrev robo : List ℕ
robo = 82 ∷ 49 ∷ []

not_found : scan robo (pos 3) (entries meta) ≡ none
unfolding scan
not_found = refl

fresh-MayCreate : MayCreate robo (pos 3) fresh
fresh-MayCreate = record {
  short = omega arith;
  plain = (omega arith, (omega arith, tt));
  is_free = refl;
  coherent = tt;
  is_new = not_found;
  map_room = omega arith;
  room = omega arith;
  unused = refl;
}

get-create_lchannel_example :
    (q : Pdu) × (create_lchannel robo (pos 3) 8 fresh ≡ returns (q, true))
    × (scan robo (pos 3) (entries q.meta) ≡ some 2)
    × ((get_pdu_channel robo (pos 3) q).1 ≡ some 2)
get-create_lchannel_example = get-create_lchannel robo (pos 3) 8 fresh fresh-MayCreate

-- The second channel has a size, and only one channel is counted.
abbrev with_gap : Pdu
with_gap = record fresh { meta = record meta { channel_num = 1 } }

not_found_gap : scan robo (pos 3) (entries with_gap.meta) ≡ none
unfolding scan
not_found_gap = refl
