-- ===== src/Pdu/Sync.antt =====
-- hako_pdu_data.hpp: the mode in which the assets first write their data once (`pdu_sync`).
use hakoniwa_core_cpp.Prelude.{
  ℕ, ◌+◌, Bool, true, false, not, leb, if◌then◌else◌, List, [], ◌∷◌, length, set, get_elem?, none,
  some,
}
use hakoniwa_core_cpp.Pdu.Types.{master_mode, is_master_mode, Meta}

-- The loop that counts the assets which are done.
unfoldable pub count_true : List Bool → ℕ
count_true [] = 0
count_true (b ∷ bs) = (if b then 1 else 0) + count_true bs

unfoldable pub notify_write_pdu_done : ℕ → Meta → Meta
unfolding count_true
notify_write_pdu_done asset_id m =
    if leb (length m.check_status) asset_id
    then m
    else if is_master_mode m.mode
    then m
    else let m' : Meta = record m { check_status = set m.check_status asset_id true } in
      if leb m'.asset_num (count_true m'.check_status) then record m' { mode = master_mode } else m'

unfoldable pub is_pdu_sync_mode : ℕ → Meta → Bool
is_pdu_sync_mode asset_id m =
    if leb (length m.check_status) asset_id
    then false
    else if is_master_mode m.mode
    then false
    else elim (get_elem? m.check_status asset_id) [ none ↦ true | some b ↦ not b ]

unfoldable pub is_simulation_mode : Meta → Bool
is_simulation_mode m = if is_master_mode m.mode then true else false
