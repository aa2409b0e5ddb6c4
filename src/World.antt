-- ===== src/World.antt =====
-- src/hako/core/simulation/time/hako_time.{hpp,cpp}: `TheWorld`, the simulation clock.
-- Times are int64_t microseconds. Their overflow is undefined in C++, so they are plain integers.
pub mod Skew
use hakoniwa_core_cpp.Prelude.{
  ℤ, pos, pos_part, neg_part, ◌+ℤ◌, ◌-ℤ◌, leb_ℤ, Bool, true, false, List, [], ◌∷◌, if◌then◌else◌,
  leb,
}

pub record World : Type 0 where
  pub max_delay : ℤ
  pub delta : ℤ
  pub wait_time : ℤ
  pub world_time : ℤ

-- The constructor, and `set_config_simtime` too, which assigns the same four values.
unfoldable pub the_world : ℤ → ℤ → World
the_world max delta = record {
  max_delay = max;
  delta = delta;
  wait_time = pos 0;
  world_time = pos 0;
}

unfoldable pub reset_world_time : World → World
reset_world_time w = record w { world_time = pos 0 }

-- The loop over the assets' times, which breaks at the first asset that lags too far behind.
unfoldable pub can_step : World → List ℤ → Bool
can_step w [] = true
can_step w (t ∷ ts) =
    let diff = t -ℤ w.world_time in
    if leb_ℤ diff (pos 0 -ℤ w.max_delay) then false else can_step w ts

unfoldable pub time_begins_to_move : World → List ℤ → World
unfolding can_step
time_begins_to_move w ts =
    if can_step w ts
    then record w { world_time = w.world_time +ℤ w.delta }
    else record w { wait_time = w.wait_time +ℤ w.delta }
