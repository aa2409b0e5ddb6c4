-- ===== src/Tests/Times.antt =====
-- The world's clock with one asset (hako_time.cpp).
use hakoniwa_core_cpp.Prelude.{pos, +ℤ_parts, -ℤ_parts, [], ◌∷◌, refl, arith}
use hakoniwa_core_cpp.World.{World, time_begins_to_move}
use hakoniwa_core_cpp.World.Skew.{here, move, report, InBounds, Reach-InBounds}

abbrev world : World
world = record { max_delay = pos 20; delta = pos 10; wait_time = pos 0; world_time = pos 0 }

start-InBounds : InBounds (pos 20) (pos 10) world (pos 0 ∷ [])
start-InBounds = record {
  same_max = refl;
  same_delta = refl;
  skew = (omega (arith, -ℤ_parts (pos 0) (pos 0), +ℤ_parts (pos 20) (pos 10)), tt);
}

-- The world moves twice, and in between the asset's time goes to 5.
Reach-InBounds_example :
    InBounds
      (pos 20)
      (pos 10)
      (time_begins_to_move (time_begins_to_move world (pos 0 ∷ [])) (pos 5 ∷ []))
      (pos 5 ∷ [])
Reach-InBounds_example =
    Reach-InBounds (pos 20) (pos 10) world (pos 0 ∷ []) start-InBounds
      (move (report (move here) (omega arith, tt)))
