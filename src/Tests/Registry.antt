-- ===== src/Tests/Registry.antt =====
-- Calls on a table of two slots (hako_master_data.hpp).
use hakoniwa_core_cpp.Prelude.{pos, true, false, List, [], ◌∷◌, none, ◌≡◌, arith}
use hakoniwa_core_cpp.Master.Types.{inside}
use hakoniwa_core_cpp.Master.Assets.{init}
use hakoniwa_core_cpp.Master.Registry.{Call, registers, unregisters, looks_up, perform_all}
use hakoniwa_core_cpp.Master.Registry.Refinement.{init-refines}

-- The third registration finds no room, and the last one the place of the asset that has left.
abbrev calls : List Call
calls =
    registers (pos 5) (pos 8) (65 ∷ []) inside none
    ∷ registers (pos 5) (pos 8) (66 ∷ []) inside none
    ∷ registers (pos 6) (pos 9) (67 ∷ []) inside none
    ∷ unregisters (65 ∷ [])
    ∷ looks_up (65 ∷ [])
    ∷ registers (pos 7) (pos 9) (67 ∷ []) inside none
    ∷ []

init-refines_example :
    perform_all calls (init 2 (pos 7))
    ≡ (true, 1) ∷ (true, 2) ∷ (false, 2) ∷ (true, 1) ∷ (false, 1) ∷ (true, 2) ∷ []
init-refines_example = init-refines calls 2 (pos 7) (omega arith) (
  (omega arith, tt),
  (
    (omega arith, tt),
    ((omega arith, tt), ((omega arith, tt), ((omega arith, tt), ((omega arith, tt), tt)))),
  ),
)
