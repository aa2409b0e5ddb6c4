-- ===== src/Command/Restoring.antt =====
-- What the tool restores and dumps (hako_cmd.cpp).
use hakoniwa_core_cpp.Prelude.{List}
use hakoniwa_core_cpp.Pdu.Types.{Pdu}
