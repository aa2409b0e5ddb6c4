-- ===== src/Tests/SpinLock.antt =====
-- A writer and one reader at a channel (hako_pdu_data.hpp with HAKO_CORE_EXTENSION).
use hakoniwa_core_cpp.Prelude.{◌≡◌, ◌≢◌, refl, arith}
use hakoniwa_core_cpp.Pdu.SpinLock.{
  Channel, idle, writing, reading, at_writer, at_reader, writer_moves, reader_moves, writer_drains,
  reader_drains, Run, start, writes, reads, drains, drains_reader,
}
use hakoniwa_core_cpp.Pdu.SpinLock.Fenced.{IsFenced}
use hakoniwa_core_cpp.Pdu.SpinLock.Exclusion.{Run-apart}
use hakoniwa_core_cpp.Pdu.SpinLock.Progress.{Run-enters}
use hakoniwa_core_cpp.Pdu.SpinLock.Together.{Run-together}

-- Both set their flags, and the stores reach the memory.
abbrev both_set : Channel
both_set = reader_drains 0 (writer_drains (reader_moves 0 (writer_moves 1 idle)))

abbrev both_set_run : Run 1 idle both_set
both_set_run = drains_reader 0 (drains (reads 0 (omega arith) (writes start)))

-- The reader finds the writer's flag and goes back, its store reaches the memory, and the writer finds no
-- flag then.
abbrev held : Channel
held = writer_moves 1 (writer_moves 1 (reader_drains 0 (reader_moves 0 (reader_moves 0 both_set))))

abbrev held_run : Run 1 idle held
held_run =
    writes (writes (drains_reader 0 (reads 0 (omega arith) (reads 0 (omega arith) both_set_run))))

held-IsFenced : IsFenced 1 idle held held_run
unfolding at_writer at_reader
held-IsFenced = ((((((tt, λ e. refl), λ e. refl), λ e. refl), λ e. refl), λ e. refl), λ e. refl)

is_held : held.writer ≡ writing
unfolding at_writer at_reader
is_held = refl

Run-apart_example : held.reader 0 ≢ reading
Run-apart_example = Run-apart 1 held 0 held_run held-IsFenced (omega arith) is_held

-- The reader has the channel, and the writer wants it.
abbrev read_first : Channel
read_first = writer_moves 1 (reader_moves 0 (reader_moves 0 idle))

Run-enters_example : (d : Channel) × Run 1 read_first d × (d.writer ≡ writing)
Run-enters_example =
    Run-enters 1 read_first (writes (reads 0 (omega arith) (reads 0 (omega arith) start)))

Run-together_example : (c : Channel) × Run 3 idle c × (c.writer ≡ writing) × (c.reader 2 ≡ reading)
Run-together_example = Run-together 3 2 (omega arith)
