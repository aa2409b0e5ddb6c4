-- ===== src/Pdu/SpinLock/Together.antt =====
-- The spin locks of HAKO_CORE_EXTENSION let the writer and a reader in together, since their stores may wait
-- while they load each other's flags (hako_pdu_data.hpp, hako_base_data.hpp).
use hakoniwa_core_cpp.Prelude.{ℕ, ◌<◌, false, ◌≡◌, refl, ap, arith}
use hakoniwa_core_cpp.Pdu.SpinLock.{
  writing, apart, reading, at_reader, Channel, writer_moves, reader_moves, Run, start, writes,
  reads, idle,
}
use hakoniwa_core_cpp.Pdu.SpinLock.Draining.{follow}
use hakoniwa_core_cpp.Pdu.SpinLock.Progress.{scan_succeeds, scans_from_start}

-- A reader that sees no flag of the writer in memory is in after two accesses.
reader_enters :
    (p : ℕ) (c : Channel)
    → c.flags.wbusy ≡ false
    → c.reader p ≡ apart
    → (reader_moves p (reader_moves p c)).reader p ≡ reading
unfolding at_reader
reader_enters p c unset e = ground arith

-- With the spin locks of the extension: whatever the number of readers is, an order of accesses leads from
-- a channel that nobody uses to one in which the writer and any one of the readers are both between
-- their lock and their unlock, while their stores wait for the memory.
pub Run-together :
    (readers p : ℕ)
    → p < readers
    → (c : Channel) × Run readers idle c × (c.writer ≡ writing) × (c.reader p ≡ reading)
Run-together readers p small =
    let b = writer_moves readers idle in
    let (d, r, inside, flags, places) =
      scan_succeeds readers 0 b (scans_from_start readers idle refl) (λ q h. refl) in
    (
      reader_moves p (reader_moves p d),
      reads p small (reads p small (follow readers idle b d (writes start) r)),
      inside,
      reader_enters p d (ap (λ f. f.wbusy) flags) (ap (λ f. f p) places),
    )
