-- ===== src/Pdu/SpinLock/Fenced.antt =====
-- Runs of the spin locks in which each process waits for its own stores before it loads a flag
-- (hako_pdu_data.hpp).
use hakoniwa_core_cpp.Prelude.{ℕ, Bool, true, false, ltb, [], ◌≡◌}
use hakoniwa_core_cpp.Pdu.SpinLock.{
  WriterAt, unlocked, scanning, writing, ReaderAt, apart, flagged, backing_off, reading, Channel,
  Run, start, writes, reads, drains, drains_reader,
}

-- Whether the next access is a load.
abbrev pub writer_loads : ℕ → WriterAt → Bool
writer_loads readers unlocked = false
writer_loads readers (scanning i) = ltb i readers
writer_loads readers writing = false

abbrev pub reader_loads : ReaderAt → Bool
reader_loads flagged = true
reader_loads apart = false
reader_loads backing_off = false
reader_loads reading = false

-- No process of the run loads a flag while a store of its own waits.
abbrev pub IsFenced : (readers : ℕ) (c d : Channel) → Run readers c d → Type 0
IsFenced readers c _ start = Unit
IsFenced readers c _ (writes {d} r) =
    IsFenced readers c d r × (writer_loads readers d.writer ≡ true → d.wbuf ≡ [])
IsFenced readers c _ (reads {d} p small r) =
    IsFenced readers c d r × (reader_loads (d.reader p) ≡ true → d.rbuf p ≡ [])
IsFenced readers c _ (drains {d} r) = IsFenced readers c d r
IsFenced readers c _ (drains_reader {d} p r) = IsFenced readers c d r
