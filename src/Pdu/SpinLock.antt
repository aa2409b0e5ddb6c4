-- ===== src/Pdu/SpinLock.antt =====
-- hako_pdu_data.hpp with HAKO_CORE_EXTENSION: the spin locks of one channel, for its one writer and for its
-- readers, of which the first one is external. Each access to a flag is a step. The stores are of
-- memory_order_release and the loads of memory_order_acquire (hako_base_data.hpp), so a store waits in the
-- buffer of its process, while the process goes on to load other flags.
pub mod Shown
pub mod Fenced
pub mod Draining
pub mod Exclusion
pub mod Progress
pub mod Together
use hakoniwa_core_cpp.Prelude.{
  ℕ, suc, ◌<◌, Bool, true, false, ltb, ◌==◌, if◌then◌else◌, List, [], ◌∷◌, ◌++◌, Option, none, some,
}
use hakoniwa_core_cpp.Pdu.Types.{update}

-- `atomic_is_wbusy` of the channel, and `atomic_is_rbusy` and `atomic_is_rbusy_for_external`, in memory.
pub record Flags : Type 0 where
  pub wbusy : Bool
  pub rbusy : ℕ → Bool

-- Outside, at the flag of a reader that `is_pdu_rbusy` looks at next, or between lock and unlock.
pub data WriterAt : Type 0 where
  unlocked : WriterAt
  scanning : ℕ → WriterAt
  writing : WriterAt

-- Outside, with the own flag set, on the way back from a channel in use, or between lock and unlock.
pub data ReaderAt : Type 0 where
  apart flagged backing_off reading : ReaderAt

-- The next access of `write_pdu_spin_lock` with `readers` flags, or the one of `write_pdu_spin_unlock`: what it
-- stores into the own flag, if it is a store, and where it leads.
unfoldable pub at_writer : ℕ → Flags → WriterAt → Option Bool × WriterAt
at_writer readers f unlocked = (some true, scanning 0)
at_writer readers f (scanning i) =
    (none, if ltb i readers then if f.rbusy i then scanning 0 else scanning (suc i) else writing)
at_writer readers f writing = (some false, unlocked)

-- The next access of `read_pdu_for_asset_spin_lock` or `read_pdu_for_external_spin_lock`, or the one of the
-- unlock.
unfoldable pub at_reader : Flags → ReaderAt → Option Bool × ReaderAt
at_reader f apart = (some true, flagged)
at_reader f flagged = (none, if f.wbusy then backing_off else reading)
at_reader f backing_off = (some false, apart)
at_reader f reading = (some false, apart)

-- `wbuf` and `rbuf` are the stores that wait, the oldest one first. Each process stores into its own flag
-- only, which it does not load.
pub record Channel : Type 0 where
  pub flags : Flags
  pub wbuf : List Bool
  pub rbuf : ℕ → List Bool
  pub writer : WriterAt
  pub reader : ℕ → ReaderAt

abbrev pub stored : List Bool → Option Bool → List Bool
stored bs none = bs
stored bs (some b) = bs ++ b ∷ []

abbrev pub writer_moves : ℕ → Channel → Channel
writer_moves readers c =
    let next = at_writer readers c.flags c.writer in
    record c { wbuf = stored c.wbuf next.0; writer = next.1 }

abbrev pub reader_moves : ℕ → Channel → Channel
reader_moves p c =
    let next = at_reader c.flags (c.reader p) in
    record c {
      rbuf = update c.rbuf p (stored (c.rbuf p) next.0);
      reader = update c.reader p next.1;
    }

-- The oldest store of the writer reaches the memory.
abbrev pub writer_drains : Channel → Channel
writer_drains c = elim c.wbuf [
  | [] ↦ c
  | b ∷ bs ↦ record c { flags = record c.flags { wbusy = b }; wbuf = bs }
]

abbrev pub reader_drains : ℕ → Channel → Channel
reader_drains p c = elim (c.rbuf p) [
  | [] ↦ c
  | b ∷ bs ↦ record c {
    flags = record c.flags { rbusy = update c.flags.rbusy p b };
    rbuf = update c.rbuf p bs;
  }
]

pub data Run (readers : ℕ) (c : Channel) : Channel → Type 0 where
  start : Run readers c c
  writes : {d : Channel} → Run readers c d → Run readers c (writer_moves readers d)
  reads : {d : Channel} (p : ℕ) → p < readers → Run readers c d → Run readers c (reader_moves p d)
  drains : {d : Channel} → Run readers c d → Run readers c (writer_drains d)
  drains_reader : {d : Channel} (p : ℕ) → Run readers c d → Run readers c (reader_drains p d)

-- A channel that nobody uses.
abbrev pub idle : Channel
idle = record {
  flags = record { wbusy = false; rbusy = λ p. false };
  wbuf = [];
  rbuf = λ p. [];
  writer = unlocked;
  reader = λ p. apart;
}
