-- ===== src/Pdu/SpinLock/Exclusion.antt =====
-- Where no process loads the other's flag before its own store is in memory, the spin locks of
-- HAKO_CORE_EXTENSION keep the writer and the readers apart (hako_pdu_data.hpp).
use hakoniwa_core_cpp.Prelude.{
  ℕ, suc, ◌<◌, Bool, true, false, ltb, ◌==◌, if◌then◌else◌, List, [], ◌≡◌, ◌≢◌, refl, sym, ap, ◌∙◌,
  arith, Bool-cases, inl, inr,
}
use hakoniwa_core_cpp.Pdu.Types.{update}
use hakoniwa_core_cpp.Pdu.SpinLock.{
  WriterAt, unlocked, scanning, writing, ReaderAt, apart, flagged, backing_off, reading, at_writer,
  at_reader, Channel, stored, writer_moves, reader_moves, writer_drains, reader_drains, Run, start,
  writes, reads, drains, drains_reader, idle,
}
use hakoniwa_core_cpp.Pdu.SpinLock.Shown.{
  latest, is_writer_in, has_flag, IsShown, idle-IsShown, writer_drains-kept, reader_drains-kept,
}
use hakoniwa_core_cpp.Pdu.SpinLock.Fenced.{writer_loads, reader_loads, IsFenced}

-- The readers below this number are not between lock and unlock.
abbrev cleared : ℕ → WriterAt → ℕ
cleared readers unlocked = 0
cleared readers (scanning i) = i
cleared readers writing = readers

record IsSafe (readers : ℕ) (c : Channel) : Type 0 where
  writer_done : 0 < cleared readers c.writer → c.wbuf ≡ []
  reader_done : (p : ℕ) → c.reader p ≡ reading → c.rbuf p ≡ []
  clear : (p : ℕ) → p < cleared readers c.writer → c.reader p ≢ reading

-- The flag of a reader between lock and unlock is set in memory.
reading-rbusy :
    (readers : ℕ) (c : Channel) (p : ℕ)
    → IsShown c
    → IsSafe readers c
    → c.reader p ≡ reading
    → c.flags.rbusy p ≡ true
reading-rbusy readers c p u v e =
    ap (latest (c.flags.rbusy p)) (sym (v.reader_done p e)) ∙ u.flags_right p ∙ ap has_flag e

cleared-in : (readers : ℕ) (w : WriterAt) → 0 < cleared readers w → is_writer_in w ≡ true
cleared-in readers unlocked h = absurd (omega (arith, h))
cleared-in readers (scanning i) h = refl
cleared-in readers writing h = refl

-- The flag of a writer that keeps a reader out is set in memory.
cleared-wbusy :
    (readers : ℕ) (c : Channel)
    → IsShown c
    → IsSafe readers c
    → 0 < cleared readers c.writer
    → c.flags.wbusy ≡ true
cleared-wbusy readers c u v h =
    ap (latest c.flags.wbusy) (sym (v.writer_done h)) ∙ u.shown ∙ cleared-in readers c.writer h

abbrev moved : Channel → WriterAt → List Bool → Channel
moved c w bs = record c { writer = w; wbuf = bs }

scan-IsSafe :
    (readers i : ℕ) (c : Channel)
    → IsShown c
    → IsSafe readers c
    → c.writer ≡ scanning i
    → (ltb i readers ≡ true → c.wbuf ≡ [])
    → IsSafe readers (
        moved c
          (if ltb i readers
            then if c.flags.rbusy i then scanning 0 else scanning (suc i)
            else writing)
          c.wbuf)
scan-IsSafe readers i c u v e fenced = elim (Bool-cases (ltb i readers)) [
  | inr last ↦ record {
    writer_done = λ h. v.writer_done (ground arith);
    reader_done = v.reader_done;
    clear = λ p h x. v.clear p (ground arith) x;
  }
  | inl more ↦ elim (Bool-cases (c.flags.rbusy i)) [
    | inl busy ↦ record {
      writer_done = λ h. fenced more;
      reader_done = v.reader_done;
      clear = λ p h x. ground arith;
    }
    | inr free ↦ record {
      writer_done = λ h. fenced more;
      reader_done = v.reader_done;
      clear = λ p h x. elim (Bool-cases (p == i)) [
        | inl here ↦ ground (arith, reading-rbusy readers c p u v x)
        | inr there ↦ v.clear p (ground arith) x
      ];
    }
  ]
]

writer-IsSafe :
    (readers : ℕ) (c : Channel)
    → IsShown c
    → IsSafe readers c
    → (writer_loads readers c.writer ≡ true → c.wbuf ≡ [])
    → IsSafe readers (writer_moves readers c)
unfolding at_writer
writer-IsSafe readers c u v fenced = go c.writer refl
  where
    outside :
        (w : WriterAt) (bs : List Bool) → cleared readers w ≡ 0 → IsSafe readers (moved c w bs)
    outside w bs e = record {
      writer_done = λ h. absurd (omega (arith, e, h));
      reader_done = v.reader_done;
      clear = λ p h x. omega (arith, e, h);
    }

    go :
        (w : WriterAt)
        → c.writer ≡ w
        → IsSafe readers (
            moved c (at_writer readers c.flags w).1 (stored c.wbuf (at_writer readers c.flags w).0))
    go unlocked e = outside (scanning 0) _ refl
    go (scanning i) e =
        scan-IsSafe readers i c u v e (λ more. fenced (ap (writer_loads readers) e ∙ more))
    go writing e = outside unlocked _ refl

reader-IsSafe :
    (readers p : ℕ) (c : Channel)
    → IsShown c
    → IsSafe readers c
    → (reader_loads (c.reader p) ≡ true → c.rbuf p ≡ [])
    → IsSafe readers (reader_moves p c)
unfolding at_reader
reader-IsSafe readers p c u v fenced = go (c.reader p) refl
  where
    moves :
        (x : ReaderAt) (bs : List Bool)
        → (x ≡ reading → bs ≡ [])
        → (x ≡ reading → c.flags.wbusy ≡ false)
        → IsSafe readers (record c { rbuf = update c.rbuf p bs; reader = update c.reader p x })
    moves x bs done unset = record {
      writer_done = v.writer_done;
      reader_done = λ q e. elim (Bool-cases (p == q)) [
        | inl own ↦ ground (arith, done)
        | inr other ↦ ground (arith, v.reader_done q)
      ];
      clear = λ q h e. elim (Bool-cases (p == q)) [
        | inl own ↦ ground (arith, unset, cleared-wbusy readers c u v (omega (arith, h)))
        | inr other ↦ ground (arith, v.clear q h)
      ];
    }

    go :
        (x : ReaderAt)
        → c.reader p ≡ x
        → IsSafe readers (record c {
          rbuf = update c.rbuf p (stored (c.rbuf p) (at_reader c.flags x).0);
          reader = update c.reader p (at_reader c.flags x).1;
        })
    go apart e = moves flagged _ (λ h. absurd (cc h)) (λ h. absurd (cc h))
    go flagged e =
        moves (if c.flags.wbusy then backing_off else reading) (c.rbuf p)
          (λ h. fenced (ap reader_loads e)) (λ h. ground arith)
    go backing_off e = moves apart _ (λ h. absurd (cc h)) (λ h. absurd (cc h))
    go reading e = moves apart _ (λ h. absurd (cc h)) (λ h. absurd (cc h))

drained : (c : Channel) → c.wbuf ≡ [] → (writer_drains c).wbuf ≡ []
drained c e = ground arith

reader_drained : (p q : ℕ) (c : Channel) → c.rbuf q ≡ [] → (reader_drains p c).rbuf q ≡ []
reader_drained p q c e = elim (Bool-cases (p == q)) [
  | inl own ↦ ground arith
  | inr other ↦ ground arith
]

writer_drains-IsSafe :
    (readers : ℕ) (c : Channel) → IsSafe readers c → IsSafe readers (writer_drains c)
writer_drains-IsSafe readers c v =
    let (flags, buffers, at, readers_at) = writer_drains-kept c in
    record {
      writer_done = λ h. drained c (v.writer_done (rw at at h));
      reader_done = rw (buffers, readers_at) v.reader_done;
      clear = rw (at, readers_at) v.clear;
    }

reader_drains-IsSafe :
    (readers p : ℕ) (c : Channel) → IsSafe readers c → IsSafe readers (reader_drains p c)
reader_drains-IsSafe readers p c v =
    let (flag, buffer, at, readers_at) = reader_drains-kept p c in
    record {
      writer_done = rw (buffer, at) v.writer_done;
      reader_done = λ q e. reader_drained p q c (v.reader_done q (rw readers_at at e));
      clear = rw (at, readers_at) v.clear;
    }

Run-IsSafe :
    (readers : ℕ) (c : Channel) (r : Run readers idle c)
    → IsFenced readers idle c r
    → IsSafe readers c
Run-IsSafe readers _ start f = record {
  writer_done = λ h. refl;
  reader_done = λ p e. refl;
  clear = λ p h x. omega (arith, h);
}
Run-IsSafe readers _ (writes {d} r) f =
    writer-IsSafe readers d (idle-IsShown readers d r) (Run-IsSafe readers d r f.0) f.1
Run-IsSafe readers _ (reads {d} p small r) f =
    reader-IsSafe readers p d (idle-IsShown readers d r) (Run-IsSafe readers d r f.0) f.1
Run-IsSafe readers _ (drains {d} r) f = writer_drains-IsSafe readers d (Run-IsSafe readers d r f)
Run-IsSafe readers _ (drains_reader {d} p r) f =
    reader_drains-IsSafe readers p d (Run-IsSafe readers d r f)

-- With the spin locks of the extension: from a channel that nobody uses, in any order of the accesses to its
-- flags in which no process loads a flag while a store of its own waits for the memory, no reader is
-- between its lock and its unlock while the writer is.
pub Run-apart :
    (readers : ℕ) (c : Channel) (p : ℕ) (r : Run readers idle c)
    → IsFenced readers idle c r
    → p < readers
    → c.writer ≡ writing
    → c.reader p ≢ reading
Run-apart readers c p r fenced small e =
    let v = Run-IsSafe readers c r fenced in v.clear p (rw (ap (cleared readers) e) small)
