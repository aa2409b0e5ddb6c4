-- ===== src/Pdu/SpinLock/Shown.antt =====
-- What the flags of a channel come to once all stores that wait have reached the memory (hako_pdu_data.hpp).
use hakoniwa_core_cpp.Prelude.{
  ℕ, Bool, true, false, ◌==◌, List, [], ◌∷◌, some, ◌≡◌, refl, sym, ap, ◌∙◌, arith, Bool-cases, inl,
  inr,
}
use hakoniwa_core_cpp.Pdu.SpinLock.{
  WriterAt, unlocked, scanning, writing, ReaderAt, apart, flagged, backing_off, reading, at_writer,
  at_reader, Channel, stored, writer_moves, reader_moves, writer_drains, reader_drains, Run, start,
  writes, reads, drains, drains_reader, idle,
}

-- The value of a flag after the stores that wait.
abbrev pub latest : Bool → List Bool → Bool
latest b [] = b
latest b (x ∷ xs) = latest x xs

abbrev pub is_writer_in : WriterAt → Bool
is_writer_in unlocked = false
is_writer_in (scanning i) = true
is_writer_in writing = true

abbrev pub has_flag : ReaderAt → Bool
has_flag apart = false
has_flag flagged = true
has_flag backing_off = true
has_flag reading = true

-- The flags tell where the processes are, but for the stores that wait.
pub record IsShown (c : Channel) : Type 0 where
  pub shown : latest c.flags.wbusy c.wbuf ≡ is_writer_in c.writer
  pub flags_right : (p : ℕ) → latest (c.flags.rbusy p) (c.rbuf p) ≡ has_flag (c.reader p)

latest-stored : (b x : Bool) (bs : List Bool) → latest b (stored bs (some x)) ≡ x
latest-stored b x [] = refl
latest-stored b x (y ∷ ys) = latest-stored y x ys

writer-IsShown : (readers : ℕ) (c : Channel) → IsShown c → IsShown (writer_moves readers c)
unfolding at_writer
writer-IsShown readers c v = record { shown = go c.writer refl; flags_right = v.flags_right }
  where
    go :
        (w : WriterAt)
        → c.writer ≡ w
        → latest c.flags.wbusy (stored c.wbuf (at_writer readers c.flags w).0)
          ≡ is_writer_in (at_writer readers c.flags w).1
    go unlocked e = latest-stored c.flags.wbusy true c.wbuf
    go (scanning i) e = ground (arith, v.shown, e)
    go writing e = latest-stored c.flags.wbusy false c.wbuf

reader-IsShown : (p : ℕ) (c : Channel) → IsShown c → IsShown (reader_moves p c)
unfolding at_reader
reader-IsShown p c v = record {
  shown = v.shown;
  flags_right = λ q. elim (Bool-cases (p == q)) [
    | inl own ↦ ground (arith, go (c.reader p) refl)
    | inr other ↦ ground (arith, v.flags_right q)
  ];
}
  where
    go :
        (x : ReaderAt)
        → c.reader p ≡ x
        → latest (c.flags.rbusy p) (stored (c.rbuf p) (at_reader c.flags x).0)
          ≡ has_flag (at_reader c.flags x).1
    go apart e = latest-stored (c.flags.rbusy p) true (c.rbuf p)
    go flagged e = ground (arith, v.flags_right p, e)
    go backing_off e = latest-stored (c.flags.rbusy p) false (c.rbuf p)
    go reading e = latest-stored (c.flags.rbusy p) false (c.rbuf p)

writer_drains-latest :
    (c : Channel)
    → latest (writer_drains c).flags.wbusy (writer_drains c).wbuf ≡ latest c.flags.wbusy c.wbuf
writer_drains-latest c = go c.wbuf refl
  where
    go :
        (bs : List Bool)
        → c.wbuf ≡ bs
        → latest (writer_drains c).flags.wbusy (writer_drains c).wbuf ≡ latest c.flags.wbusy c.wbuf
    go [] e = ground arith
    go (b ∷ bs) e = ground arith

-- What a store that reaches the memory leaves as it was.
pub writer_drains-kept :
    (c : Channel)
    → ((writer_drains c).flags.rbusy ≡ c.flags.rbusy)
      × ((writer_drains c).rbuf ≡ c.rbuf)
      × ((writer_drains c).writer ≡ c.writer)
      × ((writer_drains c).reader ≡ c.reader)
writer_drains-kept c = (ground arith, ground arith, ground arith, ground arith)

pub reader_drains-kept :
    (p : ℕ) (c : Channel)
    → ((reader_drains p c).flags.wbusy ≡ c.flags.wbusy)
      × ((reader_drains p c).wbuf ≡ c.wbuf)
      × ((reader_drains p c).writer ≡ c.writer)
      × ((reader_drains p c).reader ≡ c.reader)
reader_drains-kept p c = (ground arith, ground arith, ground arith, ground arith)

reader_drains-latest :
    (p : ℕ) (c : Channel) (q : ℕ)
    → latest ((reader_drains p c).flags.rbusy q) ((reader_drains p c).rbuf q)
      ≡ latest (c.flags.rbusy q) (c.rbuf q)
reader_drains-latest p c q = elim (Bool-cases (p == q)) [
  | inl own ↦ ground arith
  | inr other ↦ ground arith
]

writer_drains-IsShown : (c : Channel) → IsShown c → IsShown (writer_drains c)
writer_drains-IsShown c v =
    let (flags, buffers, at, readers_at) = writer_drains-kept c in
    record {
      shown = writer_drains-latest c ∙ v.shown ∙ ap is_writer_in (sym at);
      flags_right = λ p. rw (flags, buffers, readers_at) (v.flags_right p);
    }

reader_drains-IsShown : (p : ℕ) (c : Channel) → IsShown c → IsShown (reader_drains p c)
reader_drains-IsShown p c v =
    let (flag, buffer, at, readers_at) = reader_drains-kept p c in
    record {
      shown = rw (flag, buffer, at) v.shown;
      flags_right = λ q.
          reader_drains-latest p c q ∙ v.flags_right q ∙ ap (λ f. has_flag (f q)) (sym readers_at);
    }

Run-IsShown : (readers : ℕ) (c d : Channel) → Run readers c d → IsShown c → IsShown d
Run-IsShown readers c _ start v = v
Run-IsShown readers c _ (writes {d} r) v = writer-IsShown readers d (Run-IsShown readers c d r v)
Run-IsShown readers c _ (reads {d} p small r) v = reader-IsShown p d (Run-IsShown readers c d r v)
Run-IsShown readers c _ (drains {d} r) v = writer_drains-IsShown d (Run-IsShown readers c d r v)
Run-IsShown readers c _ (drains_reader {d} p r) v =
    reader_drains-IsShown p d (Run-IsShown readers c d r v)

pub idle-IsShown : (readers : ℕ) (c : Channel) → Run readers idle c → IsShown c
idle-IsShown readers c r =
    Run-IsShown readers idle c r (record { shown = refl; flags_right = λ q. refl })
