-- ===== src/Pdu/SpinLock/Progress.antt =====
-- The spin locks of HAKO_CORE_EXTENSION do not block for ever (hako_pdu_data.hpp).
use hakoniwa_core_cpp.Prelude.{
  ℕ, sym, zero, suc, ◌+◌, ◌-◌, ◌<◌, ◌≤◌, false, ◌≡◌, ◌≢◌, refl, ap, ◌∙◌, arith, Bool-cases, inl,
  inr, dec_lt,
}
use hakoniwa_core_cpp.Pdu.Types.{update}
use hakoniwa_core_cpp.Pdu.SpinLock.{
  WriterAt, unlocked, scanning, writing, ReaderAt, apart, flagged, backing_off, reading, at_writer,
  at_reader, Channel, writer_moves, reader_moves, Run, start, writes, reads, idle,
}
use hakoniwa_core_cpp.Pdu.SpinLock.Shown.{latest, has_flag, idle-IsShown}
use hakoniwa_core_cpp.Pdu.SpinLock.Draining.{follow, last_is, all_drain}

-- A state to come, in which the writer stands where it stood, reader `p` is outside, and the others are
-- where they were.
abbrev Leaves : ℕ → ℕ → Channel → Type 0
Leaves readers p c =
    (d : Channel) × Run readers c d
    × (d.writer ≡ c.writer)
    × (d.reader p ≡ apart)
    × ((q : ℕ) → q ≢ p → d.reader q ≡ c.reader q)

update_self : (f : ℕ → ReaderAt) (p : ℕ) (x : ReaderAt) → update f p x p ≡ x
update_self f p x = ground arith

update_other : (f : ℕ → ReaderAt) (p q : ℕ) (x : ReaderAt) → q ≢ p → update f p x q ≡ f q
update_other f p q x ne = ground arith

-- The next place of a reader.
moved-reader :
    (p : ℕ) (c : Channel) (x : ReaderAt)
    → c.reader p ≡ x
    → (reader_moves p c).reader p ≡ (at_reader c.flags x).1
moved-reader p c x e =
    update_self c.reader p (at_reader c.flags (c.reader p)).1 ∙ ap (λ y. (at_reader c.flags y).1) e

goes_out_once :
    (readers p : ℕ) (c : Channel)
    → p < readers
    → (reader_moves p c).reader p ≡ apart
    → Leaves readers p c
goes_out_once readers p c small e =
    (reader_moves p c, reads p small start, refl, e, λ q ne. update_other c.reader p q _ ne)

goes_out_twice :
    (readers p : ℕ) (c : Channel) (y : ReaderAt)
    → p < readers
    → (reader_moves p c).reader p ≡ y
    → (at_reader (reader_moves p c).flags y).1 ≡ apart
    → Leaves readers p c
goes_out_twice readers p c y small e out =
    let b = reader_moves p c in
    let (d, r, same, gone, others) = goes_out_once readers p b small (moved-reader p b y e ∙ out) in
    (
      d,
      follow readers c b d (reads p small start) r,
      same,
      gone,
      λ q ne. others q ne ∙ update_other c.reader p q _ ne,
    )

goes_out : (readers p : ℕ) (c : Channel) → p < readers → Leaves readers p c
unfolding at_reader
goes_out readers p c small = go (c.reader p) refl
  where
    go : (x : ReaderAt) → c.reader p ≡ x → Leaves readers p c
    go apart e = (c, start, refl, e, λ q ne. refl)
    go backing_off e = goes_out_once readers p c small (moved-reader p c backing_off e)
    go reading e = goes_out_once readers p c small (moved-reader p c reading e)
    go flagged e = elim (Bool-cases c.flags.wbusy) [
      | inl busy ↦
          goes_out_twice readers p c backing_off small (moved-reader p c flagged e ∙ ground arith)
            refl
      | inr free ↦
          goes_out_twice readers p c reading small (moved-reader p c flagged e ∙ ground arith) refl
    ]

-- All readers below `n` leave.
all_leave :
    (readers n : ℕ) (c : Channel)
    → n ≤ readers
    → (d : Channel) × Run readers c d
      × (d.writer ≡ c.writer)
      × ((q : ℕ) → q < n → d.reader q ≡ apart)
all_leave readers zero c small = (c, start, refl, λ q h. absurd (omega (arith, h)))
all_leave readers (suc n) c small =
    let (b, r, same, out) = all_leave readers n c (omega arith) in
    let (d, r', same', gone, others) = goes_out readers n b (omega arith) in
    (
      d,
      follow readers c b d r r',
      same' ∙ same,
      λ q h. elim (dec_lt q n) [
        | yes below ↦ others q (λ e. omega (arith, e, below)) ∙ out q below
        | no last ↦ ap d.reader (last_is q n h last) ∙ gone
      ],
    )

-- Where no flag of a reader is set in memory, the writer gets through its scan.
gets_in :
    (readers k i : ℕ) (c : Channel)
    → i + k ≡ readers
    → c.writer ≡ scanning i
    → ((q : ℕ) → q < readers → c.flags.rbusy q ≡ false)
    → (d : Channel) × Run readers c d
      × (d.writer ≡ writing)
      × (d.flags ≡ c.flags)
      × (d.reader ≡ c.reader)
unfolding at_writer
gets_in readers zero i c count e free =
    (writer_moves readers c, writes start, ground arith, refl, refl)
gets_in readers (suc k) i c count e free =
    let (d, r, inside, flags, places) =
      gets_in readers k (suc i) (writer_moves readers c) (omega arith) (ground (arith, free i))
        (λ q h. free q h) in
    (d, follow readers c (writer_moves readers c) d (writes start) r, inside, flags, places)

pub scan_succeeds :
    (readers i : ℕ) (c : Channel)
    → c.writer ≡ scanning i
    → ((q : ℕ) → q < readers → c.flags.rbusy q ≡ false)
    → (d : Channel) × Run readers c d
      × (d.writer ≡ writing)
      × (d.flags ≡ c.flags)
      × (d.reader ≡ c.reader)
unfolding at_writer
scan_succeeds readers i c e free = elim (dec_lt i readers) [
  | yes more ↦ gets_in readers (readers - i) i c (omega (arith, more)) e free
  | no last ↦ (writer_moves readers c, writes start, ground arith, refl, refl)
]

pub scans_from_start :
    (readers : ℕ) (c : Channel) → c.writer ≡ unlocked → (writer_moves readers c).writer ≡ scanning 0
unfolding at_writer
scans_from_start readers c e = ground arith

-- With the spin locks of the extension: from whatever state the writer and the readers have come to, from a
-- channel that nobody uses, some order of further accesses, and of stores that reach the memory, brings
-- the writer between its lock and its unlock.
pub Run-enters :
    (readers : ℕ) (c : Channel)
    → Run readers idle c
    → (d : Channel) × Run readers c d × (d.writer ≡ writing)
Run-enters readers c r =
    let (a, s, same, out) = all_leave readers readers c (omega arith) in
    let (b, s', same', places, done) = all_drain readers readers a in
    let here = follow readers c a b s s' in
    let shown = idle-IsShown readers b (follow readers idle c b r here) in
    let free : (q : ℕ) → q < readers → b.flags.rbusy q ≡ false = λ q h.
      ap (latest (b.flags.rbusy q)) (sym (done q h))
      ∙ shown.flags_right q
      ∙ ap (λ f. has_flag (f q)) places
      ∙ ap has_flag (out q h) in
    go b here free b.writer refl
  where
    go :
        (b : Channel)
        → Run readers c b
        → ((q : ℕ) → q < readers → b.flags.rbusy q ≡ false)
        → (w : WriterAt) → b.writer ≡ w
        → (d : Channel) × Run readers c d × (d.writer ≡ writing)
    go b s free writing e = (b, s, e)
    go b s free (scanning i) e =
        let (d, t, inside, flags, places) = scan_succeeds readers i b e free in
        (d, follow readers c b d s t, inside)
    go b s free unlocked e =
        let b1 = writer_moves readers b in
        let (d, t, inside, flags, places) =
          scan_succeeds readers 0 b1 (scans_from_start readers b e) free in
        (d, follow readers c b1 d (writes s) t, inside)
