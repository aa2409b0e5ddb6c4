-- ===== src/Pdu/SpinLock/Draining.antt =====
-- The stores of readers that wait can reach the memory (hako_pdu_data.hpp).
use hakoniwa_core_cpp.Prelude.{
  ℕ, Bool, List, [], ◌∷◌, zero, suc, ◌<◌, ◌≡◌, ◌≢◌, refl, ap, ◌∙◌, arith, dec_lt,
}
use hakoniwa_core_cpp.Pdu.SpinLock.{
  Channel, reader_drains, Run, start, writes, reads, drains, drains_reader,
}
use hakoniwa_core_cpp.Pdu.SpinLock.Shown.{reader_drains-kept}

pub follow : (readers : ℕ) (a b c : Channel) → Run readers a b → Run readers b c → Run readers a c
follow readers a b _ r start = r
follow readers a b _ r (writes {d} s) = writes (follow readers a b d r s)
follow readers a b _ r (reads {d} p small s) = reads p small (follow readers a b d r s)
follow readers a b _ r (drains {d} s) = drains (follow readers a b d r s)
follow readers a b _ r (drains_reader {d} p s) = drains_reader p (follow readers a b d r s)

pub last_is : (q n : ℕ) → q < suc n → ¬ (q < n) → q ≡ n
last_is q n h last = omega (arith, h, last)

-- The stores of reader `p` that wait reach the memory, and nothing else changes.
abbrev Drains : ℕ → ℕ → Channel → Type 0
Drains readers p c =
    (d : Channel) × Run readers c d
    × (d.writer ≡ c.writer)
    × (d.reader ≡ c.reader)
    × (d.rbuf p ≡ [])
    × ((q : ℕ) → q ≢ p → d.rbuf q ≡ c.rbuf q)

drain_own : (readers p : ℕ) (bs : List Bool) (c : Channel) → c.rbuf p ≡ bs → Drains readers p c
drain_own readers p [] c e = (c, start, refl, refl, e, λ q ne. refl)
drain_own readers p (b ∷ bs) c e =
    let b1 = reader_drains p c in
    let (flag, buffer, at, readers_at) = reader_drains-kept p c in
    let (d, r, same, places, done, others) = drain_own readers p bs b1 (ground arith) in
    (
      d,
      follow readers c b1 d (drains_reader p start) r,
      same ∙ at,
      places ∙ readers_at,
      done,
      λ q ne. others q ne ∙ ground arith,
    )

-- The stores of all readers below `n` reach the memory.
pub all_drain :
    (readers n : ℕ) (c : Channel)
    → (d : Channel) × Run readers c d
      × (d.writer ≡ c.writer)
      × (d.reader ≡ c.reader)
      × ((q : ℕ) → q < n → d.rbuf q ≡ [])
all_drain readers zero c = (c, start, refl, refl, λ q h. absurd (omega (arith, h)))
all_drain readers (suc n) c =
    let (b, r, same, places, done) = all_drain readers n c in
    let (d, r', same', places', last, others) = drain_own readers n (b.rbuf n) b refl in
    (
      d,
      follow readers c b d r r',
      same' ∙ same,
      places' ∙ places,
      λ q h. elim (dec_lt q n) [
        | yes below ↦ others q (λ e. omega (arith, e, below)) ∙ done q below
        | no not_below ↦ ap d.rbuf (last_is q n h not_below) ∙ last
      ],
    )
