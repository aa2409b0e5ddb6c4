-- ===== src/Conductor/FirstWrites.antt =====
-- The mode of first writes ends (`notify_write_pdu_done` of hako_pdu_data.hpp).
use hakoniwa_core_cpp.Prelude.{
  ℕ, zero, suc, ◌+◌, ◌≤◌, ◌<◌, Bool, true, false, leb, List, [], ◌∷◌, length, set, get_elem?, some,
  ◌≡◌, ◌≢◌, ap, sym, ◌∙◌, arith, All, Bool-cases, inl, inr, ◌⊎◌, length-set, get_elem?-set_ne,
  get_elem?-set_self,
}
use hakoniwa_core_cpp.Pdu.Types.{is_master_mode, Meta}
use hakoniwa_core_cpp.Pdu.Sync.{count_true, notify_write_pdu_done, is_simulation_mode}

-- The calls of the assets with these ids, in order.
unfoldable pub notify_all : List ℕ → Meta → Meta
notify_all [] m = m
notify_all (id ∷ ids) m = notify_all ids (notify_write_pdu_done id m)

-- No id stands twice.
abbrev pub IsOnce : List ℕ → Type 0
IsOnce [] = Unit
IsOnce (id ∷ ids) = All (λ j. j ≢ id) ids × IsOnce ids

master_stays : (id : ℕ) (m : Meta) → is_master_mode m.mode ≡ true → notify_write_pdu_done id m ≡ m
unfolding notify_write_pdu_done
master_stays id m h = ground arith

notify_all-master :
    (ids : List ℕ) (m : Meta)
    → is_master_mode m.mode ≡ true
    → is_master_mode (notify_all ids m).mode ≡ true
unfolding notify_all
notify_all-master [] m h = h
notify_all-master (id ∷ ids) m h =
    notify_all-master ids (notify_write_pdu_done id m) (rw (master_stays id m h) h)

count_true-set :
    (bs : List Bool) (i : ℕ)
    → get_elem? bs i ≡ some false
    → count_true (set bs i true) ≡ suc (count_true bs)
unfolding count_true
count_true-set [] i e = cc
count_true-set (b ∷ bs) zero e = ground arith
count_true-set (b ∷ bs) (suc i) e = omega (arith, count_true-set bs i e)

count_true-unset :
    (bs : List Bool) (i : ℕ)
    → get_elem? bs i ≡ some true
    → suc (count_true (set bs i false)) ≡ count_true bs
unfolding count_true
count_true-unset [] i e = cc
count_true-unset (b ∷ bs) zero e = ground arith
count_true-unset (b ∷ bs) (suc i) e = omega (arith, count_true-unset bs i e)

-- Whether the asset has written.
abbrev HasWritten : List Bool → ℕ → Type 0
HasWritten bs i = get_elem? bs i ≡ some true

written-set :
    (bs : List Bool) (i : ℕ) (v : Bool) (ids : List ℕ)
    → All (λ j. j ≢ i) ids
    → All (HasWritten bs) ids
    → All (HasWritten (set bs i v)) ids
written-set bs i v [] ne h = tt
written-set bs i v (j ∷ ids) ne h =
    (get_elem?-set_ne bs v (λ e. ne.0 (sym e)) ∙ h.0, written-set bs i v ids ne.1 h.1)

-- As many flags are set as there are assets that have written.
length-le-count_true :
    (ids : List ℕ) (bs : List Bool)
    → IsOnce ids
    → All (HasWritten bs) ids
    → length ids ≤ count_true bs
length-le-count_true [] bs once h = omega arith
length-le-count_true (i ∷ ids) bs once h =
    let fewer =
      length-le-count_true ids (set bs i false) once.1 (written-set bs i false ids once.0 h.1) in
    omega (arith, fewer, count_true-unset bs i h.0)

-- The flags after a call, in the mode of first writes.
abbrev flagged : ℕ → Meta → Meta
flagged id m = record m { check_status = set m.check_status id true }

notify-cases :
    (id : ℕ) (m : Meta)
    → id < length m.check_status
    → (is_master_mode (notify_write_pdu_done id m).mode ≡ true)
      ⊎ ((notify_write_pdu_done id m ≡ flagged id m)
          × (count_true (set m.check_status id true) < m.asset_num))
unfolding notify_write_pdu_done
notify-cases id m small = elim (Bool-cases (is_master_mode m.mode)) [
  | inl master ↦ inl (ground arith)
  | inr first ↦ elim (Bool-cases (leb m.asset_num (count_true (set m.check_status id true)))) [
    | inl enough ↦ inl (ground arith)
    | inr few ↦ inr (ground arith, ground arith)
  ]
]

written_self : (bs : List Bool) (i : ℕ) → i < length bs → HasWritten (set bs i true) i
written_self bs i h = get_elem?-set_self bs i true h

apart-cons :
    (id : ℕ) (done ids : List ℕ)
    → All (λ j. j ≢ id) ids
    → All (λ i. All (λ j. j ≢ i) done) ids
    → All (λ i. All (λ j. j ≢ i) (id ∷ done)) ids
apart-cons id done [] once apart = tt
apart-cons id done (i ∷ ids) once apart =
    (((λ e. once.0 (sym e)), apart.0), apart-cons id done ids once.1 apart.1)

small-set :
    (bs : List Bool) (id : ℕ) (ids : List ℕ)
    → All (λ i. i < length bs) ids
    → All (λ i. i < length (set bs id true)) ids
small-set bs id [] h = tt
small-set bs id (i ∷ ids) h = (omega (arith, h.0, length-set bs id true), small-set bs id ids h.1)

written_after :
    (id : ℕ) (done : List ℕ) (m : Meta)
    → id < length m.check_status
    → All (λ j. j ≢ id) done
    → All (HasWritten m.check_status) done
    → All (HasWritten (set m.check_status id true)) (id ∷ done)
written_after id done m small apart h =
    (written_self m.check_status id small, written-set m.check_status id true done apart h)

-- `done` are the assets that have written before.
notify_all-done :
    (id : ℕ) (ids done : List ℕ) (m : Meta)
    → IsOnce (id ∷ ids)
    → IsOnce done
    → All (λ i. All (λ j. j ≢ i) done) (id ∷ ids)
    → All (λ i. i < length m.check_status) (id ∷ ids)
    → All (HasWritten m.check_status) done
    → m.asset_num ≤ length done + suc (length ids)
    → is_master_mode (notify_all (id ∷ ids) m).mode ≡ true
unfolding notify_all
notify_all-done id [] done m once before apart small h enough = elim (notify-cases id m small.0) [
  | inl master ↦ master
  | inr (is, few) ↦
      let most =
        length-le-count_true (id ∷ done) (set m.check_status id true) (apart.0, before)
          (written_after id done m small.0 apart.0 h) in
      absurd (omega (arith, few, most))
]
notify_all-done id (k ∷ ids) done m once before apart small h enough =
    elim (notify-cases id m small.0) [
      | inl master ↦ notify_all-master (k ∷ ids) (notify_write_pdu_done id m) master
      | inr (is, few) ↦
          let rest =
            notify_all-done k ids (id ∷ done) (flagged id m) once.1 (apart.0, before)
              (apart-cons id done (k ∷ ids) once.0 apart.1)
              (small-set m.check_status id (k ∷ ids) small.1)
              (written_after id done m small.0 apart.0 h) (omega arith) in
          ap (λ n. is_master_mode (notify_all (k ∷ ids) n).mode) is ∙ rest
    ]

-- The last asset that writes its data ends the mode of first writes: after a call of each of some assets, no
-- asset twice, with an id in the table, of which there are as many as assets when the area was made, and
-- at least one, the simulation is in its own mode.
pub notify_all-mode :
    (id : ℕ) (ids : List ℕ) (m : Meta)
    → IsOnce (id ∷ ids)
    → All (λ i. i < length m.check_status) (id ∷ ids)
    → m.asset_num ≤ length (id ∷ ids)
    → is_simulation_mode (notify_all (id ∷ ids) m) ≡ true
unfolding is_simulation_mode
notify_all-mode id ids m once small enough =
    let master = notify_all-done id ids [] m once tt (no_other (id ∷ ids)) small tt (omega arith) in
    ground arith
  where
    no_other : (is : List ℕ) → All (λ i. All (λ j. j ≢ i) []) is
    no_other [] = tt
    no_other (i ∷ is) = (tt, no_other is)
