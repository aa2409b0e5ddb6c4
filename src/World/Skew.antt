-- ===== src/World/Skew.antt =====
-- How far the world's clock can run ahead of the assets: hako_time.cpp.
use hakoniwa_core_cpp.Prelude.{
  ℤ, pos, pos_part, neg_part, ◌+ℤ◌, ◌-ℤ◌, ◌<ℤ◌, ◌≤ℤ◌, ap, true, List, [], ◌∷◌, ◌≡◌, refl, All,
  arith, +ℤ_parts, -ℤ_parts, inl, inr, Bool-cases, ◌↔◌,
}
use hakoniwa_core_cpp.World.{World, can_step, time_begins_to_move}

-- The asset's clock is less than `bound` behind the world's.
abbrev pub Within : ℤ → World → ℤ → Type 0
Within bound w t = w.world_time -ℤ t <ℤ bound

can_step-All : (w : World) (ts : List ℤ) → can_step w ts ≡ true → All (Within w.max_delay w) ts
unfolding can_step
can_step-All w [] h = tt
can_step-All w (t ∷ ts) h = ground (
  arith,
  can_step-All w ts,
  -ℤ_parts t w.world_time,
  -ℤ_parts w.world_time t,
  -ℤ_parts (pos 0) w.max_delay,
)

pub All-can_step : (w : World) (ts : List ℤ) → All (Within w.max_delay w) ts → can_step w ts ≡ true
unfolding can_step
All-can_step w [] h = refl
All-can_step w (t ∷ ts) h = ground (
  arith,
  All-can_step w ts,
  -ℤ_parts t w.world_time,
  -ℤ_parts w.world_time t,
  -ℤ_parts (pos 0) w.max_delay,
)

-- The clock may step exactly when every asset's time is less than `max_delay` behind the world's.
pub can_step_iff :
    (w : World) (ts : List ℤ) → (can_step w ts ≡ true) ↔ All (Within w.max_delay w) ts
can_step_iff w ts = (can_step-All w ts, All-can_step w ts)

All-step :
    (w w' : World) (ts : List ℤ)
    → w'.world_time ≡ w.world_time +ℤ w.delta
    → All (Within w.max_delay w) ts
    → All (Within (w.max_delay +ℤ w.delta) w') ts
All-step w w' [] e h = tt
All-step w w' (t ∷ ts) e h = (
  omega (
    arith,
    ap pos_part e,
    ap neg_part e,
    h.0,
    -ℤ_parts w'.world_time t,
    -ℤ_parts w.world_time t,
    +ℤ_parts w.world_time w.delta,
    +ℤ_parts w.max_delay w.delta,
  ),
  All-step w w' ts e h.1,
)

-- Each asset's time stays or grows.
abbrev pub Later : List ℤ → List ℤ → Type 0
Later [] [] = Unit
Later (t ∷ ts) (u ∷ us) = (t ≤ℤ u) × Later ts us
Later _ _ = ⊥

All-Later :
    (b : ℤ) (w : World) (ts us : List ℤ) → Later ts us → All (Within b w) ts → All (Within b w) us
All-Later b w [] [] l h = tt
All-Later b w [] (u ∷ us) l h = absurd l
All-Later b w (t ∷ ts) [] l h = absurd l
All-Later b w (t ∷ ts) (u ∷ us) l h =
    (omega (arith, -ℤ_parts w.world_time t, -ℤ_parts w.world_time u), All-Later b w ts us l.1 h.1)

-- The conductor moves the world, and in between assets report later times.
pub data Reach (w : World) (ts : List ℤ) : World → List ℤ → Type 0 where
  here : Reach w ts w ts
  move : {v : World} {us : List ℤ} → Reach w ts v us → Reach w ts (time_begins_to_move v us) us
  report : {v : World} {us vs : List ℤ} → Reach w ts v us → Later us vs → Reach w ts v vs

-- What every world of a run has: the settings are those of the start, and no asset is too late.
pub record InBounds (max delta : ℤ) (w : World) (ts : List ℤ) : Type 0 where
  pub same_max : w.max_delay ≡ max
  pub same_delta : w.delta ≡ delta
  pub skew : All (Within (max +ℤ delta) w) ts

move-InBounds :
    (max delta : ℤ) (w : World) (ts : List ℤ)
    → InBounds max delta w ts
    → InBounds max delta (time_begins_to_move w ts) ts
unfolding time_begins_to_move
move-InBounds max delta w ts b = elim (Bool-cases (can_step w ts)) [
  | inl go ↦ rw go (record {
    same_max = b.same_max;
    same_delta = b.same_delta;
    skew =
        rw (← b.same_max, ← b.same_delta)
          (All-step w (record w { world_time = w.world_time +ℤ w.delta }) ts refl
            (can_step-All w ts go));
  })
  | inr stop ↦ rw stop (record { same_max = b.same_max; same_delta = b.same_delta; skew = b.skew })
]

-- From a start in bounds, however the world's moves and the assets' reports of later times
-- interleave, the world is never `max_delay + delta` or more ahead of an asset.
pub Reach-InBounds :
    (max delta : ℤ) (w : World) (ts : List ℤ) {v : World} {us : List ℤ}
    → InBounds max delta w ts
    → Reach w ts v us
    → InBounds max delta v us
Reach-InBounds max delta w ts b here = b
Reach-InBounds max delta w ts b (move r) =
    move-InBounds max delta _ _ (Reach-InBounds max delta w ts b r)
Reach-InBounds max delta w ts b (report {v} {us} {vs} r l) =
    let c = Reach-InBounds max delta w ts b r in
    record {
      same_max = c.same_max;
      same_delta = c.same_delta;
      skew = All-Later (max +ℤ delta) v us vs l c.skew;
    }
