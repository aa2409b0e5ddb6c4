-- ===== src/Identity/Liveness.antt =====
-- What hako_process_identity.cpp promises: a process is taken for alive or for dead only on positive
-- evidence, and its name cannot confuse the reader of /proc/<pid>/stat.
use hakoniwa_core_cpp.Prelude.{
  ℕ, leb_ℤ, pos, ◌↔◌, Bool, true, false, Option, some, ◌≡◌, ◌≢◌, ◌⊎◌, inl, inr, refl, arith,
  Option-cases,
}
use hakoniwa_core_cpp.Identity.{
  alive, dead, ProcessIdentity, Os, no_such_process, other_error, look_up, check_process_identity,
}
use hakoniwa_core_cpp.Identity.Stat.{process_start_token}

-- The token of the running process with this id, and whether it is a zombie.
abbrev pub token_of : Os → ProcessIdentity → Option (ℕ × Bool)
token_of os id = process_start_token id.pid (os.stat_line id.pid)

-- What tells that the recorded process runs: an id and a token are recorded, a process with the id
-- exists, and it is no zombie and was started at the recorded time.
abbrev pub Runs : Os → ProcessIdentity → Type 0
Runs os id =
    (leb_ℤ id.pid (pos 0) ≡ false)
    × (id.start_token ≢ 0)
    × (os.kill id.pid ≢ no_such_process)
    × (os.kill id.pid ≢ other_error)
    × (token_of os id ≡ some (id.start_token, false))

-- Another process has the id, or it is a zombie.
abbrev pub Replaced : Os → ProcessIdentity → Type 0
Replaced os id =
    (t : ℕ) × (b : Bool) × (token_of os id ≡ some (t, b))
    × ((b ≡ true) ⊎ ((b ≡ false) × (t ≢ 0) × (t ≢ id.start_token)))

-- What tells that it has ended: an id and a token are recorded, and no process with the id exists, or
-- it is a zombie, or it was started at another time.
abbrev pub Ended : Os → ProcessIdentity → Type 0
Ended os id =
    (leb_ℤ id.pid (pos 0) ≡ false)
    × (id.start_token ≢ 0)
    × ((os.kill id.pid ≡ no_such_process)
        ⊎ ((os.kill id.pid ≢ no_such_process) × (os.kill id.pid ≢ other_error) × Replaced os id))

look_up-alive :
    (os : Os) (id : ProcessIdentity)
    → look_up os id ≡ alive
    → token_of os id ≡ some (id.start_token, false)
unfolding look_up
look_up-alive os id h = elim (Option-cases (token_of os id)) [
  | inl e ↦ ground arith
  | inr ((t, b), e) ↦ ground arith
]

alive-Runs : (os : Os) (id : ProcessIdentity) → check_process_identity os id ≡ alive → Runs os id
unfolding check_process_identity
alive-Runs os id h = ground (arith, look_up-alive os id)

Runs-look_up :
    (os : Os) (id : ProcessIdentity)
    → id.start_token ≢ 0
    → token_of os id ≡ some (id.start_token, false)
    → look_up os id ≡ alive
unfolding look_up
Runs-look_up os id set_ e = ground arith

Runs-alive : (os : Os) (id : ProcessIdentity) → Runs os id → check_process_identity os id ≡ alive
unfolding check_process_identity
Runs-alive os id (p, set_, a, b, e) = ground (arith, Runs-look_up os id set_ e)

-- The check answers "alive" exactly when the recorded process runs: its id and token are set, a process
-- with this id exists and is no zombie, and it was started at the recorded time.
pub check-alive :
    (os : Os) (id : ProcessIdentity) → (check_process_identity os id ≡ alive) ↔ Runs os id
check-alive os id = (alive-Runs os id, Runs-alive os id)

look_up-dead : (os : Os) (id : ProcessIdentity) → look_up os id ≡ dead → Replaced os id
unfolding look_up
look_up-dead os id h = elim (Option-cases (token_of os id)) [
  | inl e ↦ ground arith
  | inr ((t, true), e) ↦ (t, true, e, inl refl)
  | inr ((t, false), e) ↦ (t, false, e, inr (ground arith))
]

Replaced-look_up :
    (os : Os) (id : ProcessIdentity) → id.start_token ≢ 0 → Replaced os id → look_up os id ≡ dead
unfolding look_up
Replaced-look_up os id set_ (t, b, e, w) = ground arith

dead-Ended : (os : Os) (id : ProcessIdentity) → check_process_identity os id ≡ dead → Ended os id
unfolding check_process_identity
dead-Ended os id h = ground (arith, look_up-dead os id)

Ended-dead : (os : Os) (id : ProcessIdentity) → Ended os id → check_process_identity os id ≡ dead
unfolding check_process_identity
Ended-dead os id (p, set_, w) = ground (arith, Replaced-look_up os id set_)

-- The check answers "dead" exactly when an id and a token are recorded and no process has this id, or
-- the one that has it is a zombie or was started at another time.
pub check-dead :
    (os : Os) (id : ProcessIdentity) → (check_process_identity os id ≡ dead) ↔ Ended os id
check-dead os id = (dead-Ended os id, Ended-dead os id)
