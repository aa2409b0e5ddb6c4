-- ===== src/Identity/RoundTrip.antt =====
-- `process_start_token` reads the state and the start time of a line of /proc/<pid>/stat.
use hakoniwa_core_cpp.Prelude.{ℕ, zero, suc, ◌*◌, true, List, All, ◌≡◌}
use hakoniwa_core_cpp.Identity.Stat.{is_digit}

-- The bound on numbers of `k` digits.
abbrev digits_bound : ℕ → ℕ
digits_bound zero = 1
digits_bound (suc k) = 10 * digits_bound k

abbrev IsDigits : List ℕ → Type 0
IsDigits w = All (λ c. is_digit c ≡ true) w
