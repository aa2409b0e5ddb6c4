-- ===== src/FlockWait.antt =====
-- src/hako/utils/hako_share/impl/hako_flock_wait.{hpp,cpp}: bounded waits for a file lock.
-- `wait_enabled` and `wait_options` are the thread's; the clock is an argument, in milliseconds.
use hakoniwa_core_cpp.Prelude.{
  ℕ, ◌+◌, ◌-◌, ◌%◌, ◌^◌, Bool, true, leb, if◌then◌else◌, Option, none, some,
}

pub data WaitError : Type 0 where
  timeout interrupted system_error : WaitError

-- `interrupted` is the value behind the pointer, `false` also where the pointer is null.
pub record WaitOptions : Type 0 where
  pub timeout_ms : ℕ
  pub is_interrupted : Bool

pub record WaitState : Type 0 where
  pub enabled : Bool
  pub options : WaitOptions

-- The constructor and the destructor of `HakoFlockWaitScope`, which keeps the state that it found.
unfoldable pub enter_scope : WaitOptions → WaitState → WaitState × WaitState
enter_scope o s = (record { enabled = true; options = o }, s)

unfoldable pub leave_scope : WaitState → WaitState → WaitState
leave_scope previous s = previous

-- `hako_flock_wait_checkpoint`: the error that it throws, if any.
unfoldable pub wait_checkpoint : WaitState → ℕ → ℕ → Option WaitError
wait_checkpoint s started_at_ms now_ms =
    if s.enabled
    then if s.options.is_interrupted
      then some interrupted
      else if leb s.options.timeout_ms ((now_ms + 2 ^ 64 - started_at_ms) % 2 ^ 64)
      then some timeout
      else none
    else none
