-- ===== src/MemoryLog.antt =====
-- The log in shared memory: `add_log` and `print_log` of src/hako/data/hako_master_data.hpp, and `add` of
-- src/hako/hako_impl.cpp. A message is what `vsnprintf` makes of the format and its arguments, of which
-- an entry keeps one byte less than its size.
pub mod First
pub mod Overrun
use hakoniwa_core_cpp.Prelude.{
  ℕ, zero, suc, ◌-◌, Bool, leb, if◌then◌else◌, List, [], ◌∷◌, length, set, take, replicate, Option,
  none, some,
}

-- `HakoLogDataType`: as many entries as HAKO_LOGGER_LOGNUM.
pub record LogData : Type 0 where
  pub index : ℕ
  pub entries : List (List ℕ)

-- What `init` leaves of the log.
unfoldable pub new_log : ℕ → LogData
new_log lognum = record { index = 0; entries = replicate lognum [] }

module _ (entry_size : ℕ) where
  abbrev pub stored : List ℕ → List ℕ
  stored text = take (entry_size - 1) text

  unfoldable pub add_log : List ℕ → LogData → LogData
  add_log text l =
      if leb (length l.entries) l.index
      then l
      else record { index = suc l.index; entries = set l.entries l.index (stored text) }

  -- `hako::log::add`: the data are `none` where the process has none, and a message is dropped while the
  -- process is in the master lock.
  unfoldable pub log_add : Bool → List ℕ → Option LogData → Option LogData
  unfolding add_log
  log_add is_locked text none = none
  log_add is_locked text (some l) = if is_locked then some l else some (add_log text l)

  -- Calls one after the other.
  unfoldable pub add_logs : List (List ℕ) → LogData → LogData
  unfolding add_log
  add_logs [] l = l
  add_logs (t ∷ ts) l = add_logs ts (add_log t l)

-- The lines that `print_log` prints.
unfoldable pub print_log : LogData → List (List ℕ)
print_log l = take l.index l.entries
