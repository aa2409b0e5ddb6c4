-- ===== src/Identity.antt =====
-- src/hako/utils/hako_share/impl/hako_process_identity.{hpp,cpp}: who owns a lock, told by the
-- process id and the start time of the process (the Linux branch of the code).
-- The operating system is a parameter: what `kill(pid, 0)` answers, and the text of
-- /proc/<pid>/stat, as bytes.
pub mod Stat
pub mod Line
pub mod RoundTrip
pub mod Liveness
use hakoniwa_core_cpp.Prelude.{
  ℕ, ℤ, pos, leb_ℤ, Bool, true, false, ◌&&◌, ◌||◌, not, ◌==◌, if◌then◌else◌, Option, none, some,
  List, leb,
}
use Stat.{process_start_token}

pub data IdentityStatus : Type 0 where
  alive dead unknown : IdentityStatus

pub record ProcessIdentity : Type 0 where
  pub pid : ℤ
  pub start_token : ℕ

-- `kill(pid, 0)`: it returns 0, or fails with ESRCH, EPERM or another errno.
pub data KillResult : Type 0 where
  signalled no_such_process not_permitted other_error : KillResult

pub record Os : Type 0 where
  pub getpid : ℤ
  pub kill : ℤ → KillResult
  pub stat_line : ℤ → Option (List ℕ)

unfoldable pub classify_lookup : Bool → Bool → Bool → ℕ → ℕ → IdentityStatus
classify_lookup definitely_missing lookup_succeeded terminated expected actual =
    if definitely_missing || (lookup_succeeded && terminated)
    then dead
    else if not lookup_succeeded || (expected == 0 || actual == 0)
    then unknown
    else if actual == expected
    then alive
    else dead

unfoldable pub current_process_identity : Os → Option ProcessIdentity
current_process_identity os = elim (process_start_token os.getpid (os.stat_line os.getpid)) [
  | none ↦ none
  | some (token, terminated) ↦ some (record { pid = os.getpid; start_token = token })
]

-- The end of `hako_check_process_identity`, after `kill`.
unfoldable pub look_up : Os → ProcessIdentity → IdentityStatus
unfolding classify_lookup
look_up os id = elim (process_start_token id.pid (os.stat_line id.pid)) [
  | none ↦ classify_lookup false false false id.start_token 0
  | some (actual, terminated) ↦ classify_lookup false true terminated id.start_token actual
]

unfoldable pub check_process_identity : Os → ProcessIdentity → IdentityStatus
unfolding look_up classify_lookup
check_process_identity os id =
    if leb_ℤ id.pid (pos 0) || (id.start_token == 0) then unknown else elim (os.kill id.pid) [
      | signalled ↦ look_up os id
      | no_such_process ↦ classify_lookup true false false id.start_token 0
      | not_permitted ↦ look_up os id
      | other_error ↦ unknown
    ]
