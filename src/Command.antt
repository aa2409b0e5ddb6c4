-- ===== src/Command.antt =====
-- sample/base-procs/hako-cmd/src/hako_cmd.cpp: the command line tool, with the event controller's
-- calls of src/hako/hako_simevent_impl.cpp. Memory is taken to be allocated, and output to be written.
pub mod Restoring
use Prim.Native.String
use Prim.Native.String.{String}
use Prim.Native.Char.{code}
use hakoniwa_core_cpp.Prelude.{
  ℕ, ◌-◌, ◌%◌, ◌^◌, ℤ, pos, negsuc, Bool, true, false, ltb, ◌==◌, ◌||◌, ◌&&◌, ◌⊎◌, inl, inr, not,
  if◌then◌else◌, List, [], ◌∷◌, ◌++◌, length, take, drop, Option, none, some, get_elem?,
}
use hakoniwa_core_cpp.Master.Types.{Master, sim_code}
use hakoniwa_core_cpp.Master.Assets.{get_asset_names}
use hakoniwa_core_cpp.SimEvent.Publish.{Host, Bus, start, stop, reset}
use hakoniwa_core_cpp.Pdu.Types.{Pdu, Env, Outcome, returns, spins, faults}
use hakoniwa_core_cpp.Pdu.Channels.{bytes_eq, get_pdu_channel}
use hakoniwa_core_cpp.Pdu.Transfer.{pdu_size_nolock, read_pdu_nolock, write_pdu_nolock}

abbrev pub codes : String → List ℕ
codes String.[] = []
codes (String.◌∷◌ c s) = code c ∷ codes s

-- The data that the event controller works on.
pub record Opened : Type 0 where
  pub bus : Bus
  pub pdu : Pdu

-- What the tool prints: a message, the name of a state at its index, names, bytes, or an id, which is
-- `none` for -1.
pub data Output : Type 0 where
  message : Output
  status : ℕ → Output
  names : List (List ℕ) → Output
  raw : List ℕ → Output
  real_id : Option ℕ → Output

-- The world around the tool: the host, `atoi`, the content of a file, what `read` answers to a count that
-- was a negative int and is beyond SSIZE_MAX (POSIX leaves it to the system), and what `malloc` finds in
-- the memory that it gives.
pub record Surroundings : Type 0 where
  pub host : Host
  pub env : Env
  pub atoi : List ℕ → ℤ
  pub read_file : List ℕ → Option (List ℕ)
  pub read_huge : List ℕ → ℕ → Option (List ℕ)
  pub junk : ℕ → List ℕ

-- The data afterwards, the output and the exit code.
abbrev pub Result : Type 0
Result = Outcome (Opened × Output × ℕ)

-- The int that a size_t becomes where it is passed on.
unfoldable pub as_int : ℕ → ℤ
as_int size =
    let low = size % 2 ^ 32 in if ltb low (2 ^ 31) then pos low else negsuc (2 ^ 32 - 1 - low)

-- `read_file_data`: the bytes that `read` puts into the buffer. Its count is the int as a size_t.
unfoldable pub read_file_data : Surroundings → List ℕ → ℤ → Option (List ℕ)
read_file_data w file (pos n) = elim (w.read_file file) [
  | none ↦ none
  | some content ↦ some (take n content)
]
read_file_data w file (negsuc n) = w.read_huge file (2 ^ 64 - 1 - n)

-- The buffer of `size` bytes after `read` has put these bytes into it.
abbrev pub buffer : ℕ → List ℕ → List ℕ → List ℕ
buffer size bytes junk = bytes ++ drop (length bytes) (take size junk)

-- `dump`. A negative id is not tested for, and reads outside of the table of channels.
unfoldable pub dump : Surroundings → ℤ → Opened → Result
unfolding pdu_size_nolock read_pdu_nolock
dump w (negsuc n) o = faults
dump w (pos c) o = elim (pdu_size_nolock c o.pdu.meta) [
  | none ↦ returns (o, message, 1)
  | some size ↦ elim (read_pdu_nolock w.env c size o.pdu) [
    | spins ↦ spins
    | faults ↦ faults
    | returns (p, none) ↦ returns (record o { pdu = p }, message, 1)
    | returns (p, some bytes) ↦ returns (record o { pdu = p }, raw bytes, 0)
  ]
]

-- `restore`. More bytes than the buffer has are written outside of it.
unfoldable pub restore : Surroundings → ℤ → List ℕ → Opened → Result
unfolding pdu_size_nolock write_pdu_nolock as_int read_file_data
restore w (negsuc n) file o = faults
restore w (pos c) file o = elim (pdu_size_nolock c o.pdu.meta) [
  | none ↦ returns (o, message, 1)
  | some size ↦ elim (read_file_data w file (as_int size)) [
    | none ↦ returns (o, message, 1)
    | some bytes ↦
        if ltb size (length bytes)
        then faults
        else elim (write_pdu_nolock w.env c (buffer size bytes (w.junk size)) o.pdu) [
          | spins ↦ spins
          | faults ↦ faults
          | returns (p, false) ↦ returns (record o { pdu = p }, message, 1)
          | returns (p, true) ↦ returns (record o { pdu = p }, message, 0)
        ]
  ]
]

-- `real_cid`, which does not test the number of its arguments.
unfoldable pub real_cid : Surroundings → List (List ℕ) → Opened → Result
unfolding get_pdu_channel
real_cid w (cmd ∷ name ∷ id ∷ rest) o =
    let (p, real) = get_pdu_channel name (w.atoi id) o.pdu in
    returns (record o { pdu = p }, real_id real, 0)
real_cid w _ o = faults

-- A call that triggers an event.
abbrev pub triggered : Opened → Bus × Bool → Result
triggered o (b, ret) = returns (record o { bus = b }, message, 0)

-- The branches of `main` after the controller has been found.
unfoldable pub command : Surroundings → List (List ℕ) → List ℕ → ℤ → List ℕ → Opened → Result
unfolding start stop reset get_asset_names dump restore real_cid
command w args cmd channel_id file o =
    if bytes_eq cmd (codes "start")
    then triggered o (start w.host o.bus)
    else if bytes_eq cmd (codes "stop")
    then triggered o (stop w.host o.bus)
    else if bytes_eq cmd (codes "reset")
    then triggered o (reset w.host o.bus)
    else if bytes_eq cmd (codes "status")
    then returns (o, status (sim_code o.bus.master.state), 0)
    else if bytes_eq cmd (codes "ls")
    then returns (o, names (get_asset_names o.bus.master.slots), 0)
    else if bytes_eq cmd (codes "dump")
    then dump w channel_id o
    else if bytes_eq cmd (codes "restore")
    then restore w channel_id file o
    else if bytes_eq cmd (codes "real_cid")
    then real_cid w args o
    else returns (o, message, 0)

abbrev pub arg : ℕ → List (List ℕ) → List ℕ
arg i args = elim (get_elem? args i) [ none ↦ [] | some a ↦ a ]

-- `main`, without the program's name among its arguments. The data are `none` where there is no
-- controller, and the exit code stands alone where there are none.
unfoldable pub main : Surroundings → List (List ℕ) → Option Opened → Result ⊎ ℕ
unfolding command
main w args opened =
    let cmd = arg 0 args in
    if (length args == 0) || ltb 3 (length args)
    then inr 1
    else if bytes_eq cmd (codes "dump") && not (length args == 2)
    then inr 1
    else if bytes_eq cmd (codes "restore") && not (length args == 3)
    then inr 1
    else elim opened [
      | none ↦ inr 1
      | some o ↦ inl (
          command w args cmd
            (if bytes_eq cmd (codes "dump") || bytes_eq cmd (codes "restore")
              then w.atoi (arg 1 args)
              else pos 0)
            (arg 2 args) o)
    ]
