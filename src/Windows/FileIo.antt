-- ===== src/Windows/FileIo.antt =====
-- win/os_file_io.cpp: files, locks of byte ranges and maps by the Windows API. What the API answers is an
-- argument; a lock is asked for with the two halves of its length, so there the API is a function.
use hakoniwa_core_cpp.Prelude.{
  ℕ, ◌-◌, ◌/◌, ◌%◌, ◌^◌, ℤ, pos, negsuc, Bool, false, ltb, ◌==◌, if◌then◌else◌, Option, none, some,
}
use hakoniwa_core_cpp.Flock.{Creation, is_new, was_there, cannot_create}

-- `map_handle`: INVALID_HANDLE_VALUE, NULL, or the handle of a map.
pub data MapHandle : Type 0 where
  invalid_handle null_handle mapping : MapHandle

-- `WinHandleType`, without the handle of the file and the address. A size_t has 64 bits.
pub record WinHandle : Type 0 where
  pub map_handle : MapHandle
  pub size : ℕ
  pub locked_size : ℕ

unfoldable pub low32 : ℕ → ℕ
low32 value = value % 2 ^ 32

unfoldable pub high32 : ℕ → ℕ
high32 value = value / 2 ^ 32 % 2 ^ 32

unfoldable pub lock_size : WinHandle → ℕ
lock_size h = if h.size == 0 then 1 else h.size

abbrev pub minus_one : ℤ
minus_one = negsuc 0

-- What GetFileSizeEx answers: FALSE, or a LONGLONG, here as the size_t that it becomes.
unfoldable pub file_size : Option ℤ → Option ℕ
file_size none = none
file_size (some (negsuc n)) = none
file_size (some (pos n)) = some n

-- `win_open_rw`: whether CreateFileW opens the file, and its size.
unfoldable pub win_open_rw : Bool → Option ℤ → WinHandle → WinHandle × ℤ
unfolding file_size
win_open_rw opened answer h =
    let h0 = record h { locked_size = 0 } in
    if opened
    then elim (file_size answer) [
      | none ↦ (h0, minus_one)
      | some n ↦ if ltb (2 ^ 64 - 1) n then (h0, minus_one) else (record h0 { size = n }, pos 0)
    ]
    else (h0, minus_one)

-- `win_create_rw`: whether CreateFileW, SetFilePointerEx and SetEndOfFile succeed, and the size then.
unfoldable pub win_create_rw : Bool → Bool → Bool → Option ℤ → WinHandle → WinHandle × ℤ
unfolding file_size
win_create_rw opened moved ended answer h =
    let h0 = record h { locked_size = 0 } in
    if opened
    then if ltb (2 ^ 63 - 1) h.size
      then (h0, minus_one)
      else if moved
      then if ended
        then elim (file_size answer) [
          | none ↦ (h0, minus_one)
          | some n ↦ (record h0 { size = n }, pos 0)
        ]
        else (h0, minus_one)
      else (h0, minus_one)
    else (h0, minus_one)

-- `win_create_new_rw`: its result is 1 where the file is already there.
unfoldable pub win_create_new_rw : Creation → Bool → Bool → WinHandle → WinHandle × ℤ
win_create_new_rw is_new moved ended h =
    let h0 = record h { locked_size = 0 } in
    (h0, if moved then if ended then pos 0 else minus_one else minus_one)
win_create_new_rw was_there moved ended h = (record h { locked_size = 0 }, pos 1)
win_create_new_rw cannot_create moved ended h = (record h { locked_size = 0 }, minus_one)

-- `win_mmap`: CreateFileMapping is asked for a map of the two halves of the length.
unfoldable pub win_mmap : (ℕ → ℕ → Bool) → Bool → WinHandle → WinHandle × Bool
unfolding low32 high32
win_mmap can_map viewed h =
    let size_low = low32 h.size in
    let size_high = high32 h.size in
    if can_map size_high size_low
    then (record h { map_handle = mapping }, viewed)
    else (record h { map_handle = null_handle }, false)

-- `win_munmap`.
unfoldable pub win_munmap : WinHandle → WinHandle
win_munmap h = record h { map_handle = invalid_handle }

-- What LockFileEx answers: the lock, ERROR_LOCK_VIOLATION, or another error.
pub data LockAnswer : Type 0 where
  lock_given lock_violation lock_failed : LockAnswer

-- The two halves of the length that a lock is asked for with, the lower one first.
unfoldable pub lock_request : WinHandle → ℕ × ℕ
unfolding lock_size low32 high32
lock_request h = (low32 (lock_size h), high32 (lock_size h))

unfoldable pub win_flock_acquire : (ℕ → ℕ → LockAnswer) → WinHandle → WinHandle × ℤ
unfolding lock_request lock_size
win_flock_acquire lock_file h = elim (lock_file (lock_request h).0 (lock_request h).1) [
  | lock_given ↦ (record h { locked_size = lock_size h }, pos 0)
  | lock_violation ↦ (h, minus_one)
  | lock_failed ↦ (h, minus_one)
]

-- `win_flock_try_acquire`, whose result is 1 where another handle holds a part of the range.
unfoldable pub win_flock_try_acquire : (ℕ → ℕ → LockAnswer) → WinHandle → WinHandle × ℤ
unfolding lock_request lock_size
win_flock_try_acquire lock_file h = elim (lock_file (lock_request h).0 (lock_request h).1) [
  | lock_given ↦ (record h { locked_size = lock_size h }, pos 0)
  | lock_violation ↦ (h, pos 1)
  | lock_failed ↦ (h, minus_one)
]

unfoldable pub unlock_request : WinHandle → ℕ × ℕ
unfolding low32 high32
unlock_request h = (low32 h.locked_size, high32 h.locked_size)

-- `win_flock_release`. UnlockFileEx takes the two halves of the length, and changes the state `s` of the
-- system, which is passed on.
unfoldable pub win_flock_release {ℓ} :
    {S : Type ℓ} → (ℕ → ℕ → S → S × Bool) → S → WinHandle → S × (WinHandle × ℤ)
unfolding unlock_request
win_flock_release unlock_file s h =
    let answered = unlock_file (unlock_request h).0 (unlock_request h).1 s in
    if h.locked_size == 0
    then (s, (h, minus_one))
    else if answered.1
    then (answered.0, (record h { locked_size = 0 }, pos 0))
    else (answered.0, (h, minus_one))

-- What SetFilePointerEx, WriteFile and ReadFile answer: an error code, or how many bytes were moved.
pub data IoAnswer : Type 0 where
  io_failed : ℕ → IoAnswer
  io_done : ℕ → IoAnswer

-- `-(int)err` for a DWORD that is not 2^31, which has no negation.
unfoldable pub minus_int : ℕ → ℤ
minus_int err =
    if err == 0 then pos 0 else if ltb err (2 ^ 31) then negsuc (err - 1) else pos (2 ^ 32 - err)

-- `win_pwrite` of `count` bytes. The number of bytes that WriteFile has written is not looked at.
unfoldable pub win_pwrite : IoAnswer → IoAnswer → ℕ → ℤ
unfolding minus_int
win_pwrite (io_failed e) answer count = if ltb (2 ^ 32 - 1) count then minus_one else minus_int e
win_pwrite (io_done m) (io_failed e) count =
    if ltb (2 ^ 32 - 1) count then minus_one else minus_int e
win_pwrite (io_done m) (io_done written) count = if ltb (2 ^ 32 - 1) count then minus_one else pos 0

-- `win_pread`.
unfoldable pub win_pread : IoAnswer → IoAnswer → ℕ → ℤ
unfolding minus_int
win_pread (io_failed e) answer count = if ltb (2 ^ 32 - 1) count then minus_one else minus_int e
win_pread (io_done m) (io_failed e) count =
    if ltb (2 ^ 32 - 1) count then minus_one else minus_int e
win_pread (io_done m) (io_done read_size) count =
    if ltb (2 ^ 32 - 1) count then minus_one else pos 0
