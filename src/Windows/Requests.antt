-- ===== src/Windows/Requests.antt =====
-- The byte ranges that win/os_file_io.cpp asks the locks of Windows for.
use hakoniwa_core_cpp.Prelude.{ℕ, ◌+◌, ◌*◌, ◌^◌, ◌<◌, ◌≤◌, ◌≡◌, arith}
use hakoniwa_core_cpp.Windows.FileIo.{
  WinHandle, low32, high32, lock_size, lock_request, unlock_request,
}

-- The length that the API makes of its two halves, the lower one first.
abbrev pub length_of : ℕ × ℕ → ℕ
length_of request = request.0 + 2 ^ 32 * request.1

pub low32-high32 : (n : ℕ) → n < 2 ^ 64 → low32 n + 2 ^ 32 * high32 n ≡ n
unfolding low32 high32
low32-high32 n small = omega arith

pub lock_size_pos : (h : WinHandle) → 1 ≤ lock_size h
unfolding lock_size
lock_size_pos h = ground arith

pub lock_size_small : (h : WinHandle) → h.size < 2 ^ 64 → lock_size h < 2 ^ 64
unfolding lock_size
lock_size_small h small = ground arith

pub length_of-lock_request :
    (h : WinHandle) → h.size < 2 ^ 64 → length_of (lock_request h) ≡ lock_size h
unfolding lock_request
length_of-lock_request h small = low32-high32 (lock_size h) (lock_size_small h small)

pub length_of-unlock_request :
    (h : WinHandle) → h.locked_size < 2 ^ 64 → length_of (unlock_request h) ≡ h.locked_size
unfolding unlock_request
length_of-unlock_request h small = low32-high32 h.locked_size small
