-- ===== src/Flock/Bytes.antt =====
-- src/hako/utils/hako_share/impl/posix/hako_flock.cpp: the bytes of the file. What `pwrite`, `pread` and
-- `fstat` answer is an argument.
use hakoniwa_core_cpp.Prelude.{
  ℕ, ◌-◌, ◌^◌, ℤ, pos, negsuc, eqb_ℤ, ltb_ℤ, Bool, ltb, if◌then◌else◌, Option, none, some,
}

-- The `ssize_t` of a `size_t`.
abbrev pub as_ssize : ℕ → ℤ
as_ssize n = if ltb n (2 ^ 63) then pos n else negsuc (2 ^ 64 - 1 - n)

-- `hako_flock_write` and `hako_flock_read`: whether they report an error.
unfoldable pub flock_write : ℤ → Bool
flock_write ret = ltb_ℤ ret (pos 0)

unfoldable pub flock_read : ℤ → Bool
flock_read ret = ltb_ℤ ret (pos 0)

unfoldable pub flock_write_bytes : ℤ → ℕ → Bool
flock_write_bytes ret size = eqb_ℤ ret (as_ssize size)

unfoldable pub flock_read_bytes : ℤ → ℕ → Bool
flock_read_bytes ret size = eqb_ℤ ret (as_ssize size)

-- `hako_flock_size`: `none` is an error of `fstat`.
unfoldable pub flock_size : Option ℤ → ℕ
flock_size none = 0
flock_size (some (negsuc n)) = 0
flock_size (some (pos n)) = n
