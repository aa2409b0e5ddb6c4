-- ===== src/Tests/Windows.antt =====
-- A process that locks an empty file on Windows, writes 8 bytes to it and gives the lock back; and a line
-- of /proc/<pid>/stat.
use hakoniwa_core_cpp.Prelude.{
  ℕ, ◌<◌, ◌≤◌, pos, true, false, List, [], ◌∷◌, none, some, ◌≡◌, refl, arith,
}
use hakoniwa_core_cpp.Pdu.Types.{update}
use hakoniwa_core_cpp.FlockWait.{WaitState}
use hakoniwa_core_cpp.Flock
use hakoniwa_core_cpp.Windows.FileIo.{
  invalid_handle, mapping, win_open_rw, win_create_rw, file_size, win_mmap, LockAnswer, lock_given,
  lock_violation, io_done, win_pwrite, lock_size, lock_request, win_flock_acquire,
}
use hakoniwa_core_cpp.Windows.Flock.{
  WinFlock, Opening, Try, flock_acquire, flock_release, flock_write_bytes,
}
use hakoniwa_core_cpp.Windows.Mmap.{Creating, Mapping, WinMap, map_file, mmap_create}
use hakoniwa_core_cpp.Windows.Mapped.{IsMapped, mmap_create-IsMapped}
use hakoniwa_core_cpp.Windows.Requests.{length_of}
use hakoniwa_core_cpp.Windows.Processes.{Processes, unlocks, Run, start, step, acquires, writes}
use hakoniwa_core_cpp.Windows.Exclusion.{Run-alone, Run-releases}
use hakoniwa_core_cpp.Windows.Equivalence.{common, common_end, flock_acquire-common}

abbrev opened : WinFlock
opened = record {
  fd = record { map_handle = invalid_handle; size = 0; locked_size = 0 };
  lock_count = 0;
  created = true;
}

abbrev given_all : ℕ → ℕ → LockAnswer
given_all low high = lock_given

abbrev given_none : ℕ → ℕ → LockAnswer
given_none low high = lock_violation

abbrev waits_long : WaitState
waits_long = record { enabled = false; options = record { timeout_ms = 0; is_interrupted = false } }

abbrev holding : WinFlock
holding = record {
  fd = record { map_handle = invalid_handle; size = 0; locked_size = 1 };
  lock_count = 1;
  created = true;
}

abbrev idle : Processes
idle = record { object = λ i. opened; held = λ i. 0 }

abbrev in_use : Processes
in_use = record {
  object = update idle.object 0 holding;
  held = update idle.held 0 (length_of (lock_request opened.fd));
}

abbrev written : Processes
written = record in_use {
  object = update in_use.object 0 (flock_write_bytes (io_done 0) (io_done 8) 0 8 holding).0;
}

run : Run idle written
unfolding flock_acquire win_flock_acquire lock_request lock_size
run =
    step
      (step start
        (acquires 0 waits_long 0 given_all [] (λ on. absurd (cc on)) (λ e q byte lt. omega arith)))
      (writes 0 (io_done 0) (io_done 8) 0 8)

written_count : (written.object 0).lock_count ≡ 1
unfolding flock_write_bytes win_pwrite
written_count = refl

-- The file has 8 bytes by then.
written_size : (written.object 0).fd.size ≡ 8
unfolding flock_write_bytes win_pwrite
written_size = refl

abbrev zeroth : ℕ
zeroth = 0

Run-alone_example : zeroth ≡ zeroth
Run-alone_example =
    Run-alone 0 0 (λ i. (refl, refl, omega arith, refl)) run (omega (arith, written_count))
      (omega (arith, written_count))

Run-releases_example :
    (0 < written.held 0)
    × ((flock_release unlocks (written.held 0) (written.object 0)).1.1 ≡ none)
    × ((flock_release unlocks (written.held 0) (written.object 0)).1.0.lock_count ≡ 0)
    × ((flock_release unlocks (written.held 0) (written.object 0)).0 ≡ 0)
Run-releases_example = Run-releases 0 (λ i. (refl, refl, omega arith, refl)) run written_count

abbrev busy_rounds : List Try
busy_rounds =
    record { now_ms = 100; lock_file = given_none }
    ∷ record { now_ms = 121; lock_file = given_all }
    ∷ []

abbrev bound : WaitState
bound = record { enabled = true; options = record { timeout_ms = 60; is_interrupted = false } }

flock_acquire-common_example :
    common_end (flock_acquire bound 100 given_all busy_rounds opened)
    ≡ Flock.flock_acquire bound 100
        (record { now_ms = 100; answer = Flock.would_block }
          ∷ record { now_ms = 121; answer = Flock.granted }
          ∷ [])
        (common opened)
flock_acquire-common_example = flock_acquire-common bound 100 0 given_all busy_rounds opened

-- `42 (a) S b) R 0 … 0 7001 0`: a name with a space and a parenthesis in it.
abbrev odd_name : List ℕ
odd_name = 52 ∷ 50 ∷ 32 ∷ 40 ∷ 97 ∷ 41 ∷ 32 ∷ 83 ∷ 32 ∷ 98 ∷ []

abbrev zero_field : List ℕ
zero_field = 48 ∷ []

-- An old file of 16 bytes is too small for 64, and is made anew.
abbrev too_small : Opening
too_small = record { opened = true; size_answer = some (pos 16) }

abbrev makes_64 : Creating
makes_64 = record { opened = true; moved = true; ended = true; size_answer = some (pos 64) }

abbrev maps_all : Mapping
maps_all = record { can_map = λ high low. true; viewed = true }

abbrev mapped_64 : WinMap
mapped_64 = record { fd = record { map_handle = mapping; size = 64; locked_size = 0 }; size = 64 }

mapped_64_made : mmap_create too_small makes_64 maps_all 64 opened.fd ≡ some mapped_64
unfolding mmap_create win_open_rw win_create_rw file_size map_file win_mmap
mapped_64_made = refl

mmap_create-IsMapped_example :
    (mapped_64.size ≡ 64) × (64 ≤ mapped_64.fd.size) × IsMapped maps_all 64
mmap_create-IsMapped_example =
    mmap_create-IsMapped too_small makes_64 maps_all 64 opened.fd mapped_64 (omega arith)
      (λ n e. ground arith) refl mapped_64_made
