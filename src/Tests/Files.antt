-- ===== src/Tests/Files.antt =====
-- The lock of a file, a shared memory and the controllers over it (posix/hako_flock.cpp,
-- hako_shared_memory_mmap.cpp and hako_impl.cpp).
use hakoniwa_core_cpp.Prelude.{
  All, inl, zero, suc, ap, ℤ, Option, map, take, ◌++◌, ℕ, ◌+◌, ◌≤◌, ◌<◌, pos, true, false, [], ◌∷◌,
  List, none, some, ◌≡◌, ◌≢◌, refl, arith,
}
use hakoniwa_core_cpp.Pdu.Types.{returns, update}
use hakoniwa_core_cpp.Master.Types.{stopped}
use hakoniwa_core_cpp.Master.Assets.{init}
use hakoniwa_core_cpp.FlockWait.{WaitState, wait_checkpoint}
use hakoniwa_core_cpp.Flock.{
  new_object, would_block, granted, Try, waiting, wait_bounded, flock_acquire, flock_release,
}
use hakoniwa_core_cpp.Flock.Waiting.{flock_acquire-ne-waiting}
use hakoniwa_core_cpp.Pdu.Types.{update}
use hakoniwa_core_cpp.Flock.Exclusion.{
  Processes, Step, start, step, acquires, releases, IsWhole, Run-exclusive,
}
use hakoniwa_core_cpp.MemoryLog.{LogData, stored, add_logs, print_log}
use hakoniwa_core_cpp.MemoryLog.First.{print-add_logs}
use hakoniwa_core_cpp.MemoryLog.Overrun.{
  Logging, quiet, away, passed, holding, here, next, tests, takes, writes, Run-bound,
}
use hakoniwa_core_cpp.SharedMemory.{
  Header, MmapFile, Info, header_size, create_memory, load_memory, get_semid, find_memory_info,
}
use hakoniwa_core_cpp.SharedMemory.Loading.{all_well, load-create}
use hakoniwa_core_cpp.Entry.{Process, hako_init, create_asset_controller, get_simevent_controller}
use hakoniwa_core_cpp.Entry.Retry.{IsUsable, create-init}
use hakoniwa_core_cpp.SystemV.{Kernel, IsKernel}
use hakoniwa_core_cpp.Entry.Backend.{mmap_memory, mmap_memory-IsMemory}

-- A limit of 20 milliseconds, and two rounds.
abbrev bound : WaitState
bound = record { enabled = true; options = record { timeout_ms = 20; is_interrupted = false } }

abbrev rounds : List Try
rounds =
    record { now_ms = 100; answer = would_block }
    ∷ record { now_ms = 121; answer = would_block }
    ∷ []

flock_acquire-ne-waiting_example : flock_acquire bound 100 rounds (new_object false) ≢ waiting
flock_acquire-ne-waiting_example =
    flock_acquire-ne-waiting bound 100 rounds (new_object false) refl
      (omega arith, omega arith, (omega arith, omega arith, tt)) (omega arith)

abbrev apart : Processes
apart = record { object = λ p. new_object false; holder = none }

abbrev at_once : List Try
at_once = record { now_ms = 100; answer = granted } ∷ []

abbrev locked_first : Processes
locked_first = record {
  object = update apart.object 3 (record { lock_count = 1; created = false });
  holder = some 3;
}

abbrev locked_twice : Processes
locked_twice = record {
  object = update locked_first.object 3 (record { lock_count = 2; created = false });
  holder = some 3;
}

one_round : IsWhole bound 100 at_once (new_object false)
unfolding flock_acquire wait_bounded
one_round zero h = refl
one_round (suc n) h = absurd (omega (arith, h))

locks_first : Step apart locked_first
unfolding flock_acquire wait_checkpoint
locks_first = acquires 3 bound 100 at_once one_round (λ e. inl refl)

locks_twice : Step locked_first locked_twice
unfolding flock_acquire
locks_twice = acquires 3 bound 100 [] (λ n h. absurd (omega (arith, h))) (λ e. absurd (cc e))

one_left : 0 < (flock_release (record { lock_count = 2; created = false })).0.lock_count
unfolding flock_release
one_left = omega arith

-- Process 3 takes the lock twice and gives it back once.
abbrev three : ℕ
three = 3

Run-exclusive_example : three ≡ three
Run-exclusive_example =
    Run-exclusive {s = apart} 3 3 (λ i. refl)
      (step (step (step start locks_first) locks_twice) (releases 3)) one_left one_left

load-create_example :
    (f : MmapFile) × (ks ls : List Info) × (i : Info) × (create_memory all_well
        (pos 7)
        (pos 255)
        64
        none
        []
      ≡ (some f, ks, pos 0))
    × (load_memory all_well (pos 255) 64 (some f) [] ≡ (ls, some i))
    × (64 + header_size ≤ i.mapped)
    × (get_semid (pos 255) ls ≡ pos 7)
    × (load_memory all_well (pos 255) 65 (some f) [] ≡ ([], none))
unfolding find_memory_info
load-create_example =
    load-create (pos 7) (pos 255) 64 65 none [] [] (omega arith) (omega arith) (omega arith) refl
      refl

abbrev new_process : Process (mmap_memory (pos 7) (pos 255))
new_process = record {
  store = none;
  master = init 2 (pos 0);
  master_data = none;
  has_master = false;
  has_asset = false;
  has_simevent = false;
}

create-init_example :
    (m' t u : Process (mmap_memory (pos 7) (pos 255))) × (hako_init
        (mmap_memory (pos 7) (pos 255))
        64
        2
        (pos 9)
        new_process
      ≡ returns m')
    × (create_asset_controller
          (mmap_memory (pos 7) (pos 255))
          64
          2
          true
          (record new_process { store = m'.store; master = m'.master })
        ≡ (t, true))
    × (get_simevent_controller (mmap_memory (pos 7) (pos 255)) 64 2 true t ≡ (u, true))
    × IsUsable (mmap_memory (pos 7) (pos 255)) u
    × (u.master.state ≡ stopped)
    × (u.master.master_pid ≡ pos 9)
create-init_example =
    create-init (mmap_memory (pos 7) (pos 255)) 64 2
      (mmap_memory-IsMemory (pos 7) (pos 255) 64 (omega arith) (omega arith) refl) (pos 9)
      new_process new_process refl refl refl refl

-- A log of two entries of four bytes, of which one is in use, and three messages.
abbrev one_left_log : LogData
one_left_log = record { index = 1; entries = (1 ∷ []) ∷ [] ∷ [] }

abbrev texts : List (List ℕ)
texts = (2 ∷ 3 ∷ 4 ∷ 5 ∷ []) ∷ (6 ∷ []) ∷ []

print-add_logs_example :
    print_log (add_logs 4 texts one_left_log)
    ≡ print_log one_left_log ++ take 1 (map (stored 4) texts)
print-add_logs_example = print-add_logs 4 texts one_left_log (omega arith)

-- A kernel with one segment of any size.
abbrev one_segment : Kernel
one_segment = record {
  Segments = Header;
  make = λ n h. (h, some (pos 5));
  find = λ n h. some (pos 5);
  can_attach = λ id h. true;
  header = λ id h. h;
  set_header = λ id h old. h;
  remove = λ id h. h;
}

one_segment-IsKernel : IsKernel one_segment
one_segment-IsKernel = record {
  found = λ n s s' id h made. ap (λ (r : Header × Option ℤ). r.1) made;
  is_read = λ id h s. refl;
  stays = λ id h s can. refl;
}

-- Two processes at the one entry that is left: the second one writes behind it.
abbrev both_passed : Logging
both_passed = record (quiet 1) { place = update (update (λ p. away) 0 passed) 1 passed }

abbrev both_hold : Logging
both_hold = record both_passed {
  index = 3;
  place = update (update both_passed.place 0 (holding 1)) 1 (holding 2);
}

abbrev both_written : Logging
both_written = record both_hold {
  place = update (update both_hold.place 0 away) 1 away;
  written = 2 ∷ 1 ∷ [];
}

Run-bound_example : All (λ i. suc i < 2 + 2) both_written.written
Run-bound_example = Run-bound 2 2 1 both_written (omega arith) (omega arith) (
    next
      (next
        (next
          (next
            (next (next here (tests 0 (omega arith) refl (omega arith)))
              (tests 1 (omega arith) refl (omega arith)))
            (takes 0 (omega arith) refl))
          (takes 1 (omega arith) refl))
        (writes 0 1 (omega arith) refl))
      (writes 1 2 (omega arith) refl))
