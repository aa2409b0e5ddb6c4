-- ===== src/Windows/Mmap.antt =====
-- win/hako_mmap.cpp: a file mapped into the memory on Windows.
use hakoniwa_core_cpp.Prelude.{ℕ, ℤ, pos, ltb_ℤ, Bool, ltb, ◌||◌, if◌then◌else◌, Option, none, some}
use hakoniwa_core_cpp.Windows.FileIo.{WinHandle, win_open_rw, win_create_rw, win_mmap, win_munmap}
use hakoniwa_core_cpp.Windows.Flock.{Opening}

-- `HakoMmapFileHandleObjectType`, without its addresses.
pub record WinMap : Type 0 where
  pub fd : WinHandle
  pub size : ℕ

-- What the API answers to `win_create_rw` and to `win_mmap`.
pub record Creating : Type 0 where
  pub opened : Bool
  pub moved : Bool
  pub ended : Bool
  pub size_answer : Option ℤ

pub record Mapping : Type 0 where
  pub can_map : ℕ → ℕ → Bool
  pub viewed : Bool

-- The end of `hako_mmap_create` and of `hako_mmap_open`.
unfoldable pub map_file : Mapping → ℕ → WinHandle → Option WinMap
unfolding win_mmap
map_file m size h =
    let mapped = win_mmap m.can_map m.viewed h in
    if mapped.1 then some (record { fd = mapped.0; size = size }) else none

-- `hako_mmap_create`, for a handle from malloc: the file is made anew where it is not there, or too small.
unfoldable pub mmap_create : Opening → Creating → Mapping → ℕ → WinHandle → Option WinMap
unfolding win_open_rw win_create_rw map_file
mmap_create o c m size raw =
    let found = win_open_rw o.opened o.size_answer raw in
    let made =
      win_create_rw c.opened c.moved c.ended c.size_answer (record found.0 { size = size }) in
    if ltb_ℤ found.1 (pos 0) || ltb found.0.size size
    then if ltb_ℤ made.1 (pos 0) then none else map_file m size made.0
    else map_file m size found.0

unfoldable pub mmap_open : Opening → Mapping → WinHandle → Option WinMap
unfolding win_open_rw map_file
mmap_open o m raw =
    let found = win_open_rw o.opened o.size_answer raw in
    if ltb_ℤ found.1 (pos 0) then none else map_file m found.0.size found.0

-- `hako_mmap_close` and `hako_mmap_destroy`, with whether the object has an address.
unfoldable pub mmap_close : Bool → WinMap → WinMap
unfolding win_munmap
mmap_close has_address w = if has_address then record w { fd = win_munmap w.fd } else w
