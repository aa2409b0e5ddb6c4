-- ===== src/SharedMemory.antt =====
-- src/hako/utils/hako_share/impl/hako_shared_memory_mmap.cpp: the shared memory of a key, which is a
-- file that processes map, and posix/hako_mmap.cpp, which makes and maps it. The answers of the system
-- and of the creation of the lock's file are arguments.
pub mod Loading
use hakoniwa_core_cpp.Prelude.{
  ℕ, zero, suc, ◌+◌, ◌-◌, ◌^◌, ℤ, pos, negsuc, ltb_ℤ, leb_ℤ, eqb_ℤ, Bool, true, false, ltb, leb,
  ◌==◌, ◌&&◌, ◌||◌, not, if◌then◌else◌, List, [], ◌∷◌, Option, none, some, replicate,
}

-- `SharedMemoryMetaDataType`, without its data.
pub record Header : Type 0 where
  pub magic : ℕ
  pub version : ℕ
  pub shm_id : ℤ
  pub sem_id : ℤ
  pub data_size : ℕ

-- A file is its size, its header and the bytes after the header, which read as zeros where the file is
-- too short.
pub record MmapFile : Type 0 where
  pub size : ℕ
  pub header : Header
  pub bytes : List ℕ

abbrev pub hako_shm_magic : ℕ
hako_shm_magic = 0x48414B4F

abbrev pub hako_shm_layout_version : ℕ
hako_shm_layout_version = 2

-- `sizeof(SharedMemoryMetaDataType)`, which is 32, of which the data take the last 8.
abbrev pub header_size : ℕ
header_size = 32

abbrev pub zero_header : Header
zero_header = record { magic = 0; version = 0; shm_id = pos 0; sem_id = pos 0; data_size = 0 }

abbrev pub zero_file : ℕ → MmapFile
zero_file n = record { size = n; header = zero_header; bytes = replicate (n - 24) 0 }

-- What the system answers to the calls for one file.
pub record System : Type 0 where
  pub can_create : Bool
  pub can_resize : Bool
  pub can_open : Bool
  pub can_map : Bool

-- `hako_mmap_create`: a file that is there and big enough is kept, any other one is emptied. The file
-- afterwards, and whether it could be mapped.
unfoldable pub mmap_create : System → ℕ → Option MmapFile → Option MmapFile × Bool
mmap_create os size file =
    if elim file as (λ x. Bool) [ none ↦ false | some f ↦ leb size f.size ]
    then (file, os.can_open && os.can_map)
    else if not os.can_create
    then (file, false)
    else if leb (2 ^ 63) size || not os.can_resize
    then (some (zero_file 0), false)
    else (some (zero_file size), os.can_open && os.can_map)

-- `hako_mmap_open`, which maps the file as it is.
unfoldable pub mmap_open : System → Option MmapFile → Option MmapFile
mmap_open os none = none
mmap_open os (some f) = if os.can_open && (os.can_map && ltb 0 f.size) then some f else none

-- `SharedMemoryInfoType`. `mapped` is the number of bytes of the file that the process has mapped.
pub record Info : Type 0 where
  pub key : ℤ
  pub shm_id : ℤ
  pub sem_id : ℤ
  pub mapped : ℕ

-- `shared_memory_map_` of a process.
unfoldable pub find_memory_info : ℤ → List Info → Option Info
find_memory_info key [] = none
find_memory_info key (i ∷ is) =
    let rest = find_memory_info key is in if eqb_ℤ i.key key then some i else rest

-- `std::map::insert`, which keeps an entry that is there.
unfoldable pub insert : Info → List Info → List Info
unfolding find_memory_info
insert i is = elim (find_memory_info i.key is) [ none ↦ i ∷ is | some old ↦ is ]

unfoldable pub erase : ℤ → List Info → List Info
erase key [] = []
erase key (i ∷ is) = let rest = erase key is in if eqb_ℤ i.key key then rest else i ∷ rest

-- What `create_memory` writes.
abbrev pub new_header : ℤ → ℕ → Header
new_header sem_id size = record {
  magic = hako_shm_magic;
  version = hako_shm_layout_version;
  shm_id = negsuc 0;
  sem_id = sem_id;
  data_size = size;
}

-- `create_memory`: the file afterwards, the map, and the result. `sem_id` is the answer of
-- `hako::utils::sem::flock::create`.
unfoldable pub create_memory :
    System → ℤ → ℤ → ℕ → Option MmapFile → List Info → Option MmapFile × List Info × ℤ
unfolding mmap_create insert
create_memory os sem_id key size file is =
    if ltb (2 ^ 64 - 1 - header_size) size
    then (file, is, negsuc 0)
    else let (made, ok) = mmap_create os (size + header_size) file in
      if not ok
      then (made, is, negsuc 0)
      else if ltb_ℤ sem_id (pos 0)
      then (made, is, negsuc 0)
      else elim made [
        | none ↦ (none, is, negsuc 0)
        | some f ↦ (
          some (record f { header = new_header sem_id size }),
          insert
              (record {
                key = key;
                shm_id = negsuc 0;
                sem_id = sem_id;
                mapped = size + header_size;
              })
              is,
          pos 0,
        )
      ]

abbrev pub is_accepted : ℕ → Header → Bool
is_accepted size h =
    (h.magic == hako_shm_magic) && ((h.version == hako_shm_layout_version) && (h.data_size == size))

abbrev pub info_of : ℤ → MmapFile → Info
info_of key f = record {
  key = key;
  shm_id = f.header.shm_id;
  sem_id = f.header.sem_id;
  mapped = f.size;
}

abbrev pub loaded : ℤ → List Info → List Info × Option Info
loaded key is = (is, find_memory_info key is)

-- `load_memory_shmid`: the map, and the entry whose data the result points to.
unfoldable pub load_memory_shmid :
    System → ℤ → ℤ → ℕ → Option MmapFile → List Info → List Info × Option Info
unfolding find_memory_info mmap_open insert
load_memory_shmid os key shmid size file is =
    if leb_ℤ (pos 0) shmid then (is, none) else elim (find_memory_info key is) [
      | some i ↦ (is, some i)
      | none ↦ elim (mmap_open os file) [
        | none ↦ (is, none)
        | some f ↦
            if is_accepted size f.header then loaded key (insert (info_of key f) is) else (is, none)
      ]
    ]

unfoldable pub load_memory : System → ℤ → ℕ → Option MmapFile → List Info → List Info × Option Info
unfolding load_memory_shmid
load_memory os key size file is =
    if size == 0 then (is, none) else load_memory_shmid os key (negsuc 0) size file is

-- `lock_memory` and `unlock_memory`: the entry whose lock is taken or freed.
unfoldable pub lock_memory : ℤ → List Info → Option Info
lock_memory key is = find_memory_info key is

unfoldable pub unlock_memory : ℤ → List Info → Option ℤ
unlock_memory key is = elim (find_memory_info key is) [ none ↦ none | some i ↦ some i.sem_id ]

unfoldable pub get_semid : ℤ → List Info → ℤ
unfolding find_memory_info
get_semid key is = elim (find_memory_info key is) [ none ↦ negsuc 0 | some i ↦ i.sem_id ]

-- `destroy_memory`, which leaves the file.
unfoldable pub destroy_memory : ℤ → List Info → List Info
unfolding find_memory_info erase
destroy_memory key is = elim (find_memory_info key is) [ none ↦ is | some i ↦ erase key is ]
