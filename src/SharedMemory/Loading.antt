-- ===== src/SharedMemory/Loading.antt =====
-- What processes see of a memory that one has created (hako_shared_memory_mmap.cpp).
use hakoniwa_core_cpp.Prelude.{
  ℕ, ◌+◌, ◌^◌, ◌≤◌, ◌<◌, ℤ, pos, negsuc, ltb_ℤ, true, false, leb, List, [], ◌∷◌, Option, none, some,
  ◌≡◌, ◌≢◌, refl, ap, ◌∙◌, arith, Bool-cases, inl, inr,
}
use hakoniwa_core_cpp.SharedMemory.{
  MmapFile, System, Info, header_size, mmap_create, mmap_open, find_memory_info, insert, erase,
  create_memory, is_accepted, info_of, load_memory, lock_memory, get_semid, destroy_memory,
  new_header, zero_file,
}

abbrev pub all_well : System
all_well = record { can_create = true; can_resize = true; can_open = true; can_map = true }

pub find_self : (i : Info) (is : List Info) → find_memory_info i.key (i ∷ is) ≡ some i
unfolding find_memory_info
find_self i is = ground arith

-- An entry that is not there is inserted.
pub insert-new :
    (i : Info) (is : List Info) → find_memory_info i.key is ≡ none → insert i is ≡ i ∷ is
unfolding insert
insert-new i is e = ground arith

insert-old : (i j : Info) (is : List Info) → find_memory_info i.key is ≡ some j → insert i is ≡ is
unfolding insert
insert-old i j is e = ground arith

find-erase : (key : ℤ) (is : List Info) → find_memory_info key (erase key is) ≡ none
unfolding find_memory_info erase
find-erase key [] = refl
find-erase key (i ∷ is) = ground (arith, find-erase key is)

-- With a system that does not fail the file is made or kept, and is big enough.
mmap_create-made :
    (total : ℕ) (file : Option MmapFile)
    → total < 2 ^ 63
    → (f : MmapFile) × (mmap_create all_well total file ≡ (some f, true)) × (total ≤ f.size)
unfolding mmap_create
mmap_create-made total none small = (zero_file total, ground arith, omega arith)
mmap_create-made total (some f) small = elim (Bool-cases (leb total f.size)) [
  | inl enough ↦ (f, ground arith, ground arith)
  | inr short ↦ (zero_file total, ground arith, omega arith)
]

pub create_memory-made :
    (sem_id key : ℤ) (size : ℕ) (file : Option MmapFile) (is : List Info)
    → size + header_size < 2 ^ 63
    → ltb_ℤ sem_id (pos 0) ≡ false
    → (f : MmapFile) × (create_memory all_well sem_id key size file is ≡ (
      some (record f { header = new_header sem_id size }),
      insert
          (record { key = key; shm_id = negsuc 0; sem_id = sem_id; mapped = size + header_size })
          is,
      pos 0,
    ))
      × (size + header_size ≤ f.size)
unfolding create_memory
create_memory-made sem_id key size file is small valid =
    let (f, made, enough) = mmap_create-made (size + header_size) file small in
    (f, ground arith, enough)

load-accepted :
    (key : ℤ) (size : ℕ) (f : MmapFile) (is : List Info)
    → 0 < size
    → 0 < f.size
    → find_memory_info key is ≡ none
    → is_accepted size f.header ≡ true
    → load_memory all_well key size (some f) is ≡ (info_of key f ∷ is, some (info_of key f))
unfolding load_memory insert mmap_open
load-accepted key size f is some_bytes full fresh fits =
    ground (arith, insert-new (info_of key f) is fresh, find_self (info_of key f) is)

load-refused :
    (os : System) (key : ℤ) (size : ℕ) (f : MmapFile) (is : List Info)
    → find_memory_info key is ≡ none
    → is_accepted size f.header ≡ false
    → load_memory os key size (some f) is ≡ (is, none)
unfolding load_memory mmap_open
load-refused os key size f is fresh refused = ground arith

-- Where the system does not fail and the size with the header is less than 2^63: a process creates the
-- memory of a key, whether or not there is an old file. Then another process, which has not mapped it,
-- can load it with this size, is given a mapping of all of it and the same lock, and is refused it with
-- any other size.
pub load-create :
    (sem_id key : ℤ) (size other : ℕ) (file : Option MmapFile) (is js : List Info)
    → size + header_size < 2 ^ 63
    → 0 < size
    → other ≢ size
    → ltb_ℤ sem_id (pos 0) ≡ false
    → find_memory_info key js ≡ none
    → (f : MmapFile) × (ks ls : List Info) × (i : Info) × (create_memory all_well sem_id key size
          file is
        ≡ (some f, ks, pos 0))
      × (load_memory all_well key size (some f) js ≡ (ls, some i))
      × (size + header_size ≤ i.mapped)
      × (get_semid key ls ≡ sem_id)
      × (load_memory all_well key other (some f) js ≡ (js, none))
unfolding get_semid
load-create sem_id key size other file is js small some_bytes ne valid fresh =
    let (f, did, enough) = create_memory-made sem_id key size file is small valid in
    let g : MmapFile = record f { header = new_header sem_id size } in
    (
      g,
      _,
      _,
      info_of key g,
      did,
      load-accepted key size g js some_bytes (omega arith) fresh (ground arith),
      enough,
      ground (arith, find_self (info_of key g) js),
      load-refused all_well key other g js fresh (ground arith),
    )

-- A process that has mapped the memory of a key is given its mapping again, whatever size it asks for.
pub load_memory-again :
    (os : System) (key : ℤ) (size : ℕ) (file : Option MmapFile) (is : List Info) (i : Info)
    → 0 < size
    → find_memory_info key is ≡ some i
    → load_memory os key size file is ≡ (is, some i)
unfolding load_memory
load_memory-again os key size file is i some_bytes e = ground arith

-- Where the system does not fail and the size with the header is less than 2^63: a process that has
-- mapped the memory of a key creates it once more, and is answered 0. It keeps its old mapping, also
-- where this is smaller than what it has created.
pub lock-create_again :
    (sem_id key : ℤ) (size : ℕ) (file : Option MmapFile) (is : List Info) (i : Info)
    → size + header_size < 2 ^ 63
    → ltb_ℤ sem_id (pos 0) ≡ false
    → find_memory_info key is ≡ some i
    → (f : MmapFile) × (create_memory all_well sem_id key size file is ≡ (some f, is, pos 0))
      × (size + header_size ≤ f.size)
      × (lock_memory key is ≡ some i)
unfolding lock_memory
lock-create_again sem_id key size file is i small valid e =
    let (f, did, enough) = create_memory-made sem_id key size file is small valid in
    let kept =
      insert-old
        (record { key = key; shm_id = negsuc 0; sem_id = sem_id; mapped = size + header_size }) i is
        e in
    (record f { header = new_header sem_id size }, ground arith, enough, e)

-- destroy_memory leaves the file: a process that has destroyed the memory of a key, which it had made
-- with this size, has no mapping of it, and can load it again.
pub load-destroy :
    (sem_id key : ℤ) (size : ℕ) (f : MmapFile) (is : List Info) (i : Info)
    → 0 < size
    → 0 < f.size
    → f.header ≡ new_header sem_id size
    → find_memory_info key is ≡ some i
    → (lock_memory key (destroy_memory key is) ≡ none)
      × (load_memory all_well key size (some f) (destroy_memory key is)
          ≡ (info_of key f ∷ destroy_memory key is, some (info_of key f)))
unfolding destroy_memory lock_memory
load-destroy sem_id key size f is i some_bytes full h e =
    let gone : destroy_memory key is ≡ erase key is = ground arith in
    let absent : find_memory_info key (destroy_memory key is) ≡ none =
      ap (find_memory_info key) gone ∙ find-erase key is in
    (absent, load-accepted key size f (destroy_memory key is) some_bytes full absent (ground arith))
