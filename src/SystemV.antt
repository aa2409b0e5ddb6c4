-- ===== src/SystemV.antt =====
-- src/hako/utils/hako_share/impl/posix/hako_shared_memory_shm.cpp: the shared memory of a key over the
-- segments of System V. The kernel's calls are a parameter, and so is the answer of the creation of the
-- semaphores. Locking and finding an entry are those of SharedMemory.
use hakoniwa_core_cpp.Prelude.{
  ℕ, ◌+◌, ◌%◌, ◌^◌, ℤ, pos, negsuc, ltb_ℤ, Bool, true, not, if◌then◌else◌, List, Option, none, some,
  ◌≡◌,
}
use hakoniwa_core_cpp.SharedMemory.{Header, Info, header_size, find_memory_info, insert, erase}

-- shmget with and without IPC_CREAT, shmat, the header of an attached segment, and the removal by
-- shmctl, for one key.
pub record Kernel : Type 1 where
  pub Segments : Type 0
  pub make : ℕ → Segments → Segments × Option ℤ
  pub find : ℕ → Segments → Option ℤ
  pub can_attach : ℤ → Segments → Bool
  pub header : ℤ → Segments → Header
  pub set_header : ℤ → Header → Segments → Segments
  pub remove : ℤ → Segments → Segments

-- What the calls promise: a segment that has been made is found, also after a write to it; a write is
-- read; and whoever could attach it still can.
pub record IsKernel (k : Kernel) : Type 0 where
  pub found :
      (n : ℕ) (s s' : k.Segments) (id : ℤ) (h : Header)
      → k.make n s ≡ (s', some id)
      → k.find n (k.set_header id h s') ≡ some id
  pub is_read : (id : ℤ) (h : Header) (s : k.Segments) → k.header id (k.set_header id h s) ≡ h
  pub stays :
      (id : ℤ) (h : Header) (s : k.Segments)
      → k.can_attach id s ≡ true
      → k.can_attach id (k.set_header id h s) ≡ true

abbrev pub total_size : ℕ → ℕ
total_size size = (size + header_size) % 2 ^ 64

module _ (k : Kernel) where
  -- What `create_memory` writes; the magic number and the version stay.
  abbrev pub marked : ℤ → ℤ → ℕ → Header → Header
  marked shmid sem_id size h = record h { shm_id = shmid; sem_id = sem_id; data_size = size }

  abbrev pub entry_of : ℤ → ℕ → Header → Info
  entry_of key total h = record { key = key; shm_id = h.shm_id; sem_id = h.sem_id; mapped = total }

  -- `create_memory` after the call of shmget: the segments, the map, and the result.
  unfoldable pub attach_made :
      ℤ → ℤ → ℕ → List Info → k.Segments × Option ℤ → k.Segments × List Info × ℤ
  unfolding insert
  attach_made sem_id key size is (s, none) = (s, is, negsuc 0)
  attach_made sem_id key size is (s, some shmid) =
      if not (k.can_attach shmid s)
      then (s, is, negsuc 0)
      else if ltb_ℤ sem_id (pos 0)
      then (k.remove shmid s, is, negsuc 0)
      else (
        k.set_header shmid (marked shmid sem_id size (k.header shmid s)) s,
        insert (entry_of key (total_size size) (marked shmid sem_id size (k.header shmid s))) is,
        shmid,
      )

  unfoldable pub create_memory : ℤ → ℤ → ℕ → k.Segments → List Info → k.Segments × List Info × ℤ
  unfolding attach_made
  create_memory sem_id key size s is = attach_made sem_id key size is (k.make (total_size size) s)

  -- `load_memory_shmid` attaches the segment once more, also where the map has its key.
  unfoldable pub load_memory_shmid : ℤ → ℤ → ℕ → k.Segments → List Info → List Info × Option Info
  unfolding insert find_memory_info
  load_memory_shmid key shmid total s is = if not (k.can_attach shmid s) then (is, none) else (
    insert (entry_of key total (k.header shmid s)) is,
    find_memory_info key (insert (entry_of key total (k.header shmid s)) is),
  )

  unfoldable pub load_memory : ℤ → ℕ → k.Segments → List Info → List Info × Option Info
  unfolding load_memory_shmid
  load_memory key size s is = elim (k.find (total_size size) s) [
    | none ↦ (is, none)
    | some shmid ↦ load_memory_shmid key shmid (total_size size) s is
  ]

  unfoldable pub destroy_memory : ℤ → k.Segments → List Info → k.Segments × List Info
  unfolding find_memory_info erase
  destroy_memory key s is = elim (find_memory_info key is) [
    | none ↦ (s, is)
    | some i ↦ (k.remove i.shm_id s, erase key is)
  ]
