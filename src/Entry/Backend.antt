-- ===== src/Entry/Backend.antt =====
-- The memory of hako_shared_memory_mmap.cpp as the memory of the master data, with a system that does not
-- fail.
use hakoniwa_core_cpp.Prelude.{
  ℕ, ◌+◌, ◌^◌, ◌<◌, ℤ, pos, ltb_ℤ, eqb_ℤ, Bool, true, false, List, [], Option, none, some, ◌≡◌,
  refl, arith, ap, ◌∙◌,
}
use hakoniwa_core_cpp.SharedMemory
use hakoniwa_core_cpp.SharedMemory.{MmapFile, Info, header_size}
use hakoniwa_core_cpp.SharedMemory.Loading.{all_well, load-create}
use hakoniwa_core_cpp.Entry.{Memory}
use hakoniwa_core_cpp.Entry.Retry.{IsMemory}

abbrev pub is_some {ℓ} : {A : Type ℓ} → Option A → Bool
is_some none = false
is_some (some a) = true

-- The file and the map at one key.
abbrev pub mmap_memory : ℤ → ℤ → Memory
mmap_memory sem_id key = record {
  Store = Option MmapFile;
  Handle = List Info;
  fresh = [];
  create_memory = λ size file is.
      let (file', is', result) = SharedMemory.create_memory all_well sem_id key size file is in
      (file', is', eqb_ℤ result (pos 0));
  load_memory = λ size file is.
      let (is', entry) = SharedMemory.load_memory all_well key size file is in (is', is_some entry);
  destroy_memory = λ file is. (file, SharedMemory.destroy_memory key is);
}

nothing : (key : ℤ) → SharedMemory.find_memory_info key [] ≡ none
unfolding SharedMemory.find_memory_info
nothing key = refl

-- With a system that does not fail, and a lock's file that can be made, the memory by mmap can be created
-- and then loaded, if its size is not 0 and fits with the header into 2^63.
pub mmap_memory-IsMemory :
    (sem_id key : ℤ) (size : ℕ)
    → size + header_size < 2 ^ 63
    → 0 < size
    → ltb_ℤ sem_id (pos 0) ≡ false
    → IsMemory (mmap_memory sem_id key) size
mmap_memory-IsMemory sem_id key size small some_bytes valid = record {
  creates = λ s.
      let (f, ks, ls, i, did, _, _, _, _) =
        load-create sem_id key size 0 s [] [] small some_bytes (omega arith) valid (nothing key) in
      ap (λ (r : Option MmapFile × List Info × ℤ). eqb_ℤ r.2 (pos 0)) did;
  loads = λ s.
      let (f, ks, ls, i, did, loads, _, _, _) =
        load-create sem_id key size 0 s [] [] small some_bytes (omega arith) valid (nothing key) in
      ap
        (λ (r : Option MmapFile × List Info × ℤ).
          is_some (SharedMemory.load_memory all_well key size r.0 []).1)
        did
      ∙ ap (λ (r : List Info × Option Info). is_some r.1) loads;
}
