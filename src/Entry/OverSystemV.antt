-- ===== src/Entry/OverSystemV.antt =====
-- The memory of hako_shared_memory_shm.cpp as the memory of the master data.
use hakoniwa_core_cpp.Prelude.{
  ℕ, ℤ, pos, ltb_ℤ, leb_ℤ, true, false, List, [], ◌∷◌, some, ◌≡◌, refl, arith, ap, ◌∙◌,
}
use hakoniwa_core_cpp.SharedMemory.{Header, Info, find_memory_info, insert}
use hakoniwa_core_cpp.SharedMemory.Loading.{find_self}
use hakoniwa_core_cpp.SystemV
use hakoniwa_core_cpp.SystemV.{Kernel, IsKernel, total_size, marked, entry_of}
use hakoniwa_core_cpp.Entry.{Memory}
use hakoniwa_core_cpp.Entry.Retry.{IsMemory}
use hakoniwa_core_cpp.Entry.Backend.{is_some}

-- What init and load look at: whether the result of create_memory is negative, and whether load_memory
-- gives an entry.
abbrev pub shm_memory : Kernel → ℤ → ℤ → Memory
shm_memory k sem_id key = record {
  Store = k.Segments;
  Handle = List Info;
  fresh = [];
  create_memory = λ size s is.
      let (s', is', result) = SystemV.create_memory k sem_id key size s is in
      (s', is', leb_ℤ (pos 0) result);
  load_memory =
      λ size s is. let (is', entry) = SystemV.load_memory k key size s is in (is', is_some entry);
  destroy_memory = SystemV.destroy_memory k key;
}

-- Every segment can be made and attached.
abbrev pub NeverFails : Kernel → Type 0
NeverFails k =
    (n : ℕ) (s : k.Segments)
    → (s' : k.Segments) × (i : ℕ) × (k.make n s ≡ (s', some (pos i)))
      × (k.can_attach (pos i) s' ≡ true)

module _ (k : Kernel) (v : IsKernel k) (works : NeverFails k) (sem_id key : ℤ) (size : ℕ)
    (valid : ltb_ℤ sem_id (pos 0) ≡ false) where
  create-made :
      (s s' : k.Segments) (i : ℕ)
      → k.make (total_size size) s ≡ (s', some (pos i))
      → k.can_attach (pos i) s' ≡ true
      → (h : Header) × (SystemV.create_memory k sem_id key size s []
          ≡ (k.set_header (pos i) h s', entry_of k key (total_size size) h ∷ [], pos i))
  unfolding SystemV.create_memory insert find_memory_info
  create-made s s' i made can = (
    marked k (pos i) sem_id size (k.header (pos i) s'),
    ap (SystemV.attach_made k sem_id key size []) made ∙ rw (can, valid) refl,
  )

  not_negative : (i : ℕ) → leb_ℤ (pos 0) (pos i) ≡ true
  not_negative i = ground arith

  load-found :
      (s' : k.Segments) (id : ℤ)
      → k.find (total_size size) s' ≡ some id
      → k.can_attach id s' ≡ true
      → is_some (SystemV.load_memory k key size s' []).1 ≡ true
  unfolding SystemV.load_memory insert
  load-found s' id there can =
      ground (arith, there, can, find_self (entry_of k key (total_size size) (k.header id s')) [])

  -- With a kernel whose calls keep what they promise and never fail, and semaphores that can be made, the
  -- memory over System V can be created and then loaded, whatever its size.
  pub shm_memory-IsMemory : IsMemory (shm_memory k sem_id key) size
  shm_memory-IsMemory = record {
    creates = λ s.
        let (s', i, made, can) = works (total_size size) s in
        let (h, did) = create-made s s' i made can in
        ap (λ (r : k.Segments × List Info × ℤ). leb_ℤ (pos 0) r.2) did ∙ not_negative i;
    loads = λ s.
        let (s', i, made, can) = works (total_size size) s in
        let (h, did) = create-made s s' i made can in
        ap (λ (r : k.Segments × List Info × ℤ). is_some (SystemV.load_memory k key size r.0 []).1)
          did
        ∙ load-found (k.set_header (pos i) h s') (pos i)
            (v.found (total_size size) s s' (pos i) h made) (v.stays (pos i) h s' can);
  }
