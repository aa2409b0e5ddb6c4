-- ===== src/Windows/Mapped.antt =====
-- win/hako_mmap.cpp: what is mapped of a file that a process creates and another one opens.
use hakoniwa_core_cpp.Prelude.{
  ℕ, ◌^◌, ◌<◌, ◌≤◌, ℤ, pos, negsuc, ltb, ltb_ℤ, Bool, true, false, ◌||◌, Option, none, some, ◌≡◌,
  refl, subst, sym, arith, Bool-cases, inl, inr,
}
use hakoniwa_core_cpp.Windows.FileIo.{
  WinHandle, file_size, low32, high32, win_open_rw, win_create_rw, win_mmap,
}
use hakoniwa_core_cpp.Windows.Flock.{Opening}
use hakoniwa_core_cpp.Windows.Mmap.{Creating, Mapping, WinMap, map_file, mmap_create}
use hakoniwa_core_cpp.Windows.Requests.{length_of, low32-high32}

-- CreateFileMapping has made a map of `n` bytes.
abbrev pub IsMapped : Mapping → ℕ → Type 0
IsMapped m n = (high : ℕ) × (low : ℕ) × (m.can_map high low ≡ true) × (length_of (low, high) ≡ n)

map_file-IsMapped :
    (m : Mapping) (size : ℕ) (h : WinHandle) (w : WinMap)
    → h.size < 2 ^ 64
    → map_file m size h ≡ some w
    → (w.size ≡ size) × (w.fd.size ≡ h.size) × IsMapped m h.size
unfolding map_file win_mmap
map_file-IsMapped m size h w small e = (
  ground arith,
  ground arith,
  (high32 h.size, low32 h.size, ground arith, low32-high32 h.size small),
)

opened_size :
    (opened : Bool) (a : Option ℤ) (raw : WinHandle)
    → ((n : ℕ) → a ≡ some (pos n) → n < 2 ^ 63)
    → ltb_ℤ (win_open_rw opened a raw).1 (pos 0) ≡ false
    → (win_open_rw opened a raw).0.size < 2 ^ 63
unfolding win_open_rw file_size
opened_size opened none raw answer ok = ground arith
opened_size opened (some (negsuc n)) raw answer ok = ground arith
opened_size opened (some (pos n)) raw answer ok = ground (arith, answer n refl)

created_size :
    (c : Creating) (size : ℕ) (h : WinHandle)
    → c.size_answer ≡ some (pos size)
    → ltb_ℤ (win_create_rw c.opened c.moved c.ended c.size_answer h).1 (pos 0) ≡ false
    → (win_create_rw c.opened c.moved c.ended c.size_answer h).0.size ≡ size
unfolding win_create_rw file_size
created_size c size h set ok = ground arith

mapped_file :
    (o : Opening) (c : Creating) (m : Mapping) (size : ℕ) (raw : WinHandle) (w : WinMap)
    → size < 2 ^ 63
    → ((n : ℕ) → o.size_answer ≡ some (pos n) → n < 2 ^ 63)
    → c.size_answer ≡ some (pos size)
    → mmap_create o c m size raw ≡ some w
    → (h : WinHandle) × (size ≤ h.size) × (h.size < 2 ^ 64) × (map_file m size h ≡ some w)
unfolding mmap_create
mapped_file o c m size raw w small answer set e =
    let found = win_open_rw o.opened o.size_answer raw in
    let wanted = record found.0 { size = size } in
    let made = win_create_rw c.opened c.moved c.ended c.size_answer wanted in
    elim (Bool-cases (ltb_ℤ found.1 (pos 0) || ltb found.0.size size)) [
      | inl anew ↦ elim (Bool-cases (ltb_ℤ made.1 (pos 0))) [
        | inl failed ↦ absurd (ground arith)
        | inr ok ↦
            let is_size = created_size c size wanted set ok in
            (made.0, omega (arith, is_size), omega (arith, is_size), ground arith)
      ]
      | inr enough ↦ (
        found.0,
        ground arith,
        ground (arith, opened_size o.opened o.size_answer raw answer),
        ground arith,
      )
    ]

-- Where hako_mmap_create returns a map of a size below 2^63: it is of the whole file, and the file, old or
-- new, has at least this size. A file that has been set to a size has it, and sizes have 63 bits.
pub mmap_create-IsMapped :
    (o : Opening) (c : Creating) (m : Mapping) (size : ℕ) (raw : WinHandle) (w : WinMap)
    → size < 2 ^ 63
    → ((n : ℕ) → o.size_answer ≡ some (pos n) → n < 2 ^ 63)
    → c.size_answer ≡ some (pos size)
    → mmap_create o c m size raw ≡ some w
    → (w.size ≡ size) × (size ≤ w.fd.size) × IsMapped m w.fd.size
mmap_create-IsMapped o c m size raw w small answer set e =
    let (h, enough, fits, mapped) = mapped_file o c m size raw w small answer set e in
    let (a, b, k) = map_file-IsMapped m size h w fits mapped in
    (a, omega (arith, b), subst (λ n. IsMapped m n) (sym b) k)
