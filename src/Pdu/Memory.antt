-- ===== src/Pdu/Memory.antt =====
-- Copies into the area and out of it: what was written is read, and all else stays.
use hakoniwa_core_cpp.Prelude.{
  ℕ, zero, suc, ◌+◌, ◌-◌, ◌≤◌, List, [], ◌∷◌, ◌++◌, length, take, drop, some, ◌≡◌, refl, ap, sym,
  ◌∙◌, arith, ◌⊎◌, inl, inr, length-append, length-take, take-append_length,
}
use hakoniwa_core_cpp.Pdu.Types.{mem_write, mem_read}

module _ {ℓ} {A : Type ℓ} where
  drop-append_length : (k : ℕ) (xs ys : List A) → drop (length xs + k) (xs ++ ys) ≡ drop k ys
  drop-append_length k [] ys = let e : 0 + k ≡ k = omega arith in rw e refl
  drop-append_length k (x ∷ xs) ys =
      let e : suc (length xs) + k ≡ suc (length xs + k) = omega arith in
      rw e (drop-append_length k xs ys)

  drop-drop : (k m : ℕ) (xs : List A) → drop k (drop m xs) ≡ drop (m + k) xs
  drop-drop k zero xs = let e : 0 + k ≡ k = omega arith in rw e refl
  drop-drop zero (suc m) [] = let e : suc m + 0 ≡ suc m = omega arith in rw e refl
  drop-drop (suc k) (suc m) [] = let e : suc m + suc k ≡ suc (m + suc k) = omega arith in rw e refl
  drop-drop k (suc m) (x ∷ xs) =
      let e : suc m + k ≡ suc (m + k) = omega arith in rw e (drop-drop k m xs)

  take-take_append :
      (len off : ℕ) (xs ys : List A)
      → len ≤ off
      → off ≤ length xs
      → take len (take off xs ++ ys) ≡ take len xs
  take-take_append zero off xs ys h k = refl
  take-take_append (suc len) zero xs ys h k = absurd (omega arith)
  take-take_append (suc len) (suc off) [] ys h k = absurd (omega arith)
  take-take_append (suc len) (suc off) (x ∷ xs) ys h k =
      ap (◌∷◌ x) (take-take_append len off xs ys (omega arith) (omega arith))

  read_before :
      (o len off : ℕ) (xs ys : List A)
      → o + len ≤ off
      → off ≤ length xs
      → take len (drop o (take off xs ++ ys)) ≡ take len (drop o xs)
  read_before zero len off xs ys h k = take-take_append len off xs ys (omega arith) k
  read_before (suc o) len zero xs ys h k = absurd (omega arith)
  read_before (suc o) len (suc off) [] ys h k = absurd (omega arith)
  read_before (suc o) len (suc off) (x ∷ xs) ys h k =
      read_before o len off xs ys (omega arith) (omega arith)

-- A write succeeds exactly where it fits.
mem_write-some :
    (off : ℕ) (bs area out : List ℕ)
    → mem_write off bs area ≡ some out
    → (off + length bs ≤ length area) × (out ≡ take off area ++ (bs ++ drop (off + length bs) area))
unfolding mem_write
mem_write-some off bs area out e = (ground arith, ground arith)

pub mem_write-fits :
    (off : ℕ) (bs area : List ℕ)
    → off + length bs ≤ length area
    → (out : List ℕ) × (mem_write off bs area ≡ some out) × (length out ≡ length area)
unfolding mem_write
mem_write-fits off bs area h = (
  take off area ++ (bs ++ drop (off + length bs) area),
  ground arith,
  omega (
    arith,
    length-append (take off area) (bs ++ drop (off + length bs) area),
    length-append bs (drop (off + length bs) area),
    length-take off area (omega arith),
    length_drop (off + length bs) area,
  ),
)
  where
    length_drop : (n : ℕ) (xs : List ℕ) → length (drop n xs) ≡ length xs - n
    length_drop zero xs = omega arith
    length_drop (suc n) [] = omega arith
    length_drop (suc n) (x ∷ xs) = omega (arith, length_drop n xs)

-- What was written is read back.
pub read-write_self :
    (off : ℕ) (bs area out : List ℕ)
    → mem_write off bs area ≡ some out
    → length out ≡ length area
    → mem_read off (length bs) out ≡ some bs
unfolding mem_read
read-write_self off bs area out e l =
    let (fits, is_out) = mem_write-some off bs area out e in
    let first : length (take off area) ≡ off = length-take off area (omega arith) in
    let rest = drop (off + length bs) area in
    let at : drop off out ≡ bs ++ rest = rw is_out (
      ap (λ n. drop n (take off area ++ (bs ++ rest))) (sym first ∙ omega arith)
      ∙ drop-append_length 0 (take off area) (bs ++ rest)) in
    rw at (ground (arith, take-append_length bs rest))

-- Bytes outside of the written region stay.
pub read-write_other :
    (off o len : ℕ) (bs area out : List ℕ)
    → mem_write off bs area ≡ some out
    → length out ≡ length area
    → (o + len ≤ off) ⊎ (off + length bs ≤ o)
    → mem_read o len out ≡ mem_read o len area
unfolding mem_read
read-write_other off o len bs area out e l (inl before) =
    let (fits, is_out) = mem_write-some off bs area out e in
    let same : take len (drop o out) ≡ take len (drop o area) =
      rw is_out
        (read_before o len off area (bs ++ drop (off + length bs) area) before (omega arith)) in
    ground (arith, same)
read-write_other off o len bs area out e l (inr after) =
    let (fits, is_out) = mem_write-some off bs area out e in
    let k : ℕ = o - (off + length bs) in
    let rest = drop (off + length bs) area in
    let first : length (take off area) ≡ off = length-take off area (omega arith) in
    let at : o ≡ length (take off area) + (length bs + k) = omega arith in
    let there : (off + length bs) + k ≡ o = omega arith in
    let same : drop o out ≡ drop o area =
      ap (λ n. drop n out) at
      ∙ ap (drop (length (take off area) + (length bs + k))) is_out
      ∙ drop-append_length (length bs + k) (take off area) (bs ++ rest)
      ∙ drop-append_length k bs rest
      ∙ drop-drop k (off + length bs) area
      ∙ ap (λ n. drop n area) there in
    ground (arith, same)
