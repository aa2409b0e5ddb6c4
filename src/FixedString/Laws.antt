-- ===== src/FixedString/Laws.antt =====
-- A name that is stored is read back, and a stored name matches exactly the names that are equal to
-- it, as long as no name holds a zero byte (hako_string.cpp).
use hakoniwa_core_cpp.Prelude.{
  ℕ, zero, suc, ◌≤◌, true, ==_iff, List, [], ◌∷◌, ◌++◌, length, take, drop, ◌≡◌, ◌≢◌, ◌↔◌, refl, ap,
  arith, All, take-append_length, length-take, ◌∙◌, sym, length-append,
}
use mathlib.Core.List.{append_assoc}
use hakoniwa_core_cpp.FixedString.{
  FixedString, string_to_fixed, fixed_to_string, strncmp_eq, matches,
}

-- A name that has been stored, over any earlier content of the buffer, is read back.
pub fixed_to_string-string_to_fixed :
    (name : List ℕ) (dst : FixedString) → fixed_to_string (string_to_fixed name dst) ≡ name
unfolding fixed_to_string string_to_fixed
fixed_to_string-string_to_fixed name dst = take-append_length name _

-- No zero byte.
abbrev pub HasNoZero : List ℕ → Type 0
HasNoZero = All (λ c. c ≢ 0)

strncmp_eq_refl : (n : ℕ) (a b : List ℕ) → take n a ≡ b → length b ≡ n → strncmp_eq n a b ≡ true
unfolding strncmp_eq
strncmp_eq_refl zero a b e l = refl
strncmp_eq_refl (suc n) [] b e l = absurd (omega (arith, ap length e))
strncmp_eq_refl (suc n) (x ∷ xs) [] e l = cc
strncmp_eq_refl (suc n) (x ∷ xs) (y ∷ ys) e l = ground (arith, strncmp_eq_refl n xs ys)

strncmp_eq_sound :
    (n : ℕ) (a b : List ℕ) → HasNoZero b → length b ≡ n → strncmp_eq n a b ≡ true → take n a ≡ b
unfolding strncmp_eq
strncmp_eq_sound zero a [] nz l h = refl
strncmp_eq_sound zero a (y ∷ ys) nz l h = absurd (omega arith)
strncmp_eq_sound (suc n) a [] nz l h = absurd (omega arith)
strncmp_eq_sound (suc n) [] (y ∷ ys) nz l h = absurd (nz.0 ((==_iff y 0).0 h))
strncmp_eq_sound (suc n) (x ∷ xs) (y ∷ ys) nz l h = ground (arith, strncmp_eq_sound n xs ys)

-- A name whose length lies inside its buffer matches a text with no zero byte exactly if it is that text.
pub matches_iff :
    (f : FixedString) (name : List ℕ)
    → f.len ≤ length f.chars
    → HasNoZero name
    → (matches f name ≡ true) ↔ (fixed_to_string f ≡ name)
unfolding matches fixed_to_string
matches_iff f name room nz = (
  λ h. strncmp_eq_sound f.len f.chars name nz (ground arith) (ground arith),
  λ e.
      let l : length name ≡ f.len = ap length (sym e) ∙ length-take f.len f.chars room in
      ground (arith, strncmp_eq_refl f.len f.chars name e l),
)

strncmp_eq-zero : (n : ℕ) (pre xs ys : List ℕ) → strncmp_eq n (pre ++ 0 ∷ xs) (pre ++ 0 ∷ ys) ≡ true
unfolding strncmp_eq
strncmp_eq-zero zero pre xs ys = refl
strncmp_eq-zero (suc n) [] xs ys = refl
strncmp_eq-zero (suc n) (x ∷ pre) xs ys = ground (arith, strncmp_eq-zero n pre xs ys)

-- A name with a zero byte matches any other of the same length that begins alike up to this byte: the
-- comparison stops there.
pub zero_byte_matches :
    (pre xs ys : List ℕ) (dst : FixedString)
    → length xs ≡ length ys
    → matches (string_to_fixed (pre ++ 0 ∷ xs) dst) (pre ++ 0 ∷ ys) ≡ true
unfolding matches string_to_fixed
zero_byte_matches pre xs ys dst l = rw (append_assoc) (
    ground (
      arith,
      strncmp_eq-zero (length (pre ++ 0 ∷ xs)) pre
          (xs ++ 0 ∷ drop (suc (length (pre ++ 0 ∷ xs))) dst.chars) ys,
      length-append pre (0 ∷ xs),
      length-append pre (0 ∷ ys),
    ))
