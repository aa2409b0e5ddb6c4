-- ===== src/FixedString.antt =====
-- src/hako/utils/hako_string.{hpp,cpp} and `HakoFixedStringType` of src/include/types/hako_types.hpp:
-- names of at most 256 bytes in shared memory. A text is the list of its bytes.
pub mod Laws
use hakoniwa_core_cpp.Prelude.{
  ℕ, zero, suc, Bool, true, false, ◌&&◌, ◌==◌, if◌then◌else◌, List, [], ◌∷◌, ◌++◌, length, take,
  drop,
}

abbrev pub fixed_strlen_max : ℕ
fixed_strlen_max = 256

pub record FixedString : Type 0 where
  pub len : ℕ
  pub chars : List ℕ

-- The bytes of the name, a zero byte, and the rest of what the buffer held.
unfoldable pub string_to_fixed : List ℕ → FixedString → FixedString
string_to_fixed src dst = record {
  len = length src;
  chars = src ++ 0 ∷ drop (suc (length src)) dst.chars;
}

unfoldable pub fixed_to_string : FixedString → List ℕ
fixed_to_string f = take f.len f.chars

-- `strncmp(a, b, n) == 0`: at most `n` bytes are compared, and none behind a zero byte. A text
-- ends in a zero byte.
unfoldable pub strncmp_eq : ℕ → List ℕ → List ℕ → Bool
strncmp_eq zero a b = true
strncmp_eq (suc n) [] [] = true
strncmp_eq (suc n) [] (y ∷ ys) = y == 0
strncmp_eq (suc n) (x ∷ xs) [] = x == 0
strncmp_eq (suc n) (x ∷ xs) (y ∷ ys) =
    let rest = strncmp_eq n xs ys in if x == y then (if x == 0 then true else rest) else false

-- The two tests by which names are compared: the lengths, and the bytes.
unfoldable pub matches : FixedString → List ℕ → Bool
unfolding strncmp_eq
matches f name = (f.len == length name) && strncmp_eq f.len f.chars name
