-- ===== src/Identity/Stat.antt =====
-- hako_process_identity.cpp: `process_start_token` on Linux, which reads the process state (field 3)
-- and the start time (field 22) out of /proc/<pid>/stat. Texts are lists of bytes.
use hakoniwa_core_cpp.Prelude.{
  ℕ, zero, suc, ◌+◌, ◌-◌, ◌*◌, ◌^◌, ◌%◌, ℤ, pos, leb_ℤ, Bool, ◌&&◌, ◌||◌, ◌==◌, ltb, leb,
  if◌then◌else◌, Option, none, some, List, [], ◌∷◌,
}

-- `line.substr(line.rfind(c) + 1)`, or `none` if `c` does not occur.
unfoldable pub after_last : ℕ → List ℕ → Option (List ℕ)
after_last c [] = none
after_last c (x ∷ xs) = elim (after_last c xs) [
  | some rest ↦ some rest
  | none ↦ if x == c then some xs else none
]

-- What `>>` skips: space, and the bytes from \t to \r.
abbrev pub is_space : ℕ → Bool
is_space c = (c == 32) || (leb 9 c && leb c 13)

-- The rest of a word up to white space, and what follows it.
unfoldable pub take_word : List ℕ → List ℕ × List ℕ
take_word [] = ([], [])
take_word (x ∷ xs) =
    let rest = take_word xs in if is_space x then ([], x ∷ xs) else (x ∷ rest.0, rest.1)

-- `fields >> value`: skips white space, reads a word, and fails at the end of the text.
unfoldable pub next_word : List ℕ → Option (List ℕ × List ℕ)
unfolding take_word
next_word [] = none
next_word (x ∷ xs) =
    let skipped = next_word xs in if is_space x then skipped else some (take_word (x ∷ xs))

-- The loop over the fields: `n` more words, of which the last is returned.
unfoldable pub nth_word : ℕ → List ℕ → Option (List ℕ)
unfolding next_word
nth_word zero s = none
nth_word (suc zero) s = elim (next_word s) [ none ↦ none | some (w, rest) ↦ some w ]
nth_word (suc (suc n)) s = elim (next_word s) [
  | none ↦ none
  | some (w, rest) ↦ nth_word (suc n) rest
]

abbrev pub is_digit : ℕ → Bool
is_digit c = leb b'0' c && leb c b'9'

-- The digits at the front of a word, as a number.
unfoldable pub digits_from : ℕ → List ℕ → ℕ
digits_from acc [] = acc
digits_from acc (c ∷ cs) =
    let rest = digits_from (10 * acc + (c - b'0')) cs in if is_digit c then rest else acc

abbrev pub in_u64 : ℕ → Option ℕ
in_u64 n = if ltb n (2 ^ 64) then some n else none

unfoldable pub unsigned_digits : List ℕ → Option ℕ
unfolding digits_from
unsigned_digits [] = none
unsigned_digits (c ∷ cs) = if is_digit c then in_u64 (digits_from 0 (c ∷ cs)) else none

-- `std::stoull` in base 10 on a word with no white space: an optional sign and the digits after it.
-- A minus sign negates modulo 2^64. `none` stands for both exceptions.
unfoldable pub stoull : List ℕ → Option ℕ
unfolding unsigned_digits
stoull [] = none
stoull (c ∷ cs) =
    if c == b'+'
    then unsigned_digits cs
    else if c == b'-'
    then elim (unsigned_digits cs) [ none ↦ none | some n ↦ some ((2 ^ 64 - n) % 2 ^ 64) ]
    else unsigned_digits (c ∷ cs)

-- A state of one letter; Z, X and x are those of a process that has ended.
unfoldable pub read_state : List ℕ → Option Bool
read_state [] = none
read_state (c ∷ []) = some ((c == b'Z') || ((c == b'X') || (c == b'x')))
read_state (c ∷ d ∷ cs) = none

unfoldable pub parse_fields : List ℕ → Option (ℕ × Bool)
unfolding next_word read_state nth_word stoull
parse_fields s = elim (next_word s) [
  | none ↦ none
  | some (state, rest) ↦ elim (read_state state) [
    | none ↦ none
    | some terminated ↦ elim (nth_word 19 rest) [
      | none ↦ none
      | some value ↦ elim (stoull value) [ none ↦ none | some token ↦ some (token, terminated) ]
    ]
  ]
]

-- The text from two bytes after the last `)` on; at least one byte has to stand there.
unfoldable pub parse_stat : List ℕ → Option (ℕ × Bool)
unfolding after_last parse_fields
parse_stat line = elim (after_last b')' line) [
  | none ↦ none
  | some [] ↦ none
  | some (x ∷ []) ↦ none
  | some (x ∷ y ∷ s) ↦ parse_fields (y ∷ s)
]

-- The first line of /proc/<pid>/stat is an argument; `none` if it cannot be read.
unfoldable pub process_start_token : ℤ → Option (List ℕ) → Option (ℕ × Bool)
unfolding parse_stat
process_start_token pid line =
    if leb_ℤ pid (pos 0) then none else elim line [ none ↦ none | some text ↦ parse_stat text ]
