-- ===== src/Identity/Line.antt =====
-- The line of /proc/<pid>/stat as the kernel documents it: the number of the process, its name in
-- parentheses, and the fields from the state on, each after a space.
use hakoniwa_core_cpp.Prelude.{
  ℕ, zero, suc, ◌+◌, ◌/◌, ◌%◌, ltb, if◌then◌else◌, false, List, [], ◌∷◌, ◌++◌, All, ◌≡◌, ◌≢◌,
}
use hakoniwa_core_cpp.Identity.Stat.{is_space}

abbrev pub spaced : List (List ℕ) → List ℕ
spaced [] = []
spaced (w ∷ ws) = 32 ∷ (w ++ spaced ws)

-- The decimal digits of a number, of which there are no more than `k`, before other text.
unfoldable pub decimal : ℕ → ℕ → List ℕ → List ℕ
decimal zero n text = text
decimal (suc k) n text =
    let more = decimal k (n / 10) ((b'0' + n % 10) ∷ text) in
    if ltb n 10 then (b'0' + n) ∷ text else more

-- A number of 64 bits has no more than 20 digits.
abbrev pub start_time : ℕ → List ℕ
start_time n = decimal 20 n []

-- `name` is all before the last parenthesis, the name of the process included.
abbrev pub stat_line : List ℕ → ℕ → List (List ℕ) → ℕ → List (List ℕ) → List ℕ
stat_line name state fields token rest =
    name ++ (b')' ∷ spaced ((state ∷ []) ∷ (fields ++ (start_time token ∷ rest))))

abbrev pub IsPlain : ℕ → Type 0
IsPlain c = (is_space c ≡ false) × (c ≢ b')')

-- A field behind the name: no white space in it, and no parenthesis.
abbrev pub IsField : List ℕ → Type 0
IsField [] = ⊥
IsField (c ∷ cs) = IsPlain c × All IsPlain cs
