-- ===== src/Prelude/Text.antt =====
-- C strings and raw memory. A string is its bytes before the NUL.
use ntu_systems_programming.Prelude.{
  ℕ, zero, suc, ◌+◌, Bool, true, false, List, [], ◌∷◌, ◌&&◌, ◌==◌, if◌then◌else◌,
}

abbrev pub Bytes : Type 0
Bytes = List ℕ

-- Memory from some address on, by offset.
abbrev pub Memory : Type 0
Memory = ℕ → ℕ

abbrev pub newline : ℕ
newline = 10

abbrev pub star : ℕ
star = 42

-- The string at an offset; `fuel` bounds the bytes that are read.
unfoldable pub string_at : ℕ → Memory → ℕ → Bytes
string_at zero m a = []
string_at (suc fuel) m a =
    let rest = string_at fuel m (a + 1) in if m a == 0 then [] else m a ∷ rest

-- `strcmp(a, b) == 0`
abbrev pub str_eq : Bytes → Bytes → Bool
str_eq [] [] = true
str_eq [] (_ ∷ _) = false
str_eq (_ ∷ _) [] = false
str_eq (a ∷ xs) (b ∷ ys) = a == b && str_eq xs ys
