-- ===== src/Threads/Word.antt =====
-- The `int` of HW3: a 32-bit pattern, the negative numbers from 2 ^ 31 on. What C leaves undefined
-- on overflow wraps, as the machine's instructions do.
use ntu_systems_programming.Prelude.{
  ℕ, ◌+◌, ◌-◌, ◌*◌, ◌%◌, ◌^◌, Bool, ◌&&◌, ltb, leb, if◌then◌else◌,
}

abbrev pub int_mod : ℕ
int_mod = 2 ^ 32

-- -1
abbrev pub minus_one : ℕ
minus_one = 2 ^ 32 - 1

abbrev pub add32 : ℕ → ℕ → ℕ
add32 a b = (a + b) % 2 ^ 32

abbrev pub sub32 : ℕ → ℕ → ℕ
sub32 a b = (a + 2 ^ 32 - b) % 2 ^ 32

unfoldable pub mul32 : ℕ → ℕ → ℕ
mul32 a b = a * b % 2 ^ 32

abbrev pub is_negative : ℕ → Bool
is_negative w = leb (2 ^ 31) w

abbrev pub is_positive : ℕ → Bool
is_positive w = ltb 0 w && ltb w (2 ^ 31)

-- `a <= b` on signed patterns: shifted by 2 ^ 31 they are in order.
abbrev pub int_le : ℕ → ℕ → Bool
int_le a b = leb ((a + 2 ^ 31) % 2 ^ 32) ((b + 2 ^ 31) % 2 ^ 32)

-- `abs` of <stdlib.h>; the pattern of INT_MIN stays.
abbrev pub abs32 : ℕ → ℕ
abs32 w = if is_negative w then (2 ^ 32 - w) % 2 ^ 32 else w
