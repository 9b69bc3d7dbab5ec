-- ===== src/Pool/Programs/Collatz.antt =====
-- The task of HW4/testcases/bench/main.c. A `long long` is a 64-bit pattern, the negative numbers from
-- 2 ^ 63 on; what C leaves undefined on overflow wraps.
use ntu_systems_programming.Prelude.{
  arith, ℕ, zero, suc, ◌+◌, ◌-◌, ◌*◌, ◌/◌, ◌%◌, ◌^◌, ◌<◌, ◌≡◌, ◌≢◌, Option, none, some, ltb, ◌==◌,
  if◌then◌else◌,
}

-- `x /= 2`, which rounds towards 0.
unfoldable pub halve : ℕ → ℕ
halve x = if ltb x (2 ^ 63) then x / 2 else (2 ^ 64 - (2 ^ 64 - x) / 2) % 2 ^ 64

-- The body of the loop.
unfoldable pub collatz_step : ℕ → ℕ
unfolding halve
collatz_step x = if x % 2 == 1 then (x * 3 + 1) % 2 ^ 64 else halve x

-- `while (x != 1)`, with `fuel` rounds; `none` if they are not enough, and the count if they are.
unfoldable pub collatz : ℕ → ℕ → ℕ → Option ℕ
unfolding collatz_step
collatz zero x cnt = none
collatz (suc fuel) x cnt =
    let rest = collatz fuel (collatz_step x) ((cnt + 1) % 2 ^ 64) in
    if x == 1 then some cnt else rest

-- The map on the numbers.
abbrev pub collatz_map : ℕ → ℕ
collatz_map x = if x % 2 == 0 then x / 2 else 3 * x + 1

-- The numbers from `x` on come to 1 after `k` rounds, not before, and are below 2 ^ 63.
abbrev pub ComesToOne : ℕ → ℕ → Type 0
ComesToOne zero x = x ≡ 1
ComesToOne (suc k) x = (x ≢ 1) × (x < 2 ^ 63) × ComesToOne k (collatz_map x)

small : (k x : ℕ) → ComesToOne k x → x < 2 ^ 63
small zero x h = omega arith
small (suc k) x h = h.1

collatz_step-map : (x : ℕ) → x < 2 ^ 63 → collatz_map x < 2 ^ 63 → collatz_step x ≡ collatz_map x
unfolding collatz_step
collatz_step-map x h g = ground arith

-- If the numbers from the argument on come to 1, and stay below 2 ^ 63 until then, the loop ends after
-- as many rounds as they take, and its count is that many more than before.
pub collatz_lem :
    (k fuel x cnt : ℕ)
    → ComesToOne k x
    → k < fuel
    → cnt + k < 2 ^ 63
    → collatz fuel x cnt ≡ some (cnt + k)
unfolding collatz
collatz_lem k zero x cnt h f c = absurd (omega arith)
collatz_lem zero (suc fuel) x cnt h f c = ground arith
collatz_lem (suc k) (suc fuel) x cnt (n, s, h) f c = ground (
  arith,
  collatz_step-map x s (small k (collatz_map x) h),
  collatz_lem k fuel (collatz_map x) (cnt + 1) h,
)
