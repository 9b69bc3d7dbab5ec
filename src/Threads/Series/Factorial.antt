-- ===== src/Threads/Series/Factorial.antt =====
-- `factorial` of HW3/threads.c against the factorials.
use ntu_systems_programming.Prelude.{
  ℕ, zero, suc, ◌+◌, ◌*◌, ◌/◌, ◌%◌, ◌^◌, ◌<◌, ◌≡◌, refl, ap, [], ◌∷◌, ◌==◌, if◌then◌else◌, arith,
}
use ntu_systems_programming.Threads.Word.{add32, mul32}
use ntu_systems_programming.Threads.Types.{fact_start, fact_next, Tcb, Bank, value}
use ntu_systems_programming.Threads.Bodies.{
  Activation, exits, yields, factorial, factorial_turn, activate_at,
}
use ntu_systems_programming.Threads.Series.{turns, fact}

record IsFact (n : ℕ) (t : Tcb) (u : Tcb) : Type 0 where
  same : u.id ≡ t.id
  bound : u.arg ≡ t.arg
  round : u.i ≡ suc n
  product : u.x ≡ fact (suc n) % 2 ^ 32

div_mod : (a : ℕ) → a ≡ 2 ^ 32 * (a / 2 ^ 32) + a % 2 ^ 32
div_mod a = omega arith

-- A product of patterns is the pattern of the product.
mul32-mod : (a b : ℕ) → mul32 (a % 2 ^ 32) b ≡ a * b % 2 ^ 32
unfolding mul32
mul32-mod a b = omega (arith, ap (λ (t : ℕ). t * b) (div_mod a))

factorial-late : (u : Tcb) → 1 < u.i → factorial u ≡ record u { x = mul32 u.x u.i }
unfolding factorial
factorial-late u p = ground arith

-- One more round of the loop.
factorial_turn-IsFact :
    (n : ℕ) (t u : Tcb) (b : Bank)
    → suc (suc n) < 2 ^ 31
    → IsFact n t u
    → IsFact
        (suc n)
        t
        (factorial_turn (record u { environment = fact_next; i = add32 u.i 1 }) b).thread
unfolding factorial_turn
factorial_turn-IsFact n t u b h v =
    rw
      (factorial-late (record u { environment = fact_next; i = add32 u.i 1 })
        (omega (arith, v.round)))
      (record {
        same = v.same;
        bound = v.bound;
        round = omega (arith, v.round);
        product = rw (v.product, count, mul32-mod (fact (suc n)) (suc (suc n)));
      })
  where
    count : add32 u.i 1 ≡ suc (suc n)
    count = omega (arith, v.round)

turns-IsFact :
    (n : ℕ) (t : Tcb) (b : Bank)
    → t.environment ≡ fact_start
    → suc n < 2 ^ 31
    → IsFact n t (turns fact_next n t b).thread
unfolding turns
turns-IsFact zero t b e h =
    rw (e, activate_at) (record { same = refl; bound = refl; round = refl; product = refl })
turns-IsFact (suc n) t b e h =
    factorial_turn-IsFact n t (turns fact_next n t b).thread b h
      (turns-IsFact n t b e (omega arith))

abbrev Shape : Activation → Bank → Type 0
Shape a b =
    (a.lines ≡ value a.thread.id a.thread.x ∷ [])
    × (a.leave ≡ (if a.thread.i == a.thread.arg then exits else yields fact_next))
    × (a.bank ≡ b)

turns-Shape :
    (n : ℕ) (t : Tcb) (b : Bank) → t.environment ≡ fact_start → Shape (turns fact_next n t b) b
unfolding turns
turns-Shape zero t b e = rw (e, activate_at) (refl, refl, refl)
turns-Shape (suc n) t b e = (refl, refl, refl)

-- The turn `n + 1` of `factorial`, for `n + 1` below 2 ^ 31, prints the factorial of `n + 1` modulo
-- 2 ^ 32 and leaves the bank alone; the thread exits in it if `n + 1` is its argument, and yields
-- otherwise.
pub turns-factorial :
    (n : ℕ) (t : Tcb) (b : Bank)
    → t.environment ≡ fact_start
    → suc n < 2 ^ 31
    → ((turns fact_next n t b).lines ≡ value t.id (fact (suc n) % 2 ^ 32) ∷ [])
      × ((turns fact_next n t b).leave ≡ (if suc n == t.arg then exits else yields fact_next))
      × ((turns fact_next n t b).bank ≡ b)
turns-factorial n t b e h =
    let v = turns-IsFact n t b e h in
    let (lines, leave, bank) = turns-Shape n t b e in
    (ground (arith, v.same, v.product), ground (arith, v.round, v.bound), bank)
