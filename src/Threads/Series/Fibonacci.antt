-- ===== src/Threads/Series/Fibonacci.antt =====
-- `fibonacci` of HW3/threads.c against the Fibonacci numbers.
use ntu_systems_programming.Prelude.{
  ℕ, zero, suc, ◌%◌, ◌^◌, ◌<◌, ◌≡◌, refl, [], ◌∷◌, ◌==◌, if◌then◌else◌, arith,
}
use ntu_systems_programming.Threads.Word.{add32}
use ntu_systems_programming.Threads.Types.{fib_start, fib_next, Tcb, Bank, value}
use ntu_systems_programming.Threads.Bodies.{
  Activation, exits, yields, fibonacci, fibonacci_turn, activate_at,
}
use ntu_systems_programming.Threads.Series.{turns, fib}

-- What the activation `n` (from 0) of the thread leaves in its block.
record IsFib (n : ℕ) (t : Tcb) (u : Tcb) : Type 0 where
  same : u.id ≡ t.id
  bound : u.arg ≡ t.arg
  round : u.i ≡ suc n
  last : u.y ≡ fib (suc n) % 2 ^ 32
  before : 0 < n → u.x ≡ fib n % 2 ^ 32
  first : n ≡ 0 → u.x ≡ 1

fibonacci-late :
    (u : Tcb) → 2 < u.i → u.i < 2 ^ 31 → fibonacci u ≡ record u { x = u.y; y = add32 u.x u.y }
unfolding fibonacci
fibonacci-late u p q = ground arith

-- One more round of the loop.
fibonacci_turn-IsFib :
    (n : ℕ) (t u : Tcb) (b : Bank)
    → suc (suc n) < 2 ^ 31
    → IsFib n t u
    → IsFib
        (suc n)
        t
        (fibonacci_turn (record u { environment = fib_next; i = add32 u.i 1 }) b).thread
unfolding fibonacci_turn
fibonacci_turn-IsFib zero t u b h v = ground (arith, v.first)
fibonacci_turn-IsFib (suc n) t u b h v =
    rw
      (fibonacci-late (record u { environment = fib_next; i = add32 u.i 1 })
        (omega (arith, v.round)) (omega (arith, v.round)))
      (record {
        same = v.same;
        bound = v.bound;
        round = omega (arith, v.round);
        last = omega (arith, v.before (omega arith), v.last);
        before = λ _. v.last;
        first = λ e. absurd (omega arith);
      })

turns-IsFib :
    (n : ℕ) (t : Tcb) (b : Bank)
    → t.environment ≡ fib_start
    → suc n < 2 ^ 31
    → IsFib n t (turns fib_next n t b).thread
unfolding turns
turns-IsFib zero t b e h =
    rw (e, activate_at)
      (record {
        same = refl;
        bound = refl;
        round = refl;
        last = refl;
        before = λ p. absurd (omega arith);
        first = λ p. refl;
      })
turns-IsFib (suc n) t b e h =
    fibonacci_turn-IsFib n t (turns fib_next n t b).thread b h (turns-IsFib n t b e (omega arith))

-- What a turn prints, and how it ends, from what it leaves in the thread's block.
abbrev Shape : Activation → Bank → Type 0
Shape a b =
    (a.lines ≡ value a.thread.id a.thread.y ∷ [])
    × (a.leave ≡ (if a.thread.i == a.thread.arg then exits else yields fib_next))
    × (a.bank ≡ b)

turns-Shape :
    (n : ℕ) (t : Tcb) (b : Bank) → t.environment ≡ fib_start → Shape (turns fib_next n t b) b
unfolding turns
turns-Shape zero t b e = rw (e, activate_at) (refl, refl, refl)
turns-Shape (suc n) t b e = (refl, refl, refl)

-- The turn `n + 1` of `fibonacci`, for `n + 1` below 2 ^ 31, prints the Fibonacci number `n + 1`
-- modulo 2 ^ 32 and leaves the bank alone; the thread exits in it if `n + 1` is its argument, and
-- yields otherwise.
pub turns-fibonacci :
    (n : ℕ) (t : Tcb) (b : Bank)
    → t.environment ≡ fib_start
    → suc n < 2 ^ 31
    → ((turns fib_next n t b).lines ≡ value t.id (fib (suc n) % 2 ^ 32) ∷ [])
      × ((turns fib_next n t b).leave ≡ (if suc n == t.arg then exits else yields fib_next))
      × ((turns fib_next n t b).bank ≡ b)
turns-fibonacci n t b e h =
    let v = turns-IsFib n t b e h in
    let (lines, leave, bank) = turns-Shape n t b e in
    (ground (arith, v.same, v.last), ground (arith, v.round, v.bound), bank)
