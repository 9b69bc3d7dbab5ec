-- ===== src/Threads/Series.antt =====
-- The two sequences that HW3/threads.c prints, and a thread's activations one after another.
pub mod Fibonacci
pub mod Factorial
use ntu_systems_programming.Prelude.{ℕ, zero, suc, ◌+◌, ◌*◌}
use ntu_systems_programming.Threads.Types.{Point, Tcb, Bank}
use ntu_systems_programming.Threads.Bodies.{Activation, activate}

-- Each activation begins at the point that the last one saved.
unfoldable pub turns : Point → ℕ → Tcb → Bank → Activation
unfolding activate
turns next zero t b = activate t b
turns next (suc n) t b = activate (record (turns next n t b).thread { environment = next }) b

abbrev pub fib : ℕ → ℕ
fib zero = 0
fib (suc zero) = 1
fib (suc (suc n)) = fib n + fib (suc n)

abbrev pub fact : ℕ → ℕ
fact zero = 1
fact (suc n) = fact n * suc n
