-- ===== src/Threads/Work.antt =====
-- How many activations a thread of HW3/threads.c has left, if no handler makes it repeat one.
pub mod Moves
pub mod Switch
pub mod Turns
use ntu_systems_programming.Prelude.{
  ℕ, ◌+◌, ◌-◌, ◌<◌, ◌≡◌, ◌≢◌, refl, Bool, true, ◌&&◌, ltb, ◌==◌, arith, Bool-cases, inl, inr,
}
use ntu_systems_programming.Threads.Word.{minus_one, is_positive, add32}
use ntu_systems_programming.Threads.Types.{
  Point, fib_start, fib_next, fact_start, fact_next, bank_start, bank_locked, bank_update,
  bank_release, Tcb, Bank, System,
}
use ntu_systems_programming.Threads.Bodies.{
  Leave, exits, yields, waits, fibonacci, factorial, fibonacci_turn, factorial_turn, activate_at,
  activate,
}
use ntu_systems_programming.Threads.Queues.{ready}
use ntu_systems_programming.Threads.Totals.{total}
use ntu_systems_programming.Threads.Totals.Turns.{left_over}

abbrev pub turns_left_at : Point → Tcb → ℕ
turns_left_at fib_start t = t.arg
turns_left_at fib_next t = t.arg - t.i
turns_left_at fact_start t = t.arg
turns_left_at fact_next t = t.arg - t.i
turns_left_at bank_start t = 4
turns_left_at bank_locked t = 3
turns_left_at bank_update t = 2
turns_left_at bank_release t = 1

abbrev pub turns_left : Tcb → ℕ
turns_left t = turns_left_at t.environment t

-- The loops of `fibonacci` and `factorial` are below their ends, which are positive.
abbrev pub is_sound_at : Point → Tcb → Bool
is_sound_at fib_start t = is_positive t.arg
is_sound_at fib_next t = ltb t.i t.arg && is_positive t.arg
is_sound_at fact_start t = is_positive t.arg
is_sound_at fact_next t = ltb t.i t.arg && is_positive t.arg
is_sound_at _ t = true

abbrev pub is_sound : Tcb → Bool
is_sound t = is_sound_at t.environment t

-- What an activation of thread `t` that ends so, with the block `u`, has brought nearer.
abbrev pub Nearer : Leave → Tcb → Tcb → Type 0
Nearer exits t u = 0 < turns_left t
Nearer (yields p) t u =
    (turns_left (record u { environment = p }) < turns_left t)
    × (is_sound (record u { environment = p }) ≡ true)
Nearer waits t u = (turns_left u < turns_left t) × (is_sound u ≡ true)

fibonacci_turn-Nearer :
    (t u : Tcb) (b : Bank)
    → u.i + turns_left t ≡ u.arg + 1
    → 0 < turns_left t
    → is_positive u.arg ≡ true
    → Nearer (fibonacci_turn u b).leave t (fibonacci_turn u b).thread
unfolding fibonacci_turn
fibonacci_turn-Nearer t u b e p a = elim (Bool-cases ((fibonacci u).i == (fibonacci u).arg)) [
  | inl last ↦ rw last p
  | inr more ↦ rw more (ground arith, ground arith)
]

factorial_turn-Nearer :
    (t u : Tcb) (b : Bank)
    → u.i + turns_left t ≡ u.arg + 1
    → 0 < turns_left t
    → is_positive u.arg ≡ true
    → Nearer (factorial_turn u b).leave t (factorial_turn u b).thread
unfolding factorial_turn
factorial_turn-Nearer t u b e p a = elim (Bool-cases ((factorial u).i == (factorial u).arg)) [
  | inl last ↦ rw last p
  | inr more ↦ rw more (ground arith, ground arith)
]

activate_at-Nearer :
    (p : Point) (t : Tcb) (b : Bank)
    → t.environment ≡ p
    → is_sound_at p t ≡ true
    → Nearer (activate_at p t b).leave t (activate_at p t b).thread
unfolding activate_at
activate_at-Nearer fib_start t b e s =
    fibonacci_turn-Nearer t (record t { i = 1 }) b (ground arith) (ground arith) (ground arith)
activate_at-Nearer fib_next t b e s =
    fibonacci_turn-Nearer t (record t { i = add32 t.i 1 }) b (ground arith) (ground arith)
      (ground arith)
activate_at-Nearer fact_start t b e s =
    factorial_turn-Nearer t (record t { i = 1 }) b (ground arith) (ground arith) (ground arith)
activate_at-Nearer fact_next t b e s =
    factorial_turn-Nearer t (record t { i = add32 t.i 1 }) b (ground arith) (ground arith)
      (ground arith)
activate_at-Nearer bank_start t b e s = elim (Bool-cases (b.lock_owner == minus_one)) [
  | inl free ↦ rw free (ground arith, refl)
  | inr held ↦ rw held (ground arith, refl)
]
activate_at-Nearer bank_locked t b e s = (ground arith, refl)
activate_at-Nearer bank_update t b e s = (ground arith, refl)
activate_at-Nearer bank_release t b e s = ground arith

-- An activation takes one of the turns that a thread has left, or the thread exits.
pub activate-Nearer :
    (t : Tcb) (b : Bank) → is_sound t ≡ true → Nearer (activate t b).leave t (activate t b).thread
unfolding activate
activate-Nearer t b s = activate_at-Nearer t.environment t b refl s

-- So the thread's weight goes down, whichever way it leaves.
pub Nearer-left_over :
    (l : Leave) (t u : Tcb) → Nearer l t u → left_over turns_left l u < turns_left t
Nearer-left_over exits t u p = p
Nearer-left_over waits t u p = p.0
Nearer-left_over (yields q) t u p = p.0

-- The turns that all the threads have left; a thread that waits for the lock has three.
abbrev pub work : System → ℕ
work s = total turns_left s

abbrev pub AllSound : System → Type 0
AllSound s = (k : ℕ) → k < s.rq_size → is_sound (ready s k) ≡ true

-- The same, but for the thread at index `skip`, which is to leave the queue.
abbrev pub SoundBut : ℕ → System → Type 0
SoundBut skip s = (k : ℕ) → k < s.rq_size → k ≢ skip → is_sound (ready s k) ≡ true
