-- ===== src/Threads/Bodies.antt =====
-- The thread functions of HW3/threads.c, one activation at a time: from a point where the scheduler
-- resumes the thread to its next `sleep`, or to the `longjmp` of `lock`.
use ntu_systems_programming.Prelude.{ℕ, ◌&&◌, List, [], ◌∷◌, ◌==◌, if◌then◌else◌}
use ntu_systems_programming.Threads.Word.{
  minus_one, add32, sub32, mul32, is_negative, is_positive, int_le, abs32,
}
use ntu_systems_programming.Threads.Types.{
  Point, fib_start, fib_next, fact_start, fact_next, bank_start, bank_locked, bank_update,
  bank_release, Tcb, Bank, Line, value, acquired, balances, released,
}

-- What follows the `sleep`: `thread_exit`, or `thread_yield` with the point that it saves. A thread
-- that `waits` has left by `longjmp(sched_buf, 2)`, with no sleep.
pub data Leave : Type 0 where
  exits : Leave
  yields : Point → Leave
  waits : Leave

pub record Activation : Type 0 where
  pub thread : Tcb
  pub bank : Bank
  pub lines : List Line
  pub leave : Leave

-- The body of the loop of `fibonacci`, up to `sleep(1)`.
unfoldable pub fibonacci : Tcb → Tcb
fibonacci t =
    if int_le t.i 2 then record t { x = 1; y = 1 } else record t { x = t.y; y = add32 t.x t.y }

-- The body of the loop of `factorial`.
unfoldable pub factorial : Tcb → Tcb
factorial t = if t.i == 1 then record t { x = 1 } else record t { x = mul32 t.x t.i }

-- The end of both loops.
unfoldable pub loop_end : Tcb → Point → Leave
loop_end t next = if t.i == t.arg then exits else yields next

-- The macro `lock`, reached with no owner; it fails into the scheduler.
unfoldable pub lock : Tcb → Bank → Activation
lock t b =
    if b.lock_owner == minus_one
    then record {
      thread = t;
      bank = record b { lock_owner = t.id };
      lines = acquired t.id ∷ [];
      leave = yields bank_update;
    }
    else record {
      thread = record t { environment = bank_locked };
      bank = b;
      lines = [];
      leave = waits;
    }

-- Step 2 of `bank_operation`.
unfoldable pub new_balance : ℕ → ℕ → ℕ
new_balance balance arg =
    if is_positive arg
    then add32 balance arg
    else if is_negative arg && int_le (abs32 arg) balance
    then sub32 balance (abs32 arg)
    else balance

-- The macro `unlock`.
unfoldable pub unlock : Tcb → Bank → Bank
unlock t b = if b.lock_owner == t.id then record b { lock_owner = minus_one } else b

unfoldable pub fibonacci_turn : Tcb → Bank → Activation
unfolding fibonacci loop_end
fibonacci_turn t b =
    let u = fibonacci t in
    record { thread = u; bank = b; lines = value u.id u.y ∷ []; leave = loop_end u fib_next }

unfoldable pub factorial_turn : Tcb → Bank → Activation
unfolding factorial loop_end
factorial_turn t b =
    let u = factorial t in
    record { thread = u; bank = b; lines = value u.id u.x ∷ []; leave = loop_end u fact_next }

unfoldable pub bank_update_turn : Tcb → Bank → Activation
unfolding new_balance
bank_update_turn t b =
    let after = new_balance b.balance t.arg in
    record {
      thread = t;
      bank = record b { balance = after };
      lines = balances t.id b.balance after ∷ [];
      leave = yields bank_release;
    }

unfoldable pub bank_release_turn : Tcb → Bank → Activation
unfolding unlock
bank_release_turn t b =
    let c = unlock t b in
    record {
      thread = t;
      bank = c;
      lines = if c.lock_owner == minus_one then released t.id ∷ [] else [];
      leave = exits;
    }

-- One activation of a thread, from the point that it is resumed at.
unfoldable pub activate_at : Point → Tcb → Bank → Activation
unfolding fibonacci_turn factorial_turn lock bank_update_turn bank_release_turn
activate_at fib_start t b = fibonacci_turn (record t { i = 1 }) b
activate_at fib_next t b = fibonacci_turn (record t { i = add32 t.i 1 }) b
activate_at fact_start t b = factorial_turn (record t { i = 1 }) b
activate_at fact_next t b = factorial_turn (record t { i = add32 t.i 1 }) b
activate_at bank_start t b = lock t b
activate_at bank_locked t b = record {
  thread = t;
  bank = b;
  lines = acquired t.id ∷ [];
  leave = yields bank_update;
}
activate_at bank_update t b = bank_update_turn t b
activate_at bank_release t b = bank_release_turn t b

unfoldable pub activate : Tcb → Bank → Activation
unfolding activate_at
activate t b = activate_at t.environment t b
