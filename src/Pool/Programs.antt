-- ===== src/Pool/Programs.antt =====
-- Programs that use the pool of HW4: `main` of HW4/testcases/sample/main.c and of bench/main.c. The
-- statements of `main` run in the client thread, in order, while the workers go on.
pub mod Collatz
pub mod Draining
pub mod Budget
pub mod Ending
pub mod Mains
mod Tests
use ntu_systems_programming.Prelude.{
  ℕ, zero, suc, ◌+◌, ◌^◌, ◌≡◌, Bool, true, false, List, [], ◌∷◌, ◌++◌, ◌==◌, if◌then◌else◌,
}
use ntu_systems_programming.Pool.Types.{
  Task, ClientPc, between, add_enter, wait_enter, destroy_enter, System, tpool_init,
}
use ntu_systems_programming.Pool.Steps.{Step, call_add, call_wait, call_destroy, client_at}

-- A call of the pool in a program.
pub data Statement : Type 0 where
  adds : Task → Statement
  waits destroys : Statement

abbrev pub entered : Statement → ClientPc
entered (adds task) = add_enter task
entered waits = wait_enter
entered destroys = destroy_enter

-- `for (int i = 0; i < M; i++) tpool_add(pool, …, (void *)&arg[i])`, by the rounds left.
unfoldable pub add_from : (ℕ → Task) → ℕ → ℕ → List Statement
add_from task zero i = []
add_from task (suc m) i = adds (task i) ∷ add_from task m (i + 1)

-- The calls of `main`: the loop, `tpool_wait` and `tpool_destroy`.
unfoldable pub main_program : (ℕ → Task) → ℕ → List Statement
unfolding add_from
main_program task m = add_from task m 0 ++ waits ∷ destroys ∷ []

-- sample/main.c: `funcs` is `func0`, `func1`, `func0`, and `arg[i]` is `i`. A task's `arg` is the number
-- that it points to.
abbrev pub sample_task : ℕ → Task
sample_task i = record { func = if i == 1 then 1 else 0; arg = i }

abbrev pub sample_main : List Statement
unfolding main_program
sample_main = main_program sample_task 3

-- bench/main.c: every task is `Collatz`, here function 0, and `M` is 0x800000.
abbrev pub bench_task : ℕ → Task
bench_task i = record { func = 0; arg = 2 ^ 28 + i }

abbrev pub bench_main : ℕ → List Statement
unfolding main_program
bench_main m = main_program bench_task m

-- A pool, and the statements that its client has not reached.
pub record Machine : Type 0 where
  pub system : System
  pub todo : List Statement

abbrev pub begin_main : List Statement → Machine
begin_main program = record { system = tpool_init; todo = program }

-- The calls come from the program.
abbrev pub is_call : {n : ℕ} {s t : System} → Step n s t → Bool
is_call (call_add _ _) = true
is_call (call_wait _) = true
is_call (call_destroy _) = true
is_call _ = false

-- One step of the threads, or the next statement.
pub data Move (n : ℕ) (m : Machine) : Machine → Type 0 where
  step :
      {t : System} (st : Step n m.system t)
      → is_call st ≡ false
      → Move n m (record m { system = t })
  call :
      (c : Statement) (rest : List Statement)
      → m.system.caller ≡ between
      → m.todo ≡ c ∷ rest
      → Move n m (record { system = client_at (entered c) m.system; todo = rest })

pub data Runs (n : ℕ) (program : List Statement) : Machine → Type 0 where
  start : Runs n program (begin_main program)
  after : {m k : Machine} → Runs n program m → Move n m k → Runs n program k
