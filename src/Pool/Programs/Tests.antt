-- ===== src/Pool/Programs/Tests.antt =====
-- Runs of programs on the pool of HW4, and the theorems about them there.
use ntu_systems_programming.Prelude.{
  arith, ℕ, ◌+◌, ◌*◌, ◌^◌, ◌≤◌, ◌≡◌, ◌⊎◌, refl, List, [], ◌∷◌, some, ◌++◌,
}
use ntu_systems_programming.Pool.Types.{Task, add_enter, enqueue}
use ntu_systems_programming.Pool.Steps.{
  enter, take, run, finish, report, lock_add, add, lock_wait, wait, lock_destroy, destroy, leave,
  join, joined,
}
use ntu_systems_programming.Pool.Invariant.{times}
use ntu_systems_programming.Pool.Programs.{
  Statement, adds, waits, destroys, Machine, begin_main, sample_task, sample_main, bench_main,
  main_program, add_from, step, call, Runs, start, after,
}
use ntu_systems_programming.Pool.Programs.Collatz.{collatz, collatz_lem}
use ntu_systems_programming.Pool.Programs.Draining.{tasks_of, settles, all_tasks_run}
use ntu_systems_programming.Pool.Programs.Ending.{CanMove, HasEnded, none_yet, one_more}
use ntu_systems_programming.Pool.Programs.Mains.{tasks_from, mains_end}

abbrev job : Task
job = record { func = 1; arg = 7 }

abbrev short : List Statement
short = adds job ∷ waits ∷ destroys ∷ []

-- A state of a program with a run that comes to it.
record Trace (n : ℕ) (program : List Statement) : Type 0 where
  last : Machine
  run : Runs n program last

-- One worker. The task is added, taken, executed and reported.
abbrev reported : Trace 1 short
unfolding enqueue
reported = record {
  last = _;
  run =
      let added =
        after
          (after (after start (call (adds job) (waits ∷ destroys ∷ []) refl refl))
            (step (lock_add job refl refl) refl))
          (step (add job refl) refl) in
      let executed =
        after
          (after (after added (step (enter 0 (omega arith) refl refl) refl))
            (step (take 0 job [] (omega arith) refl refl refl) refl))
          (step (run 0 job (omega arith) refl) refl) in
      after (after executed (step (finish 0 (omega arith) refl refl) refl))
        (step (report 0 (omega arith) refl) refl);
}

-- `tpool_wait` returns, and `tpool_destroy` after it.
abbrev finished_main : Trace 1 short
unfolding enqueue
finished_main = record {
  last = _;
  run =
      let waited =
        after
          (after (after reported.run (call waits (destroys ∷ []) refl refl))
            (step (lock_wait refl refl) refl))
          (step (wait refl) refl) in
      let stopped =
        after
          (after (after waited (call destroys [] refl refl)) (step (lock_destroy refl refl) refl))
          (step (destroy refl) refl) in
      let left =
        after (after stopped (step (enter 0 (omega arith) refl refl) refl))
          (step (leave 0 (omega arith) refl refl) refl) in
      after (after left (step (join 0 refl (omega arith) refl) refl)) (step (joined refl) refl);
}

all_tasks_run_example :
    (finished_main.last.system.taken ≡ tasks_of short)
    × ((a : Task) → times finished_main.last.system.executed a ≡ times (tasks_of short) a)
unfolding settles enqueue
all_tasks_run_example = all_tasks_run short refl finished_main.run refl refl

-- sample/main.c, with its ten workers, after its first call has begun.
abbrev sample_begun : Machine
unfolding main_program
sample_begun = record {
  system = record (begin_main []).system { caller = add_enter (sample_task 0) };
  todo = add_from sample_task 2 1 ++ waits ∷ destroys ∷ [];
}

mains_end_example :
    (1 ≤ 3 * (2 * 10 + 12) + (5 * 10 + 8))
    × ((HasEnded sample_begun
          × (sample_begun.system.taken ≡ tasks_from sample_task 3 0)
          × ((a : Task)
              → times sample_begun.system.executed a ≡ times (tasks_from sample_task 3 0) a))
        ⊎ CanMove 10 sample_begun)
unfolding main_program
mains_end_example =
    mains_end sample_task 3 (omega arith)
      (one_more none_yet (call (adds (sample_task 0)) sample_begun.todo refl refl) refl)

-- The first argument of bench/main.c is 2 ^ 28.
collatz_lem_example : collatz 30 (2 ^ 28) 0 ≡ some 28
collatz_lem_example = collatz_lem 28 30 (2 ^ 28) 0 (omega arith) (omega arith) (omega arith)

collatz_seven : collatz 20 7 0 ≡ some 16
unfolding collatz
collatz_seven = refl

sample_calls :
    sample_main
    ≡ adds (record { func = 0; arg = 0 })
      ∷ adds (record { func = 1; arg = 1 })
      ∷ adds (record { func = 0; arg = 2 })
      ∷ waits
      ∷ destroys
      ∷ []
unfolding main_program
sample_calls = refl

bench_calls : bench_main 1 ≡ adds (record { func = 0; arg = 2 ^ 28 }) ∷ waits ∷ destroys ∷ []
unfolding main_program
bench_calls = refl
