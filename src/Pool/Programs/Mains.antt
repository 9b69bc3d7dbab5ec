-- ===== src/Pool/Programs/Mains.antt =====
-- `main` of HW4/testcases/sample/main.c and of bench/main.c, from their first call to their last.
use ntu_systems_programming.Prelude.{
  arith, ℕ, zero, suc, ◌+◌, ◌*◌, ◌<◌, ◌≤◌, ◌≡◌, ◌⊎◌, inl, inr, refl, ap, ◌∙◌, true, List, [], ◌∷◌,
  ◌++◌, sum_range-none, sum_range-le,
}
use ntu_systems_programming.Pool.Types.{Task}
use ntu_systems_programming.Pool.Invariant.{times}
use ntu_systems_programming.Pool.Programs.{
  Statement, waits, destroys, Machine, begin_main, start, add_from, main_program,
}
use ntu_systems_programming.Pool.Programs.Draining.{tasks_of, has_wait, settles, all_tasks_run}
use ntu_systems_programming.Pool.Programs.Budget.{costs, program_rank}
use ntu_systems_programming.Pool.Programs.Ending.{
  closes, CanMove, HasEnded, QuietRun, QuietRun-Runs, program_ends,
}

-- The tasks of the loop, in order.
unfoldable pub tasks_from : (ℕ → Task) → ℕ → ℕ → List Task
tasks_from task zero i = []
tasks_from task (suc m) i = task i ∷ tasks_from task m (i + 1)

abbrev ending : List Statement
ending = waits ∷ destroys ∷ []

-- What the loop of `main` gives, before its last two calls.
record Loop (task : ℕ → Task) (m i : ℕ) : Type 0 where
  waits_after : has_wait (add_from task m i ++ ending) ≡ true
  settled : settles (add_from task m i ++ ending) ≡ true
  closed : closes (add_from task m i ++ ending) ≡ true
  tasks : tasks_of (add_from task m i ++ ending) ≡ tasks_from task m i
  cost : (n : ℕ) → costs n (add_from task m i ++ ending) ≡ m * (2 * n + 12) + (3 * n + 8)

add_from-Loop : (task : ℕ → Task) (m i : ℕ) → Loop task m i
unfolding add_from has_wait settles closes tasks_of tasks_from
add_from-Loop task zero i = record {
  waits_after = refl;
  settled = refl;
  closed = refl;
  tasks = refl;
  cost = λ n. omega arith;
}
add_from-Loop task (suc m) i =
    let v = add_from-Loop task m (i + 1) in
    record {
      waits_after = v.waits_after;
      settled = ground (arith, v.waits_after, v.settled);
      closed = v.closed;
      tasks = ap (λ xs. task i ∷ xs) v.tasks;
      cost = λ n. grind (arith, v.cost n);
    }

begin_main-rank :
    (task : ℕ → Task) (m n : ℕ)
    → program_rank n (begin_main (main_program task m)) ≤ m * (2 * n + 12) + (5 * n + 8)
unfolding main_program
begin_main-rank task m n = omega (
  arith,
  (add_from-Loop task m 0).cost n,
  sum_range-le n 0 2 (λ _. 2) (λ _. 0) (λ _. omega arith),
  sum_range-none n 0 (λ _. 0) (λ j b c. refl),
)

-- Both programs, with any number M of tasks and n of workers above 0: with no spurious wakeup they
-- make at most M * (2n + 12) + 5n + 8 moves, the workers' among them; until `tpool_destroy` has
-- returned, one of the threads can move; and when it has, the tasks have been taken in the order of
-- the loop and each has been executed, as often as the loop adds it.
pub mains_end :
    {n k : ℕ} (task : ℕ → Task) (m : ℕ) {l : Machine}
    → 0 < n
    → QuietRun n (begin_main (main_program task m)) k l
    → (k ≤ m * (2 * n + 12) + (5 * n + 8))
      × ((HasEnded l
            × (l.system.taken ≡ tasks_from task m 0)
            × ((a : Task) → times l.system.executed a ≡ times (tasks_from task m 0) a))
          ⊎ CanMove n l)
unfolding main_program
mains_end {n} task m {l} p d =
    let v = add_from-Loop task m 0 in
    let (bound, end) = program_ends (main_program task m) p v.closed start d in
    (
      omega (arith, begin_main-rank task m n),
      elim end [
        | inl (e, f) ↦
            let (taken, run) =
              all_tasks_run (main_program task m) v.settled (QuietRun-Runs start d) e f in
            inl ((e, f), taken ∙ v.tasks, λ a. run a ∙ ap (λ xs. times xs a) v.tasks)
        | inr c ↦ inr c
      ],
    )
