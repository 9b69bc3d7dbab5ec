-- ===== src/Pool/Tests.antt =====
-- Runs of the pool of HW4, and the theorems about it at states that they reach.
use ntu_systems_programming.Prelude.{
  ℕ, ◌+◌, ◌<◌, ◌≤◌, ◌⊎◌, true, ◌≡◌, ◌≢◌, inl, refl, false, [], ◌∷◌, ◌++◌, arith,
}
use ntu_systems_programming.Pool.Types.{
  Task, sleeping, exited, between, destroyed, wait_locked, System, enqueue,
}
use ntu_systems_programming.Pool.Steps.{
  Step, Reach, init, next, enter, reenter, sleep, take, run, leave, call_add, lock_add, add,
  call_wait, lock_wait, wait, call_destroy, lock_destroy, destroy, join, joined, tpool_wait,
  worker_run, worker_exit,
}
use ntu_systems_programming.Pool.Invariant.{client_holds, times, executions}
use ntu_systems_programming.Pool.Ranks.{quiet, rank}
use ntu_systems_programming.Pool.Progress.{CanStep, begin, onward, calls_return, teardown_ends}
use ntu_systems_programming.Pool.Safety.{
  tasks_served, no_lost_wakeup, lock_exclusive, destroyed_all_exited, wait_returns_early,
}

abbrev job : Task
job = record { func = 0; arg = 7 }

abbrev other_job : Task
other_job = record { func = 1; arg = 7 }

-- A state with a run that reaches it.
record Run (n : ℕ) : Type 0 where
  last : System
  reach : Reach n last

-- One worker, asleep, before a task is added.
abbrev asleep : Run 1
asleep = record {
  last = _;
  reach = next (next init (enter 0 (omega arith) refl refl)) (sleep 0 (omega arith) refl refl refl);
}

-- A task has been added, which has roused the worker.
abbrev added_one : Run 1
unfolding enqueue
added_one = record {
  last = _;
  reach =
      next (next (next asleep.reach (call_add job refl)) (lock_add job refl refl)) (add job refl);
}

-- The worker executes it.
abbrev at_work : Run 1
unfolding enqueue
at_work = record {
  last = _;
  reach =
      next (next added_one.reach (reenter 0 (omega arith) refl refl))
        (take 0 job [] (omega arith) refl refl refl);
}

tasks_served_example :
    (at_work.last.taken ++ at_work.last.task_queue ≡ at_work.last.added)
    × ((a : Task)
        → times at_work.last.executed a
            + executions a 1 at_work.last.threads
            + times at_work.last.task_queue a
          ≡ times at_work.last.added a)
tasks_served_example = tasks_served at_work.reach

no_lost_wakeup_example : added_one.last.threads 0 ≢ sleeping
unfolding enqueue
no_lost_wakeup_example = no_lost_wakeup added_one.reach (inl (λ e. cc)) 0

-- A second task is queued while the first is executed, and `tpool_wait` goes to sleep.
abbrev wait_begun : Run 1
unfolding enqueue
wait_begun = record {
  last = _;
  reach =
      let queued =
        next (next (next at_work.reach (call_add other_job refl)) (lock_add other_job refl refl))
          (add other_job refl) in
      next (next (next queued (call_wait refl)) (lock_wait refl refl)) (wait refl);
}

-- Two workers; the first has the lock.
abbrev first_checks : Run 2
first_checks = record { last = _; reach = next init (enter 0 (omega arith) refl refl) }

lock_exclusive_example : (◌≡◌ {A = ℕ} 0 0) × (client_holds first_checks.last.caller ≡ false)
lock_exclusive_example = lock_exclusive first_checks.reach 0 0 refl (inl refl)

-- A pool that is destroyed with its worker at the head of its loop.
abbrev torn_down : Run 1
torn_down = record {
  last = _;
  reach =
      let stopped =
        next (next (next init (call_destroy refl)) (lock_destroy refl refl)) (destroy refl) in
      next
        (next
          (next (next stopped (enter 0 (omega arith) refl refl)) (leave 0 (omega arith) refl refl))
          (join 0 refl (omega arith) refl))
        (joined refl);
}

destroyed_all_exited_example :
    ((i : ℕ) → i < 1 → torn_down.last.threads i ≡ exited)
    × ((a : Task)
        → times torn_down.last.executed a + times torn_down.last.task_queue a
          ≡ times torn_down.last.added a)
destroyed_all_exited_example = destroyed_all_exited torn_down.reach refl

-- `tpool_wait` sleeps, and the worker executes its first task.
calls_return_example : (1 ≤ rank 1 wait_begun.last) × CanStep 1 (worker_run 0 job wait_begun.last)
unfolding enqueue
calls_return_example =
    calls_return (omega arith) wait_begun.reach
      (onward (begin refl) (run 0 job (omega arith) refl) refl refl)

-- `tpool_destroy` joins, and the worker is about to check `stop`.
abbrev tearing_down : Run 1
tearing_down = record {
  last = _;
  reach =
      let stopped =
        next (next (next init (call_destroy refl)) (lock_destroy refl refl)) (destroy refl) in
      next stopped (enter 0 (omega arith) refl refl);
}

abbrev leaving : Step 1 tearing_down.last (worker_exit 0 tearing_down.last)
leaving = leave 0 (omega arith) refl refl

teardown_ends_example :
    (quiet leaving ≡ true)
    × (((worker_exit 0 tearing_down.last).caller ≡ destroyed)
        ⊎ (rank 1 (worker_exit 0 tearing_down.last) < rank 1 tearing_down.last))
teardown_ends_example = teardown_ends {j = 0} tearing_down.reach refl leaving

wait_returns_early_example :
    (s : System) × Reach 10 s
    × (s.caller ≡ wait_locked)
    × ((tpool_wait s).caller ≡ between)
    × (s.added ≡ job ∷ [])
    × (s.executed ≡ [])
wait_returns_early_example = wait_returns_early 10 job (omega arith)
