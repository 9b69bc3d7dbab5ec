-- ===== src/Pool/Safety.antt =====
-- What the pool of HW4 promises in every state that its threads reach.
use ntu_systems_programming.Prelude.{
  ℕ, ◌+◌, ◌<◌, ◌≡◌, ◌≢◌, ◌⊎◌, refl, true, false, [], ◌∷◌, ◌++◌, arith, sum_range-none,
}
use ntu_systems_programming.Pool.Types.{
  Task, sleeping, exited, between, wait_locked, destroyed, System, tpool_init, enqueue,
}
use ntu_systems_programming.Pool.Steps.{
  Reach, init, next, tpool_wait, call_add, lock_add, add, enter, take, call_wait, lock_wait,
}
use ntu_systems_programming.Pool.Invariant.{
  Inv, worker_holds, client_holds, executing, times, executions,
}
use ntu_systems_programming.Pool.Invariant.Moves.{Step-Inv, times-append}

Inv-init : (n : ℕ) → Inv n tpool_init
Inv-init n = record {
  worker_lock_held = λ i h. absurd (ground arith);
  client_lock_held = λ h. absurd (ground arith);
  idle = λ i h. absurd (ground arith);
  fifo = refl;
  served = λ a. omega (arith, sum_range-none n 0 (λ _. 0) (λ i b p. refl));
  told = λ h. absurd (ground arith);
  stopped = refl;
  gone = λ k i h. absurd (ground arith);
  all_gone = λ i h. absurd (ground arith);
}

pub Reach-Inv : {n : ℕ} {s : System} → Reach n s → Inv n s
Reach-Inv {n} init = Inv-init n
Reach-Inv (next r st) = Step-Inv st (Reach-Inv r)

-- The queue is first in, first out: what the workers have taken, followed by what is queued, is what
-- was added, in order. Each task is being executed, has been executed or is still queued, as often
-- in all as it was added.
pub tasks_served :
    {n : ℕ} {s : System}
    → Reach n s
    → (s.taken ++ s.task_queue ≡ s.added)
      × ((a : Task)
          → times s.executed a + executions a n s.threads + times s.task_queue a ≡ times s.added a)
tasks_served {n} {s} r =
    let v = Reach-Inv r in
    (v.fifo, λ a. rw (← v.fifo) (omega (arith, v.served a, times-append s.taken s.task_queue a)))

-- No worker is left asleep with work to do: while a task is queued, or after `stop` is set, no
-- worker waits for `queue_not_empty`.
pub no_lost_wakeup :
    {n : ℕ} {s : System}
    → Reach n s
    → (s.task_queue ≢ []) ⊎ (s.stop ≡ true)
    → (i : ℕ) → s.threads i ≢ sleeping
no_lost_wakeup r w i e = ground (arith, (Reach-Inv r).idle i)

-- Two threads are never in a critical section of `queue_lock` together: no two workers, and no
-- worker and the client.
pub lock_exclusive :
    {n : ℕ} {s : System}
    → Reach n s
    → (i j : ℕ) → worker_holds (s.threads i) ≡ true
    → (worker_holds (s.threads j) ≡ true) ⊎ (client_holds s.caller ≡ true)
    → (i ≡ j) × (client_holds s.caller ≡ false)
lock_exclusive r i j h w =
    let v = Reach-Inv r in
    ground (arith, v.worker_lock_held i, v.worker_lock_held j, v.client_lock_held)

-- After `tpool_destroy` every worker has exited, no task is half done, and each task that was added
-- has been executed or was dropped in the queue.
pub destroyed_all_exited :
    {n : ℕ} {s : System}
    → Reach n s
    → s.caller ≡ destroyed
    → ((i : ℕ) → i < n → s.threads i ≡ exited)
      × ((a : Task) → times s.executed a + times s.task_queue a ≡ times s.added a)
destroyed_all_exited {n} {s} r c =
    let v = Reach-Inv r in
    (
      λ i p. v.all_gone i c p,
      λ a. omega (
        arith,
        (tasks_served r).1 a,
        sum_range-none n 0 (λ i. executing a (s.threads i))
            (λ i b p. ground (arith, v.all_gone i c (omega arith))),
      ),
    )

-- `tpool_wait` may return before a task is done: with any number of workers above 0 and any task
-- there is a run in which `tpool_wait` returns to its caller when the one task that was added has
-- been taken, and not executed.
pub wait_returns_early :
    (n : ℕ) (task : Task)
    → 0 < n
    → (s : System) × Reach n s
      × (s.caller ≡ wait_locked)
      × ((tpool_wait s).caller ≡ between)
      × (s.added ≡ task ∷ [])
      × (s.executed ≡ [])
unfolding enqueue
wait_returns_early n task h =
    let called = next init (call_add task refl) in
    let queued = next (next called (lock_add task refl refl)) (add task refl) in
    let taken = next (next queued (enter 0 h refl refl)) (take 0 task [] h refl refl refl) in
    (_, next (next taken (call_wait refl)) (lock_wait refl refl), refl, refl, refl, refl)
