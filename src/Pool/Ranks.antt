-- ===== src/Pool/Ranks.antt =====
-- How far the threads of the pool of HW4 are from the end of the client's call.
use ntu_systems_programming.Prelude.{
  ap, ℕ, ◌+◌, ◌-◌, ◌*◌, ◌<◌, ◌≡◌, Bool, true, false, arith, length, sum_range, sum_range-update,
  sum_range-le, update,
}
use ntu_systems_programming.Pool.Types.{
  WorkerPc, entry, checking, sleeping, woken, working, finished, reporting, exited, ClientPc,
  between, add_enter, add_locked, wait_enter, wait_locked, wait_woken, destroy_enter,
  destroy_locked, joining, destroyed, System, rouse,
}
use ntu_systems_programming.Pool.Invariant.Guards.{guard}
use ntu_systems_programming.Pool.Steps.{
  Step, enter, reenter, sleep, spurious, leave, take, run, finish, report, lock_add, lock_wait,
  relock_wait, wait, spurious_wait, lock_destroy, destroy, join, joined, call_add, call_wait,
  call_destroy, add,
}

-- The client is in `tpool_add`, `tpool_wait` or `tpool_destroy`.
abbrev pub in_call : ClientPc → Bool
in_call between = false
in_call destroyed = false
in_call _ = true

-- No condition variable wakes a thread without a signal.
abbrev pub quiet : {n : ℕ} {s t : System} → Step n s t → Bool
quiet (spurious _ _ _) = false
quiet (spurious_wait _) = false
quiet _ = true

abbrev pub worker_rank : WorkerPc → ℕ
worker_rank entry = 2
worker_rank checking = 1
worker_rank sleeping = 0
worker_rank woken = 2
worker_rank (working _) = 7
worker_rank finished = 6
worker_rank reporting = 5
worker_rank exited = 0

-- A step of `tpool_destroy` rouses the workers, so the steps before it rank above them all.
abbrev pub client_rank : ℕ → ClientPc → ℕ
client_rank n (add_enter _) = 2
client_rank n (add_locked _) = 1
client_rank n wait_enter = 2
client_rank n wait_locked = 1
client_rank n wait_woken = 2
client_rank n destroy_enter = 3 * n + 4
client_rank n destroy_locked = 3 * n + 3
client_rank n (joining k) = n + 1 - k
client_rank n _ = 0

abbrev pub workers_rank : ℕ → (ℕ → WorkerPc) → ℕ
workers_rank n threads = sum_range n 0 (λ i. worker_rank (threads i))

abbrev pub rank : ℕ → System → ℕ
rank n s = 8 * length s.task_queue + workers_rank n s.threads + client_rank n s.caller

moved :
    {n : ℕ} (s : System) (k : ℕ) (q : WorkerPc)
    → k < n
    → workers_rank n (update s.threads k q) + worker_rank (s.threads k)
      ≡ workers_rank n s.threads + worker_rank q
moved {n} s k q p = sum_range-update worker_rank n s.threads k q p

-- Neither a spurious wakeup, nor the start of a call, nor a task put into the queue.
abbrev pub inner : {n : ℕ} {s t : System} → Step n s t → Bool
inner (spurious _ _ _) = false
inner (spurious_wait _) = false
inner (call_add _ _) = false
inner (call_wait _) = false
inner (call_destroy _) = false
inner (add _ _) = false
inner _ = true

module _ {n : ℕ} {s : System} where
  pub work_decreases : {t : System} (st : Step n s t) → inner st ≡ true → rank n t < rank n s
  work_decreases (enter k p c l) q = ground (arith, moved s k checking p)
  work_decreases (reenter k p c l) q = ground (arith, moved s k checking p)
  work_decreases (sleep k p c e f) q = ground (arith, moved s k sleeping p)
  work_decreases (leave k p c f) q = ground (arith, moved s k exited p)
  work_decreases (take k x y p c f e) q = ground (arith, moved s k (working x) p, ap length e)
  work_decreases (run k x p c) q = ground (arith, moved s k finished p)
  work_decreases (finish k p c l) q = ground (arith, moved s k reporting p)
  work_decreases (report k p c) q = ground (arith, moved s k entry p)
  work_decreases (destroy c) q = ground (
    arith,
    c,
    sum_range-le n 0 2 (λ i. worker_rank (rouse (s.threads i))) (λ i. worker_rank (s.threads i))
        (λ i. ground arith),
  )
  work_decreases (lock_add x c l) q = ground arith
  work_decreases (lock_wait c l) q = ground arith
  work_decreases (relock_wait c l) q = ground arith
  work_decreases (wait c) q = ground arith
  work_decreases (lock_destroy c l) q = ground arith
  work_decreases (join k c p e) q = ground arith
  work_decreases (joined c) q = ground arith
  work_decreases st q = absurd (ground arith)

  -- While the client is in a call, every step that is no spurious wakeup comes nearer to its end.
  pub rank_decreases :
      {t : System} (st : Step n s t)
      → quiet st ≡ true
      → in_call s.caller ≡ true
      → in_call t.caller ≡ true
      → rank n t < rank n s
  rank_decreases st q i j = work_decreases st (call_inner st q i j)
    where
      call_inner :
          {t : System} (st : Step n s t)
          → quiet st ≡ true
          → in_call s.caller ≡ true
          → in_call t.caller ≡ true
          → inner st ≡ true
      call_inner (add x c) q i j = absurd (ground arith)
      call_inner st q i j = ground (arith, guard st)
