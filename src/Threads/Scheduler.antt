-- ===== src/Threads/Scheduler.antt =====
-- `scheduler` of HW3/scheduler.c, step by step, on the arrays and their sizes.
use ntu_systems_programming.Prelude.{
  ℕ, zero, suc, ◌+◌, ◌-◌, false, ◌&&◌, ltb, leb, ◌==◌, if◌then◌else◌, update,
}
use ntu_systems_programming.Threads.Word.{minus_one}
use ntu_systems_programming.Threads.Types.{System, running}

-- How the scheduler ends: it jumps to the environment of `RUNNING`, or it returns to `main`.
pub data Control : Type 0 where
  jump return : Control

-- `for (i = 0; i < wq_size - 1; i++) waiting_queue[i] = waiting_queue[i + 1]`, by the rounds left.
unfoldable pub shift_from : ℕ → ℕ → (ℕ → ℕ) → ℕ → ℕ
shift_from zero i q = q
shift_from (suc rounds) i q = shift_from rounds (i + 1) (update q i (q (i + 1)))

-- Step 2: the lock is free, and the first waiting thread gets it.
unfoldable pub wake : System → System
unfolding shift_from
wake s =
    if s.bank.lock_owner == minus_one && ltb 0 s.wq_size
    then record s {
      ready_queue = update s.ready_queue s.rq_size (s.waiting_queue 0);
      rq_size = s.rq_size + 1;
      bank = record s.bank { lock_owner = (s.heap (s.waiting_queue 0)).id };
      waiting_queue = shift_from (s.wq_size - 1) 0 s.waiting_queue;
      wq_size = s.wq_size - 1;
    }
    else s

-- Step 3 for `rtv == 2`: the running thread goes to the end of the waiting queue. The tests
-- `rq_current < rq_size - 1` and `==` are on `int`, so the 1 is moved to the other side.
unfoldable pub park : System → System
park s =
    if ltb (s.rq_current + 1) s.rq_size
    then record s {
      waiting_queue = update s.waiting_queue s.wq_size (running s);
      wq_size = s.wq_size + 1;
      ready_queue = update s.ready_queue s.rq_current (s.ready_queue (s.rq_size - 1));
      rq_size = s.rq_size - 1;
    }
    else if s.rq_current + 1 == s.rq_size
    then record s {
      waiting_queue = update s.waiting_queue s.wq_size (running s);
      wq_size = s.wq_size + 1;
      rq_current = 0;
      rq_size = s.rq_size - 1;
    }
    else s

-- Step 3 for `rtv == 3`: the running thread is removed and freed.
unfoldable pub retire : System → System
retire s =
    if ltb (s.rq_current + 1) s.rq_size
    then record s {
      ready_queue = update s.ready_queue s.rq_current (s.ready_queue (s.rq_size - 1));
      rq_size = s.rq_size - 1;
      allocated = update s.allocated (running s) false;
    }
    else if s.rq_current + 1 == s.rq_size
    then record s {
      rq_current = 0;
      rq_size = s.rq_size - 1;
      allocated = update s.allocated (running s) false;
    }
    else s

-- Step 4 for `rtv == 1`: the next thread in the ready queue, round robin.
unfoldable pub advance : System → System
advance s = record s {
  rq_current = if leb s.rq_size (s.rq_current + 1) then 0 else s.rq_current + 1;
}

-- `scheduler`, entered by `setjmp(sched_buf)` with the value `rtv`.
unfoldable pub scheduler : ℕ → System → System × Control
unfolding wake park retire advance
scheduler rtv s =
    if rtv == 0
    then (record s { rq_current = 0 }, jump)
    else if rtv == 2
    then (park (wake s), jump)
    else if rtv == 3
    then (retire (wake s), jump)
    else if rtv == 1
    then (advance (wake s), jump)
    else (wake s, return)
