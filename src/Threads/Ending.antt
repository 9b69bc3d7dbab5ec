-- ===== src/Threads/Ending.antt =====
-- How a run of HW3 ends.
use ntu_systems_programming.Prelude.{ℕ, ◌<◌, ◌≤◌, ◌≡◌, Bool, none, arith}
use ntu_systems_programming.Threads.Types.{System, running}
use ntu_systems_programming.Threads.Scheduler.{jump, scheduler}
use ntu_systems_programming.Threads.Machine.{step}
use ntu_systems_programming.Threads.Safety.{AllExited}

-- The program enters `scheduler` with 0, 1, 2 and 3 only; each of these ends in a `longjmp`.
scheduler_never_returns : (rtv : ℕ) (s : System) → rtv ≤ 3 → (scheduler rtv s).1 ≡ jump
unfolding scheduler
scheduler_never_returns rtv s h = ground arith

-- When the last thread exits, `scheduler` jumps all the same: to the environment in the block that
-- it has just freed. So there is no turn after that, whatever signals arrive.
pub last_exit_faults :
    (tstp alrm : Bool) (s : System)
    → s.rq_current < s.rq_size
    → AllExited (scheduler 3 s).0
    → ((scheduler 3 s).1 ≡ jump)
      × ((scheduler 3 s).0.allocated (running (scheduler 3 s).0) ≡ Bool.false)
      × (step tstp alrm (scheduler 3 s).0 ≡ none)
unfolding scheduler step
last_exit_faults tstp alrm s c gone = ground arith
