-- ===== src/Threads/Masks.antt =====
-- The signal mask of HW3, and what goes wrong where it is not the base mask.
use ntu_systems_programming.Prelude.{
  ◌<◌, ◌≡◌, ◌≢◌, Bool, true, false, some, arith, ◌+◌, ◌-◌, ◌++◌, update,
}
use ntu_systems_programming.Threads.Word.{minus_one}
use ntu_systems_programming.Threads.Types.{System, running, bank_start, Tcb, Bank}
use ntu_systems_programming.Threads.Bodies.{activate, activate_at, lock, Leave}
use ntu_systems_programming.Threads.Signals.{delivered}
use ntu_systems_programming.Threads.Scheduler.{jump, scheduler}
use ntu_systems_programming.Threads.Machine.{step, turn, sleep, sighandler}

activate-lock : (t : Tcb) (b : Bank) → t.environment ≡ bank_start → activate t b ≡ lock t b
unfolding activate
activate-lock t b e = rw (e, activate_at)

-- The first turn of `bank_operation`.
abbrev locking : System → System × Leave
locking s =
    let act = lock (s.heap (running s)) s.bank in
    (
      record s {
        heap = update s.heap (running s) act.thread;
        bank = act.bank;
        output = s.output ++ act.lines;
      },
      act.leave,
    )

turn-locking : (s : System) → (s.heap (running s)).environment ≡ bank_start → turn s ≡ locking s
unfolding turn
turn-locking s e = rw (activate-lock (s.heap (running s)) s.bank e, e)

-- A thread gets the lock in its first activation, with SIGTSTP unblocked, and SIGTSTP arrives in
-- its sleep: the handler switches to another thread, the lock has its owner, and the owner's
-- environment is still the one of `thread_setup`, before `lock`.
pub lock_interrupted :
    (alrm : Bool) (s : System)
    → s.allocated (running s) ≡ true
    → (s.heap (running s)).environment ≡ bank_start
    → s.bank.lock_owner ≡ minus_one
    → (s.heap (running s)).id ≢ minus_one
    → s.signals.tstp_blocked ≡ false
    → (r : System) × (step true alrm s ≡ some (r, jump))
      × (r.bank.lock_owner ≡ (s.heap (running s)).id)
      × ((r.heap (running s)).environment ≡ bank_start)
unfolding step sleep sighandler scheduler delivered lock
lock_interrupted alrm s a e f i m =
    rw (turn-locking s e)
      ((sleep true alrm (locking s).1 (locking s).0).0, ground arith, ground arith, ground arith)

-- Such an owner, when it runs again, fails to get the lock that it has, and goes to the waiting
-- queue, where only the release of its own lock would wake it.
pub owner_waits_for_itself :
    (tstp alrm : Bool) (s : System)
    → s.rq_current < s.rq_size
    → s.allocated (running s) ≡ true
    → (s.heap (running s)).environment ≡ bank_start
    → s.bank.lock_owner ≡ (s.heap (running s)).id
    → s.bank.lock_owner ≢ minus_one
    → (r : System) × (step tstp alrm s ≡ some (r, jump))
      × (r.wq_size ≡ s.wq_size + 1)
      × (r.waiting_queue s.wq_size ≡ running s)
      × (r.rq_size ≡ s.rq_size - 1)
      × (r.bank.lock_owner ≡ (r.heap (r.waiting_queue s.wq_size)).id)
unfolding step sleep sighandler scheduler delivered lock
owner_waits_for_itself tstp alrm s c a e o n = rw (turn-locking s e) (
  (sleep tstp alrm (locking s).1 (locking s).0).0,
  ground arith,
  ground arith,
  ground arith,
  ground arith,
  ground arith,
)
