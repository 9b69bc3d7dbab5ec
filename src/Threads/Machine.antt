-- ===== src/Threads/Machine.antt =====
-- The whole of HW3 in motion: `main` builds the threads, and the running thread, the signals and
-- the scheduler take turns.
use ntu_systems_programming.Prelude.{
  ℕ, ◌+◌, Bool, true, false, not, Option, none, some, [], ◌∷◌, ◌++◌, ◌==◌, if◌then◌else◌, update,
}
use ntu_systems_programming.Threads.Word.{minus_one, is_positive}
use ntu_systems_programming.Threads.Types.{
  Point, fib_start, fib_next, fact_start, fact_next, bank_start, bank_update, bank_release, Bank,
  Signo, Signals, created, caught, System, running,
}
use ntu_systems_programming.Threads.Bodies.{Leave, exits, yields, waits, activate}
use ntu_systems_programming.Threads.Signals.{
  set_base_mask, arrive, enter_handler, delivered, thread_yield,
}
use ntu_systems_programming.Threads.Scheduler.{Control, jump, scheduler}

-- `thread_setup`, up to its `return` after `setjmp`.
unfoldable pub thread_setup : Point → ℕ → ℕ → System → System
thread_setup start id arg s = record s {
  heap =
      update s.heap s.brk (record { id = id; environment = start; arg = arg; i = 0; x = 0; y = 0 });
  allocated = update s.allocated s.brk true;
  brk = s.brk + 1;
  ready_queue = update s.ready_queue s.rq_size s.brk;
  rq_size = s.rq_size + 1;
  output = s.output ++ (created id start ∷ []);
}

unfoldable pub init_threads : ℕ → ℕ → ℕ → ℕ → System → System
unfolding thread_setup
init_threads fib_arg fact_arg bank1_arg bank2_arg s =
    let s1 = if is_positive fib_arg then thread_setup fib_start 0 fib_arg s else s in
    let s2 = if is_positive fact_arg then thread_setup fact_start 1 fact_arg s1 else s1 in
    let s3 = if not (bank1_arg == 0) then thread_setup bank_start 2 bank1_arg s2 else s2 in
    if not (bank2_arg == 0) then thread_setup bank_start 3 bank2_arg s3 else s3

-- `init_bank`
abbrev pub init_bank : Bank
init_bank = record { balance = 500; lock_owner = minus_one }

-- `init_signal`: both signals are blocked.
abbrev pub init_signal : Signals
init_signal = record {
  tstp_blocked = true;
  alrm_blocked = true;
  tstp_pending = false;
  alrm_pending = false;
}

-- The globals when `main` begins; all of them are zero.
abbrev pub globals : System
globals = record {
  heap = λ _. record { id = 0; environment = fib_start; arg = 0; i = 0; x = 0; y = 0 };
  allocated = λ _. false;
  brk = 1;
  ready_queue = λ _. 0;
  waiting_queue = λ _. 0;
  rq_size = 0;
  rq_current = 0;
  wq_size = 0;
  bank = init_bank;
  signals = init_signal;
  output = [];
}

-- `main`, to the first `longjmp` of `scheduler`.
unfoldable pub start : ℕ → ℕ → ℕ → ℕ → System
unfolding init_threads scheduler
start fib_arg fact_arg bank1_arg bank2_arg =
    (scheduler 0 (init_threads fib_arg fact_arg bank1_arg bank2_arg globals)).0

-- A resumed `thread_yield` goes on to set the base mask; `thread_setup` and `lock` do not.
abbrev pub resume_mask : Point → Signals → Signals
resume_mask fib_next g = set_base_mask g
resume_mask fact_next g = set_base_mask g
resume_mask bank_update g = set_base_mask g
resume_mask bank_release g = set_base_mask g
resume_mask _ g = g

-- The handler prints, and jumps to the scheduler with 1.
unfoldable pub sighandler : Signo → Signals → System → System × Control
sighandler signo g s =
    scheduler 1 (record s { signals = g; output = s.output ++ (caught signo ∷ []) })

-- `setjmp(RUNNING->environment)`
abbrev pub save_point : Point → System → System
save_point p s = record s {
  heap = update s.heap (running s) (record (s.heap (running s)) { environment = p });
}

-- After the sleep, with no signal delivered in it.
unfoldable pub leave_turn : Leave → System → System × Control
unfolding sighandler
leave_turn exits s = scheduler 3 s
leave_turn waits s = scheduler 2 s
leave_turn (yields p) s =
    let (g, took) = thread_yield s.signals in
    elim took [
      | some signo ↦ sighandler signo g (save_point p s)
      | none ↦ (record (save_point p s) { signals = g }, jump)
    ]

-- The `sleep(1)` of a turn, in which the signals `tstp` and `alrm` arrive.
unfoldable pub sleep : Bool → Bool → Leave → System → System × Control
unfolding leave_turn sighandler
sleep tstp alrm waits s = leave_turn waits s
sleep tstp alrm leave s =
    let g = arrive tstp alrm s.signals in
    elim (delivered g) [
      | some signo ↦ sighandler signo (enter_handler signo g) s
      | none ↦ leave_turn leave (record s { signals = g })
    ]

-- The activation of `RUNNING`, up to the sleep.
unfoldable pub turn : System → System × Leave
turn s =
    let t = s.heap (running s) in
    let act = activate t s.bank in
    (
      record s {
        heap = update s.heap (running s) act.thread;
        bank = act.bank;
        signals = resume_mask t.environment s.signals;
        output = s.output ++ act.lines;
      },
      act.leave,
    )

-- One turn of the machine; `none` is a jump into a block that is not allocated.
unfoldable pub step : Bool → Bool → System → Option (System × Control)
step tstp alrm s =
    let (s', leave) = turn s in
    if s.allocated (running s) then some (sleep tstp alrm leave s') else none
