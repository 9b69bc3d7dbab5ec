-- ===== src/Threads/Types.antt =====
-- The state of HW3: `struct tcb` (threadtools.h), `struct Bank` (bank.h) and the globals of main.c.
use ntu_systems_programming.Prelude.{ℕ, Bool, List}

-- What a `jmp_buf` of a thread holds: the `setjmp` that it was filled by. `_start` is the one of
-- `thread_setup`, `bank_locked` the one of `lock`, and the others are those of `thread_yield`.
pub data Point : Type 0 where
  fib_start fib_next : Point
  fact_start fact_next : Point
  bank_start bank_locked bank_update bank_release : Point

pub record Tcb : Type 0 where
  pub id : ℕ
  pub environment : Point
  pub arg : ℕ
  pub i : ℕ
  pub x : ℕ
  pub y : ℕ

pub record Bank : Type 0 where
  pub balance : ℕ
  pub lock_owner : ℕ

-- The two signals that the program handles.
pub data Signo : Type 0 where
  sigtstp sigalrm : Signo

-- The signal mask of the process and its pending signals.
pub record Signals : Type 0 where
  pub tstp_blocked : Bool
  pub alrm_blocked : Bool
  pub tstp_pending : Bool
  pub alrm_pending : Bool

-- A line of output, by the `printf` that writes it.
pub data Line : Type 0 where
  created : (id : ℕ) → Point → Line
  value : (id n : ℕ) → Line
  acquired : (id : ℕ) → Line
  balances : (id before after : ℕ) → Line
  released : (id : ℕ) → Line
  caught : Signo → Line

-- An address is a number, 0 is NULL, and `allocated` says which blocks `malloc` has given out and
-- `free` has not taken back. A queue is the array of its slots.
pub record System : Type 0 where
  pub heap : ℕ → Tcb
  pub allocated : ℕ → Bool
  pub brk : ℕ
  pub ready_queue : ℕ → ℕ
  pub waiting_queue : ℕ → ℕ
  pub rq_size : ℕ
  pub rq_current : ℕ
  pub wq_size : ℕ
  pub bank : Bank
  pub signals : Signals
  pub output : List Line

abbrev pub thread_max : ℕ
thread_max = 16

-- The macro `RUNNING`.
abbrev pub running : System → ℕ
running s = s.ready_queue s.rq_current
