-- ===== src/Threads/Tests.antt =====
-- Runs of HW3, and the theorems about it at states that they reach.
use ntu_systems_programming.Prelude.{
  ℕ, ◌+◌, ◌-◌, ◌%◌, ◌^◌, ◌<◌, ◌≤◌, ◌⊎◌, ◌≡◌, ◌≢◌, inl, refl, Bool, true, false, none, some, [], ◌∷◌,
  arith,
}
use ntu_systems_programming.Threads.Word.{minus_one}
use ntu_systems_programming.Threads.Types.{
  sigtstp, fib_start, fib_next, fact_start, fact_next, bank_start, Tcb, Bank, System, running,
  value,
}
use ntu_systems_programming.Threads.Bodies.{exits, yields, new_balance, activate}
use ntu_systems_programming.Threads.Signals.{thread_yield, delivered}
use ntu_systems_programming.Threads.Scheduler.{jump, scheduler}
use ntu_systems_programming.Threads.Machine.{
  start, step, turn, sleep, leave_turn, sighandler, thread_setup,
}
use ntu_systems_programming.Threads.Queues.{ready, waiting}
use ntu_systems_programming.Threads.Ledger.Orders.{final_balance}
use ntu_systems_programming.Threads.OneSignal.{Run, begins, goes_on, turns_made, one_signal_ends}
use ntu_systems_programming.Threads.Exclusion.{
  in_bank, Reach, begin, next, mutual_exclusion, waiting_has_owner,
}
use ntu_systems_programming.Threads.Ending.{last_exit_faults}
use ntu_systems_programming.Threads.Series.{turns}
use ntu_systems_programming.Threads.Series.Fibonacci.{turns-fibonacci}
use ntu_systems_programming.Threads.Series.Factorial.{turns-factorial}
use ntu_systems_programming.Threads.Account.{new_balance_lem}
use ntu_systems_programming.Threads.Termination.{run_ends, turns_taken, total_work}
use ntu_systems_programming.Threads.Safety.{AllExited}
use ntu_systems_programming.Threads.Masks.{lock_interrupted, owner_waits_for_itself}

-- One turn, for states at which `step` is no fault.
unfoldable after : Bool → Bool → System → System
unfolding turn sleep leave_turn sighandler thread_yield delivered scheduler activate
after tstp alrm s = (sleep tstp alrm (turn s).1 (turn s).0).0

-- `./main 3 0 0 200 -900`: two threads at the bank.
abbrev two_banks : System
unfolding start thread_setup
two_banks = start 0 0 200 (2 ^ 32 - 900)

-- SIGTSTP in the first sleep: thread 2 has the lock, and thread 3 is next.
abbrev switched : System
switched = after true false two_banks

-- Thread 3 waits for the lock, and thread 2 is next.
abbrev contended : System
contended = after false false switched

switched-Reach : Reach 0 0 200 (2 ^ 32 - 900) switched
unfolding after start thread_setup step
switched-Reach = next true false begin (omega arith) refl refl

contended-Reach : Reach 0 0 200 (2 ^ 32 - 900) contended
unfolding after start thread_setup step
contended-Reach = next false false switched-Reach (omega arith) refl refl

mutual_exclusion_example : (◌≡◌ {A = ℕ} 0 0) × ((ready contended 0).id ≡ contended.bank.lock_owner)
unfolding after start thread_setup
mutual_exclusion_example =
    mutual_exclusion (omega arith) contended-Reach 0 0 (omega arith) (omega arith) refl refl

waiting_has_owner_example :
    (k : ℕ) × (k < contended.rq_size)
    × ((ready contended k).id ≡ contended.bank.lock_owner)
    × ((waiting contended 0).id ≢ contended.bank.lock_owner)
unfolding after start thread_setup
waiting_has_owner_example = waiting_has_owner (omega arith) contended-Reach 0 (omega arith)

run_ends_example :
    (turns_taken contended-Reach ≤ total_work 0 0 200 (2 ^ 32 - 900))
    × (AllExited contended
        ⊎ ((t : System) × (step false true contended ≡ some (t, jump))
            × (turns_taken contended-Reach < total_work 0 0 200 (2 ^ 32 - 900))))
unfolding after start thread_setup turn activate delivered
run_ends_example = run_ends (omega arith) contended-Reach false true refl

-- The first turn of that run, with SIGTSTP only.
keyboard_run : Run sigtstp 0 0 200 (2 ^ 32 - 900) switched
unfolding after start thread_setup step
keyboard_run = goes_on true false begins (omega arith) refl refl

one_signal_ends_example :
    (turns_made keyboard_run ≤ total_work 0 0 200 (2 ^ 32 - 900))
    × (AllExited switched
        ⊎ ((t : System) × (step true false switched ≡ some (t, jump))
            × (turns_made keyboard_run < total_work 0 0 200 (2 ^ 32 - 900))))
    × ((j k : ℕ)
        → j < switched.rq_size
        → k < switched.rq_size
        → in_bank (ready switched j).environment ≡ true
        → in_bank (ready switched k).environment ≡ true
        → j ≡ k)
one_signal_ends_example = one_signal_ends (omega arith) keyboard_run true false refl

-- And its end: thread 2 goes on to give the lock to thread 3, and both exit.
record Finished : Type 0 where
  last : System
  run : Reach 0 0 200 (2 ^ 32 - 900) last
  gone : AllExited last

finished : Finished
unfolding after start thread_setup step
finished = record {
  last = _;
  run =
      next false false
        (next false false
          (next false false
            (next false false (next false false contended-Reach (omega arith) refl refl)
              (omega arith) refl refl)
            (omega arith) refl refl)
          (omega arith) refl refl)
        (omega arith) refl refl;
  gone = (refl, refl);
}

final_balance_example :
    (finished.last.bank.balance ≡ new_balance (new_balance 500 200) (2 ^ 32 - 900))
    ⊎ (finished.last.bank.balance ≡ new_balance (new_balance 500 (2 ^ 32 - 900)) 200)
final_balance_example = final_balance (omega arith) finished.run finished.gone

-- `./main 3 1 0 0 0`, when its one thread has printed its one number.
abbrev exiting : System
unfolding turn activate start thread_setup
exiting = (turn (start 1 0 0 0)).0

last_exit_faults_example :
    ((scheduler 3 exiting).1 ≡ jump)
    × ((scheduler 3 exiting).0.allocated (running (scheduler 3 exiting).0) ≡ false)
    × (step true false (scheduler 3 exiting).0 ≡ none)
unfolding turn activate start thread_setup scheduler
last_exit_faults_example = last_exit_faults true false exiting (omega arith) (refl, refl)

abbrev fib_thread : Tcb
fib_thread = record { id = 0; environment = fib_start; arg = 48; i = 0; x = 0; y = 0 }

abbrev fact_thread : Tcb
fact_thread = record { id = 1; environment = fact_start; arg = 13; i = 0; x = 0; y = 0 }

abbrev bank_thread : Tcb
bank_thread = record { id = 3; environment = bank_start; arg = 2 ^ 32 - 400; i = 0; x = 0; y = 0 }

abbrev free_bank : Bank
free_bank = record { balance = 500; lock_owner = minus_one }

turns-fibonacci_example :
    ((turns fib_next 9 fib_thread free_bank).lines ≡ value 0 55 ∷ [])
    × ((turns fib_next 9 fib_thread free_bank).leave ≡ yields fib_next)
    × ((turns fib_next 9 fib_thread free_bank).bank ≡ free_bank)
turns-fibonacci_example = turns-fibonacci 9 fib_thread free_bank refl (omega arith)

-- 13! is no `int`: the last number that is printed is its low 32 bits.
turns-factorial_example :
    ((turns fact_next 12 fact_thread free_bank).lines ≡ value 1 (6227020800 % 2 ^ 32) ∷ [])
    × ((turns fact_next 12 fact_thread free_bank).leave ≡ exits)
    × ((turns fact_next 12 fact_thread free_bank).bank ≡ free_bank)
turns-factorial_example = turns-factorial 12 fact_thread free_bank refl (omega arith)

new_balance_lem_example : new_balance 500 (2 ^ 32 - 400) ≡ 100
new_balance_lem_example =
    new_balance_lem 500 (2 ^ 32 - 400) (omega arith) (omega arith) (inl (omega arith))

-- `./main 3 5 0 200 0`, with SIGALRM in the first sleep: the bank's thread runs next, for the first
-- time, with SIGTSTP unblocked.
abbrev unblocked : System
unblocked = after false true (start 5 0 200 0)

lock_interrupted_example :
    (r : System) × (step true false unblocked ≡ some (r, jump))
    × (r.bank.lock_owner ≡ (unblocked.heap (running unblocked)).id)
    × ((r.heap (running unblocked)).environment ≡ bank_start)
unfolding after start thread_setup
lock_interrupted_example = lock_interrupted false unblocked refl refl refl (omega arith) refl

-- SIGTSTP arrives in that sleep, and in the next one, of the thread of `fibonacci`.
abbrev self_waiting : System
self_waiting = after true false (after true false unblocked)

owner_waits_for_itself_example :
    (r : System) × (step false false self_waiting ≡ some (r, jump))
    × (r.wq_size ≡ self_waiting.wq_size + 1)
    × (r.waiting_queue self_waiting.wq_size ≡ running self_waiting)
    × (r.rq_size ≡ self_waiting.rq_size - 1)
    × (r.bank.lock_owner ≡ (r.heap (r.waiting_queue self_waiting.wq_size)).id)
unfolding after start thread_setup
owner_waits_for_itself_example =
    owner_waits_for_itself false false self_waiting (omega arith) refl refl refl (omega arith)
