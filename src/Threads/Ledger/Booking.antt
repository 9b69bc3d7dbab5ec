-- ===== src/Threads/Ledger/Booking.antt =====
-- What each turn of HW3 books, and the balance that the bookings make.
use mathlib.Core.Path.{subst}
use ntu_systems_programming.Prelude.{
  ℕ, ◌+◌, ◌<◌, ◌≡◌, refl, ◌∙◌, Bool, arith, ◌==◌, ◌&&◌, if◌then◌else◌, List, inl, inr, some,
  Bool-cases, Option-cases,
}
use ntu_systems_programming.Threads.Types.{System, Signo, Signals}
use ntu_systems_programming.Threads.Bodies.{Leave, exits, yields, waits, new_balance, activate}
use ntu_systems_programming.Threads.Signals.{thread_yield, delivered, arrive}
use ntu_systems_programming.Threads.Scheduler.{jump, wake, park, retire, advance, scheduler}
use ntu_systems_programming.Threads.Machine.{
  start, step, sleep, turn, leave_turn, sighandler, thread_setup, init_threads, globals,
}
use ntu_systems_programming.Threads.Queues.{ready}
use ntu_systems_programming.Threads.Safety.{Good, IsQuiet}
use ntu_systems_programming.Threads.Startup.{asked}
use ntu_systems_programming.Threads.Totals.{total}
use ntu_systems_programming.Threads.Totals.Turns.{turn-Paid}
use ntu_systems_programming.Threads.Totals.Starts.{asked_total, start-total}
use ntu_systems_programming.Threads.Exclusion.{Reach, begin, next, Reach-Good}
use ntu_systems_programming.Threads.Termination.{step-sleep}
use ntu_systems_programming.Threads.Ledger.{
  books, pending, ledger, booked, count, activate_at-Entry,
}

balance-scheduler : (rtv : ℕ) (s : System) → (scheduler rtv s).0.bank.balance ≡ s.bank.balance
unfolding scheduler wake park retire advance
balance-scheduler rtv s = ground arith

balance-leave_turn : (l : Leave) (s : System) → (leave_turn l s).0.bank.balance ≡ s.bank.balance
unfolding leave_turn sighandler
balance-leave_turn exits s = balance-scheduler 3 s
balance-leave_turn waits s = balance-scheduler 2 s
balance-leave_turn (yields p) s = elim (Option-cases (thread_yield s.signals).1) [
  | inl e ↦ rw (e, leave_turn) refl
  | inr (signo, e) ↦ rw (e, leave_turn) (balance-scheduler 1 _)
]

balance-sighandler :
    (signo : Signo) (g : Signals) (s : System)
    → (sighandler signo g s).0.bank.balance ≡ s.bank.balance
unfolding sighandler
balance-sighandler signo g s = balance-scheduler 1 _

balance-sleep :
    (tstp alrm : Bool) (l : Leave) (s : System)
    → (sleep tstp alrm l s).0.bank.balance ≡ s.bank.balance
unfolding sleep
balance-sleep tstp alrm waits s = balance-leave_turn waits s
balance-sleep tstp alrm exits s = elim (Option-cases (delivered (arrive tstp alrm s.signals))) [
  | inl e ↦
      rw (e, sleep) (balance-leave_turn exits (record s { signals = arrive tstp alrm s.signals }))
  | inr (signo, e) ↦ rw (e, sleep) (balance-sighandler signo _ s)
]
balance-sleep tstp alrm (yields p) s =
    elim (Option-cases (delivered (arrive tstp alrm s.signals))) [
      | inl e ↦
          rw (e, sleep)
            (balance-leave_turn (yields p) (record s { signals = arrive tstp alrm s.signals }))
      | inr (signo, e) ↦ rw (e, sleep) (balance-sighandler signo _ s)
    ]

-- What a turn books.
Turned : System → System → Type 0
Turned s t =
    let u = ready s s.rq_current in
    ((v : ℕ)
      → total (pending v) t + (if books u.environment && u.arg == v then 1 else 0)
        ≡ total (pending v) s)
    × (t.bank.balance
        ≡ (if books u.environment then new_balance s.bank.balance u.arg else s.bank.balance))

turn-Turned :
    (tstp alrm : Bool) (s : System)
    → Good s
    → IsQuiet tstp alrm s
    → Turned s (sleep tstp alrm (turn s).1 (turn s).0).0
unfolding Turned activate turn
turn-Turned tstp alrm s v q =
    let u = ready s s.rq_current in
    let entry = activate_at-Entry u.environment u s.bank refl in
    (
      λ x. omega (arith, turn-Paid (pending x) s v tstp alrm q, entry.0 x),
      balance-sleep tstp alrm (turn s).1 (turn s).0 ∙ entry.1,
    )

step-Turned :
    (tstp alrm : Bool) (s t : System)
    → Good s
    → IsQuiet tstp alrm s
    → step tstp alrm s ≡ some (t, jump)
    → Turned s t
step-Turned tstp alrm s t v q e =
    subst (Turned s) (step-sleep tstp alrm s t v e) (turn-Turned tstp alrm s v q)

balance-start : (f g a b : ℕ) → (start f g a b).bank.balance ≡ 500
unfolding start init_threads thread_setup
balance-start f g a b = balance-scheduler 0 (init_threads f g a b globals) ∙ ground arith

-- The balance is that of the ledger, and what is not in it is still to come.
pub record IsBooked (f g a b : ℕ) (s : System) (l : List ℕ) : Type 0 where
  pub sums : s.bank.balance ≡ booked l
  pub counts : (v : ℕ) → count v l + total (pending v) s ≡ asked_total (pending v) f g a b

pub ledger-IsBooked :
    {f g a b : ℕ} {s : System}
    → 0 < asked f g a b
    → (r : Reach f g a b s) → IsBooked f g a b s (ledger r)
unfolding ledger booked count Turned
ledger-IsBooked {f} {g} {a} {b} h begin = record {
  sums = balance-start f g a b;
  counts = λ v. omega (arith, start-total (pending v) f g a b);
}
ledger-IsBooked {f} {g} {a} {b} h (next {s} {t} tstp alrm r more q e) = elim (Reach-Good h r) [
  | inl good ↦
      let i = ledger-IsBooked h r in
      let w = step-Turned tstp alrm s t good q e in
      elim (Bool-cases (books (ready s s.rq_current).environment)) [
        | inl x ↦ record {
          sums = ground (arith, x, w.1, i.sums);
          counts = λ v. ground (arith, x, w.0 v, i.counts v);
        }
        | inr x ↦ record {
          sums = ground (arith, x, w.1, i.sums);
          counts = λ v. ground (arith, x, w.0 v, i.counts v);
        }
      ]
  | inr gone ↦ absurd (omega (arith, gone.0))
]
