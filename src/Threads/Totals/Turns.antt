-- ===== src/Threads/Totals/Turns.antt =====
-- What a turn of HW3 in whose sleep no handler runs does to the sum of a weight over the threads.
use ntu_systems_programming.Prelude.{
  ℕ, ◌+◌, ◌<◌, ◌≡◌, refl, ap, ◌∙◌, Bool, true, inl, inr, arith, update, Option-cases, List, [], ◌∷◌,
  ◌++◌,
}
use ntu_systems_programming.Threads.Types.{Point, Tcb, System, running, Signals, Line, caught}
use ntu_systems_programming.Threads.Bodies.{Leave, exits, waits, yields}
use ntu_systems_programming.Threads.Signals.{thread_yield, arrive}
use ntu_systems_programming.Threads.Scheduler.{wake, scheduler}
use ntu_systems_programming.Threads.Machine.{turn, sleep, leave_turn, sighandler, save_point}
use ntu_systems_programming.Threads.Queues.{ready, critical}
use ntu_systems_programming.Threads.Safety.{Good, IsQuiet}
use ntu_systems_programming.Threads.Safety.Fate.{activate-Fate}
use ntu_systems_programming.Threads.Safety.Switch.{rq_current-wake, rq_size-wake}
use ntu_systems_programming.Threads.Safety.Turns.{sleep-exits, sleep-yields, act, turn-leave}
use ntu_systems_programming.Threads.Totals.{
  total, total-wake, total-park, total-retire, total-advance, total-after,
}

-- The weight of the running thread when it has left its activation so.
abbrev pub left_over : (Tcb → ℕ) → Leave → Tcb → ℕ
left_over w exits t = 0
left_over w waits t = w t
left_over w (yields p) t = w (record t { environment = p })

ready-wake : (s : System) (k : ℕ) → k < s.rq_size → ready (wake s) k ≡ ready s k
unfolding wake
ready-wake s k p = ground arith

total-switch : (w : Tcb → ℕ) (s : System) → total w (scheduler 1 s).0 ≡ total w s
unfolding scheduler
total-switch w s = total-advance w (wake s) ∙ total-wake w s

-- `thread_yield`: the thread goes on, or a handler has switched to the next one.
total-yield :
    (w : Tcb → ℕ) (p : Point) (s : System)
    → total w (leave_turn (yields p) s).0 ≡ total w (save_point p s)
unfolding leave_turn sighandler
total-yield w p s = elim (Option-cases (thread_yield s.signals).1) [
  | inl e ↦ rw (e, leave_turn) refl
  | inr (signo, e) ↦
      rw (e, leave_turn)
        (total-switch w (record (save_point p s) {
          signals = (thread_yield s.signals).0;
          output = s.output ++ (caught signo ∷ []);
        }))
]

module _ (w : Tcb → ℕ) (s : System) (c : s.rq_current < s.rq_size) where
  total-wait : total w (scheduler 2 s).0 ≡ total w s
  unfolding scheduler
  total-wait =
      total-park w (wake s) (omega (arith, rq_current-wake s, rq_size-wake s)) ∙ total-wake w s

  total-exit : total w (scheduler 3 s).0 + w (ready s s.rq_current) ≡ total w s
  unfolding scheduler
  total-exit =
      let at : (wake s).rq_current ≡ s.rq_current = rq_current-wake s in
      omega (
        arith,
        total-retire w (wake s) (omega (arith, at, rq_size-wake s)),
        total-wake w s,
        ap (λ k. w (ready (wake s) k)) at,
        ap w (ready-wake s s.rq_current c),
      )

module _ (w : Tcb → ℕ) (s : System) (v : Good s) where
  open v use {in_order, current}

  same_id : (act s v).thread.id ≡ (ready s s.rq_current).id
  same_id = elim (activate-Fate (ready s s.rq_current) s.bank own) [
    | inl ex ↦ ex.1
    | inr (inl wt) ↦ wt.1
    | inr (inr yl) ↦ yl.2
  ]
    where
      own :
          critical (ready s s.rq_current).environment ≡ true
          → (ready s s.rq_current).id ≡ s.bank.lock_owner
      own x = in_order.exclusive s.rq_current current (omega (arith, in_order.few)) x

  -- The state behind the activation, with any mask and output.
  abbrev ran : Signals → List Line → System
  ran g o = record s {
    heap = update s.heap (running s) (act s v).thread;
    bank = (act s v).bank;
    signals = g;
    output = o;
  }

  total-ran :
      (g : Signals) (o : List Line)
      → total w (ran g o) + w (ready s s.rq_current) ≡ total w s + w (act s v).thread
  total-ran g o = ground (
    arith,
    total-after w s in_order current (update s.heap (running s) (act s v).thread) (act s v).bank g o
        (λ a ne. ground arith) (ground (arith, same_id)),
  )

  total-saved :
      (p : Point) (g : Signals) (o : List Line)
      → total w (save_point p (ran g o)) + w (ready s s.rq_current)
        ≡ total w s + w (record (act s v).thread { environment = p })
  total-saved p g o = ground (
    arith,
    total-after w s in_order current (save_point p (ran g o)).heap (act s v).bank g o
        (λ a ne. ground arith) (ground (arith, same_id)),
  )

  ready-ran : (g : Signals) (o : List Line) → ready (ran g o) s.rq_current ≡ (act s v).thread
  ready-ran g o = ground arith

  -- The running thread has the weight that it is left with.
  abbrev Paid : Leave → System → Type 0
  Paid l t = total w t + w (ready s s.rq_current) ≡ total w s + left_over w l (act s v).thread

  exits-Paid :
      (tstp alrm : Bool) → IsQuiet tstp alrm s → Paid exits (sleep tstp alrm exits (turn s).0).0
  unfolding turn
  exits-Paid tstp alrm q =
      let g = arrive tstp alrm (turn s).0.signals in
      rw (sleep-exits tstp alrm (turn s).0 q) (
        omega (
          arith,
          total-exit w (ran g (turn s).0.output) current,
          total-ran g (turn s).0.output,
          ap w (ready-ran g (turn s).0.output),
        ))

  waits-Paid : (tstp alrm : Bool) → Paid waits (sleep tstp alrm waits (turn s).0).0
  unfolding turn sleep
  waits-Paid tstp alrm = omega (
    arith,
    total-wait w (ran (turn s).0.signals (turn s).0.output) current,
    total-ran (turn s).0.signals (turn s).0.output,
  )

  yields-Paid :
      (tstp alrm : Bool) (p : Point)
      → IsQuiet tstp alrm s
      → Paid (yields p) (sleep tstp alrm (yields p) (turn s).0).0
  unfolding turn
  yields-Paid tstp alrm p q =
      let g = arrive tstp alrm (turn s).0.signals in
      rw (sleep-yields tstp alrm p (turn s).0 q) (
        omega (arith, total-yield w p (ran g (turn s).0.output), total-saved p g (turn s).0.output))

  sleep-Paid :
      (tstp alrm : Bool) (l : Leave) → IsQuiet tstp alrm s → Paid l (sleep tstp alrm l (turn s).0).0
  sleep-Paid tstp alrm exits q = exits-Paid tstp alrm q
  sleep-Paid tstp alrm waits q = waits-Paid tstp alrm
  sleep-Paid tstp alrm (yields p) q = yields-Paid tstp alrm p q

  -- Nothing changes but the weight of the running thread.
  pub turn-Paid :
      (tstp alrm : Bool)
      → IsQuiet tstp alrm s
      → total w (sleep tstp alrm (turn s).1 (turn s).0).0 + w (ready s s.rq_current)
        ≡ total w s + left_over w (act s v).leave (act s v).thread
  turn-Paid tstp alrm q = rw (turn-leave s v) (sleep-Paid tstp alrm (act s v).leave q)
