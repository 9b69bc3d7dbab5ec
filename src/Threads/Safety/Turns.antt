-- ===== src/Threads/Safety/Turns.antt =====
-- The turns of `step`: from an activation, through its sleep, to the next jump.
use ntu_systems_programming.Prelude.{
  ◌≡◌, refl, Bool, true, none, some, inl, inr, ◌⊎◌, arith, update, Option-cases, List, [], ◌∷◌,
  ◌++◌,
}
use ntu_systems_programming.Threads.Types.{Point, System, running, Signals, Line, caught}
use ntu_systems_programming.Threads.Bodies.{exits, yields, Activation, activate}
use ntu_systems_programming.Threads.Signals.{arrive, delivered, thread_yield}
use ntu_systems_programming.Threads.Scheduler.{Control, jump, scheduler}
use ntu_systems_programming.Threads.Machine.{turn, sleep, step, leave_turn, sighandler, save_point}
use ntu_systems_programming.Threads.Queues.{ready, critical}
use ntu_systems_programming.Threads.Queues.Turn.{stay-InOrder, go-InOrder}
use ntu_systems_programming.Threads.Safety.{Good, IsQuiet, AllExited}
use ntu_systems_programming.Threads.Safety.Fate.{Exits, Waits, Yields, activate-Fate}
use ntu_systems_programming.Threads.Safety.Switch.{switch-Good, wait-Good, exit-Good}

-- What a turn leaves behind: a state to jump from, or no thread.
abbrev pub Kept : System × Control → Type 0
Kept (s, c) = (Good s ⊎ AllExited s) × (c ≡ jump)

-- A sleep with no delivery goes on to what follows it.
pub sleep-exits :
    (tstp alrm : Bool) (s : System)
    → delivered (arrive tstp alrm s.signals) ≡ none
    → sleep tstp alrm exits s ≡ scheduler 3 (record s { signals = arrive tstp alrm s.signals })
unfolding sleep
sleep-exits tstp alrm s q = ground arith

pub sleep-yields :
    (tstp alrm : Bool) (p : Point) (s : System)
    → delivered (arrive tstp alrm s.signals) ≡ none
    → sleep tstp alrm (yields p) s
      ≡ leave_turn (yields p) (record s { signals = arrive tstp alrm s.signals })
unfolding sleep
sleep-yields tstp alrm p s q = ground arith

-- `thread_yield`: the thread goes on, or a handler has switched to the next one.
leave_turn-Kept :
    (p : Point) (s : System)
    → ((g : Signals) (o : List Line) → Good (record (save_point p s) { signals = g; output = o }))
    → Kept (leave_turn (yields p) s)
unfolding leave_turn sighandler
leave_turn-Kept p s good = elim (Option-cases (thread_yield s.signals).1) [
  | inl e ↦ rw (e, leave_turn) (inl (good (thread_yield s.signals).0 s.output), refl)
  | inr (signo, e) ↦
      rw (e, leave_turn)
        (let r = switch-Good (good (thread_yield s.signals).0 (s.output ++ (caught signo ∷ []))) in
          (inl r.0, r.1))
]

module _ (s : System) (v : Good s) where
  open v use {in_order, current, held}

  abbrev pub act : Activation
  act = activate (ready s s.rq_current) s.bank

  pub turn-leave : (turn s).1 ≡ act.leave
  unfolding turn
  turn-leave = refl

  quiet-Exits :
      (tstp alrm : Bool)
      → IsQuiet tstp alrm s
      → Exits (ready s s.rq_current) s.bank act
      → Kept (sleep tstp alrm (turn s).1 (turn s).0)
  unfolding turn
  quiet-Exits tstp alrm q (l, i, w) =
      rw (l, sleep-exits tstp alrm (turn s).0 q)
        (exit-Good
          (go-InOrder s in_order current (update s.heap (running s) act.thread) act.bank _ _
            (λ a ne. ground arith) (ground arith) w)
          current)

  quiet-Waits :
      (tstp alrm : Bool)
      → Waits (ready s s.rq_current) s.bank act
      → Kept (sleep tstp alrm (turn s).1 (turn s).0)
  unfolding sleep turn
  quiet-Waits tstp alrm (l, i, e, n, b, h) = rw l (
      let r =
        wait-Good
          (go-InOrder s in_order current (update s.heap (running s) act.thread) act.bank _ _
            (λ a ne. ground arith) (ground arith) (inl (n, ground arith)))
          current (ground arith) (ground arith) in
      (inl r.0, r.1))

  -- Whatever the mask and the output are, the state after `setjmp` of `thread_yield` is good.
  pub saved-Good :
      (g : Signals) (o : List Line)
      → (y : Yields (ready s s.rq_current) s.bank act)
      → Good (record (save_point y.0 (turn s).0) { signals = g; output = o })
  unfolding turn
  saved-Good g o (p, l, i, ow, c, n) = record {
    in_order =
        stay-InOrder s in_order current (save_point p (turn s).0).heap act.bank g o
          (λ a ne. ground arith) (ground arith) ow (ground arith) (ground arith);
    current = current;
    held = λ h. ground (arith, held h);
  }

  quiet-Yields :
      (tstp alrm : Bool)
      → IsQuiet tstp alrm s
      → Yields (ready s s.rq_current) s.bank act
      → Kept (sleep tstp alrm (turn s).1 (turn s).0)
  quiet-Yields tstp alrm q y =
      rw (turn-leave, y.1, sleep-yields tstp alrm y.0 (turn s).0 q)
        (leave_turn-Kept y.0 _ (λ g o. saved-Good g o y))

  -- A turn in whose sleep no handler runs ends in a jump: to a thread that is allocated, unless
  -- the last thread has exited.
  pub step-Kept :
      (tstp alrm : Bool)
      → IsQuiet tstp alrm s
      → (r : System × Control) × (step tstp alrm s ≡ some r) × Kept r
  unfolding step
  step-Kept tstp alrm q = (
    sleep tstp alrm (turn s).1 (turn s).0,
    rw (in_order.ready_live s.rq_current current),
    elim (activate-Fate (ready s s.rq_current) s.bank own) [
      | inl ex ↦ quiet-Exits tstp alrm q ex
      | inr (inl wt) ↦ quiet-Waits tstp alrm wt
      | inr (inr yl) ↦ quiet-Yields tstp alrm q yl
    ],
  )
    where
      own :
          critical (ready s s.rq_current).environment ≡ true
          → (ready s s.rq_current).id ≡ s.bank.lock_owner
      own c = in_order.exclusive s.rq_current current (omega (arith, in_order.few)) c
