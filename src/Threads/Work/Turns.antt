-- ===== src/Threads/Work/Turns.antt =====
-- What a turn of the machine of HW3 in whose sleep no handler runs does to the work that is left.
use mathlib.Core.Path.{subst}
use ntu_systems_programming.Prelude.{◌<◌, ◌≡◌, ◌≢◌, Bool, true, inl, inr, arith, update, List}
use ntu_systems_programming.Threads.Word.{minus_one}
use ntu_systems_programming.Threads.Types.{Point, System, running, Signals, Line}
use ntu_systems_programming.Threads.Bodies.{Leave}
use ntu_systems_programming.Threads.Scheduler.{scheduler}
use ntu_systems_programming.Threads.Machine.{turn, sleep, save_point}
use ntu_systems_programming.Threads.Queues.{InOrder, ready, critical}
use ntu_systems_programming.Threads.Queues.Turn.{go-InOrder}
use ntu_systems_programming.Threads.Safety.{Good, IsQuiet}
use ntu_systems_programming.Threads.Safety.Fate.{Exits, Waits, Yields, activate-Fate}
use ntu_systems_programming.Threads.Safety.Turns.{
  sleep-exits, sleep-yields, act, turn-leave, saved-Good,
}
use ntu_systems_programming.Threads.Totals.Turns.{turn-Paid}
use ntu_systems_programming.Threads.Work.{
  turns_left, is_sound, Nearer, Nearer-left_over, activate-Nearer, work, AllSound,
}
use ntu_systems_programming.Threads.Work.Switch.{
  after-AllSound, after-SoundBut, wait-AllSound, exit-AllSound, yield-AllSound,
}

module _ (s : System) (v : Good s) (a : AllSound s) where
  open v use {in_order, current}

  nearer : Nearer (act s v).leave (ready s s.rq_current) (act s v).thread
  nearer = activate-Nearer (ready s s.rq_current) s.bank (a s.rq_current current)

  Nearer-activation :
      {l : Leave} → (act s v).leave ≡ l → Nearer l (ready s s.rq_current) (act s v).thread
  Nearer-activation e = subst (λ l. Nearer l (ready s s.rq_current) (act s v).thread) e nearer

  -- The state behind the activation, with any mask and output.
  module _ (g : Signals) (o : List Line) (i : (act s v).thread.id ≡ (ready s s.rq_current).id) where
    abbrev ran : System
    ran = record s {
      heap = update s.heap (running s) (act s v).thread;
      bank = (act s v).bank;
      signals = g;
      output = o;
    }

    ran_exits : InOrder s.rq_current ran → AllSound (scheduler 3 ran).0
    ran_exits r = exit-AllSound ran current r (
        after-SoundBut s in_order current (update s.heap (running s) (act s v).thread)
          (act s v).bank g o (λ a ne. ground arith) (ground arith) a)

    ran_waits :
        is_sound (act s v).thread ≡ true
        → (act s v).bank.lock_owner ≢ minus_one
        → AllSound (scheduler 2 ran).0
    ran_waits z h = wait-AllSound ran current h (
        after-AllSound s in_order current (update s.heap (running s) (act s v).thread)
          (act s v).bank g o (λ a ne. ground arith) (ground arith) a (ground (arith, z)))

  Exits-AllSound :
      (tstp alrm : Bool)
      → IsQuiet tstp alrm s
      → Exits (ready s s.rq_current) s.bank (act s v)
      → AllSound (sleep tstp alrm (turn s).1 (turn s).0).0
  unfolding turn
  Exits-AllSound tstp alrm q (l, i, w) =
      rw (l, sleep-exits tstp alrm (turn s).0 q)
        (ran_exits _ _ i (
          go-InOrder s in_order current (update s.heap (running s) (act s v).thread) (act s v).bank
            _ _ (λ a ne. ground arith) (ground arith) w))

  Waits-AllSound :
      (tstp alrm : Bool)
      → Waits (ready s s.rq_current) s.bank (act s v)
      → AllSound (sleep tstp alrm (turn s).1 (turn s).0).0
  unfolding sleep turn
  Waits-AllSound tstp alrm (l, i, e, n, b, h) =
      rw l (ran_waits _ _ i (Nearer-activation l).1 (ground (arith, b)))

  saved-AllSound :
      (p : Point)
      → (act s v).thread.id ≡ (ready s s.rq_current).id
      → is_sound (record (act s v).thread { environment = p }) ≡ true
      → (g : Signals) (o : List Line)
      → AllSound (record (save_point p (turn s).0) { signals = g; output = o })
  unfolding turn
  saved-AllSound p i z g o =
      after-AllSound s in_order current (save_point p (turn s).0).heap (act s v).bank g o
        (λ a ne. ground arith) (ground arith) a (ground (arith, z))

  Yields-AllSound :
      (tstp alrm : Bool)
      → IsQuiet tstp alrm s
      → Yields (ready s s.rq_current) s.bank (act s v)
      → AllSound (sleep tstp alrm (turn s).1 (turn s).0).0
  unfolding turn
  Yields-AllSound tstp alrm q y =
      rw (turn-leave s v, y.1, sleep-yields tstp alrm y.0 (turn s).0 q)
        (yield-AllSound y.0 _ (λ g o. saved-Good s v g o y)
          (saved-AllSound y.0 y.2 (Nearer-activation y.1).1 (turn s).0.signals (turn s).0.output))

  step-AllSound :
      (tstp alrm : Bool) → IsQuiet tstp alrm s → AllSound (sleep tstp alrm (turn s).1 (turn s).0).0
  step-AllSound tstp alrm q = elim (activate-Fate (ready s s.rq_current) s.bank own) [
    | inl ex ↦ Exits-AllSound tstp alrm q ex
    | inr (inl wt) ↦ Waits-AllSound tstp alrm wt
    | inr (inr yl) ↦ Yields-AllSound tstp alrm q yl
  ]
    where
      own :
          critical (ready s s.rq_current).environment ≡ true
          → (ready s s.rq_current).id ≡ s.bank.lock_owner
      own c = in_order.exclusive s.rq_current current (omega (arith, in_order.few)) c

  -- A turn in whose sleep no handler runs leaves less work, and every loop below its end.
  pub step_lighter :
      (tstp alrm : Bool)
      → IsQuiet tstp alrm s
      → (work (sleep tstp alrm (turn s).1 (turn s).0).0 < work s)
        × AllSound (sleep tstp alrm (turn s).1 (turn s).0).0
  step_lighter tstp alrm q = (
    omega
        (arith, turn-Paid turns_left s v tstp alrm q, Nearer-left_over (act s v).leave _ _ nearer),
    step-AllSound tstp alrm q,
  )
