-- ===== src/Threads/Work/Switch.antt =====
-- What each way to leave a turn of HW3 does to the loops of the threads.
use mathlib.Core.Path.{subst}
use ntu_systems_programming.Prelude.{
  ℕ, ◌<◌, ◌≡◌, ◌≢◌, ap, sym, ◌∙◌, true, inl, inr, arith, Option-cases, ℕ_discrete, List, [], ◌∷◌,
  ◌++◌,
}
use ntu_systems_programming.Threads.Word.{minus_one}
use ntu_systems_programming.Threads.Types.{Point, Tcb, Bank, System, running, Signals, Line, caught}
use ntu_systems_programming.Threads.Bodies.{yields}
use ntu_systems_programming.Threads.Signals.{thread_yield}
use ntu_systems_programming.Threads.Scheduler.{wake, scheduler}
use ntu_systems_programming.Threads.Machine.{leave_turn, sighandler, save_point}
use ntu_systems_programming.Threads.Queues.{InOrder, ready}
use ntu_systems_programming.Threads.Queues.Moves.{none_skipped}
use ntu_systems_programming.Threads.Queues.Turn.{after, ready_kept}
use ntu_systems_programming.Threads.Safety.{Good}
use ntu_systems_programming.Threads.Safety.Switch.{wake_held, rq_current-wake, rq_size-wake}
use ntu_systems_programming.Threads.Work.{is_sound, AllSound, SoundBut}
use ntu_systems_programming.Threads.Work.Moves.{
  wake-AllSound, wake-SoundBut, retire-AllSound, park-AllSound, advance-AllSound,
}

-- The running thread's block has changed.
module _ (s : System) (v : InOrder none_skipped s) (c : s.rq_current < s.rq_size) (h' : ℕ → Tcb)
    (b' : Bank) (g : Signals) (o : List Line) (others : (a : ℕ) → a ≢ running s → h' a ≡ s.heap a)
    (same : (h' (running s)).id ≡ (ready s s.rq_current).id) where
  pub after-AllSound :
      AllSound s → is_sound (h' (running s)) ≡ true → AllSound (after s v c h' b' g o others same)
  after-AllSound a e k p = elim (ℕ_discrete k s.rq_current) [
    | yes here ↦ ground (arith, here, e)
    | no there ↦ ap is_sound (ready_kept s v c h' b' g o others same k p there) ∙ a k p
  ]

  pub after-SoundBut : AllSound s → SoundBut s.rq_current (after s v c h' b' g o others same)
  after-SoundBut a k p ne = ap is_sound (ready_kept s v c h' b' g o others same k p ne) ∙ a k p

switch-AllSound : {skip : ℕ} (s : System) → InOrder skip s → AllSound s → AllSound (scheduler 1 s).0
unfolding scheduler
switch-AllSound s v a = advance-AllSound (wake s) (wake-AllSound s v a)

pub wait-AllSound :
    (s : System)
    → s.rq_current < s.rq_size
    → s.bank.lock_owner ≢ minus_one
    → AllSound s
    → AllSound (scheduler 2 s).0
unfolding scheduler
wait-AllSound s c h a = rw (wake_held s h) (park-AllSound s c a)

pub exit-AllSound :
    (s : System)
    → s.rq_current < s.rq_size
    → InOrder s.rq_current s
    → SoundBut s.rq_current s
    → AllSound (scheduler 3 s).0
unfolding scheduler
exit-AllSound s c v a =
    let at : (wake s).rq_current ≡ s.rq_current = rq_current-wake s in
    retire-AllSound (wake s) (omega (arith, at, rq_size-wake s))
      (subst (λ k. SoundBut k (wake s)) (sym at) (wake-SoundBut s v a))

-- `thread_yield`: the thread goes on, or a handler has switched to the next one.
pub yield-AllSound :
    (p : Point) (s : System)
    → ((g : Signals) (o : List Line) → Good (record (save_point p s) { signals = g; output = o }))
    → AllSound (save_point p s)
    → AllSound (leave_turn (yields p) s).0
unfolding leave_turn sighandler
yield-AllSound p s good a = elim (Option-cases (thread_yield s.signals).1) [
  | inl e ↦ rw (e, leave_turn) a
  | inr (signo, e) ↦
      rw (e, leave_turn)
        (let o = s.output ++ (caught signo ∷ []) in
          switch-AllSound
            (record (save_point p s) { signals = (thread_yield s.signals).0; output = o })
            (good (thread_yield s.signals).0 o).in_order a)
]
