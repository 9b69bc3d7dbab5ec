-- ===== src/Threads/Safety/Switch.antt =====
-- `scheduler`, entered with each value that the program jumps to it with.
use ntu_systems_programming.Prelude.{
  ℕ, ◌<◌, ◌≤◌, ◌≡◌, ◌≢◌, refl, ◌==◌, Bool-cases, inl, inr, ◌⊎◌, arith, dec_lt, sym,
}
use mathlib.Core.Path.{subst}
use ntu_systems_programming.Threads.Word.{minus_one}
use ntu_systems_programming.Threads.Types.{Point, System}
use ntu_systems_programming.Threads.Scheduler.{jump, wake, retire, scheduler}
use ntu_systems_programming.Threads.Queues.{InOrder, ready}
use ntu_systems_programming.Threads.Queues.Moves.{
  none_skipped, wake-InOrder, park-InOrder, retire-InOrder, advance-InOrder,
}
use ntu_systems_programming.Threads.Safety.{Good, AllExited}

-- With the lock taken `wake` does nothing; it leaves nobody waiting for a free lock.
pub wake_held : (s : System) → s.bank.lock_owner ≢ minus_one → wake s ≡ s
unfolding wake
wake_held s h = ground arith

wake_free :
    {skip : ℕ} (s : System)
    → InOrder skip s
    → (wake s).bank.lock_owner ≡ minus_one
    → (wake s).wq_size ≡ 0
unfolding wake
wake_free s v h = ground (arith, v.waiting_small 0)

pub rq_current-wake : (s : System) → (wake s).rq_current ≡ s.rq_current
unfolding wake
rq_current-wake s = ground arith

pub rq_size-wake : (s : System) → s.rq_size ≤ (wake s).rq_size
unfolding wake
rq_size-wake s = ground arith

-- A signal's handler has jumped here: the next thread runs.
pub switch-Good : {s : System} → Good s → Good (scheduler 1 s).0 × ((scheduler 1 s).1 ≡ jump)
unfolding scheduler
switch-Good {s} h = (
  record {
    in_order = advance-InOrder (wake-InOrder (omega (arith, h.in_order.few)) h.in_order);
    current = ground (arith, rq_current-wake s, rq_size-wake s, h.current);
    held = λ p e. absurd (omega (arith, wake_free s h.in_order e));
  },
  refl,
)

-- `lock` has failed: another thread holds the lock, and some thread is left to run.
pub wait-Good :
    {s : System}
    → InOrder s.rq_current s
    → s.rq_current < s.rq_size
    → (ready s s.rq_current).environment ≡ Point.bank_locked
    → s.bank.lock_owner ≢ minus_one
    → Good (scheduler 2 s).0 × ((scheduler 2 s).1 ≡ jump)
unfolding scheduler
wait-Good {s} v c e held =
    let (k, lt, ne, cr, own) = v.owned held in
    rw (wake_held s held) (
      record { in_order = park-InOrder c e v; current = ground arith; held = λ p. ground arith },
      refl,
    )

-- A thread that is alone in the ready queue has nobody waiting for it.
alone :
    (w : System)
    → InOrder w.rq_current w
    → w.rq_current < w.rq_size
    → ¬ (1 < w.rq_size)
    → (w.bank.lock_owner ≡ minus_one → w.wq_size ≡ 0)
    → w.wq_size ≡ 0
alone w v c last free = elim (Bool-cases (w.bank.lock_owner == minus_one)) [
  | inl none_has ↦ free (ground arith)
  | inr held ↦ let (k, lt, ne, cr, own) = v.owned (ground arith) in absurd (ground arith)
]

-- A thread has exited: another one runs, or none is left.
pub exit-Good :
    {s : System}
    → InOrder s.rq_current s
    → s.rq_current < s.rq_size
    → (Good (scheduler 3 s).0 ⊎ AllExited (scheduler 3 s).0) × ((scheduler 3 s).1 ≡ jump)
unfolding scheduler
exit-Good {s} v c = (
  elim (dec_lt 1 (wake s).rq_size) [
    | yes more ↦ inl (record {
      in_order = order;
      current = ground arith;
      held = λ p. ground (arith, wake_free s v);
    })
    | no last ↦ inr (ground arith, ground (arith, alone (wake s) woken within last (wake_free s v)))
  ],
  refl,
)
  where
    woken : InOrder (wake s).rq_current (wake s)
    woken = subst (λ k. InOrder k (wake s)) (sym (rq_current-wake s)) (wake-InOrder (omega arith) v)

    within : (wake s).rq_current < (wake s).rq_size
    within = omega (arith, rq_current-wake s, rq_size-wake s)

    order : InOrder none_skipped (retire (wake s))
    order = retire-InOrder within woken
