-- ===== src/Threads/Totals.antt =====
-- Sums over the threads in both queues of HW3, of any weight of a thread, and the steps of `scheduler`.
pub mod Turns
pub mod Starts
use ntu_systems_programming.Prelude.{
  ℕ, zero, suc, ◌+◌, ◌-◌, ◌<◌, ◌≡◌, ◌≢◌, refl, ap, sym, arith, sum_range, sum_range-agree,
  sum_range-push, sum_range-pop, sum_range-swap_out, sum_range-differ, List,
}
use ntu_systems_programming.Threads.Types.{Tcb, Bank, System, running, Signals, Line}
use ntu_systems_programming.Threads.Scheduler.{shift_from, wake, park, retire, advance}
use ntu_systems_programming.Threads.Queues.{InOrder, ready, waiting}
use ntu_systems_programming.Threads.Queues.Moves.{none_skipped, shift_from_lem}
use ntu_systems_programming.Threads.Queues.Turn.{after, ready_kept, waiting_kept}

abbrev pub total : (Tcb → ℕ) → System → ℕ
total w s =
    sum_range s.rq_size 0 (λ k. w (ready s k)) + sum_range s.wq_size 0 (λ k. w (waiting s k))

sum_range-suc : (n lo : ℕ) (g : ℕ → ℕ) → sum_range n (suc lo) g ≡ sum_range n lo (λ k. g (k + 1))
unfolding sum_range
sum_range-suc zero lo g = refl
sum_range-suc (suc n) lo g =
    omega (arith, sum_range-suc n (suc lo) g, ap g (let e : suc lo ≡ lo + 1 = omega arith in e))

-- The queue behind its first element.
sum_range-rest :
    (n : ℕ) (g : ℕ → ℕ) → 0 < n → g 0 + sum_range (n - 1) 0 (λ k. g (k + 1)) ≡ sum_range n 0 g
unfolding sum_range
sum_range-rest zero g p = absurd (omega arith)
sum_range-rest (suc n) g p = omega (
  arith,
  sum_range-suc n 0 g,
  ap (λ m. sum_range m 0 (λ k. g (k + 1))) (let e : suc n - 1 ≡ n = omega arith in e),
)

module _ (w : Tcb → ℕ) (s : System) where
  shifted_sum :
      sum_range (s.wq_size - 1) 0 (λ k. w (s.heap (shift_from (s.wq_size - 1) 0 s.waiting_queue k)))
      ≡ sum_range (s.wq_size - 1) 0 (λ k. w (waiting s (k + 1)))
  shifted_sum = sum_range-agree (s.wq_size - 1) 0 _ _ (λ k p q.
      ap (λ a. w (s.heap a)) (ground (arith, shift_from_lem (s.wq_size - 1) 0 s.waiting_queue k)))

  pub total-wake : total w (wake s) ≡ total w s
  unfolding wake
  total-wake = ground (
    arith,
    shifted_sum,
    sum_range-rest s.wq_size (λ k. w (waiting s k)),
    sum_range-push (λ a. w (s.heap a)) s.rq_size s.ready_queue (s.waiting_queue 0),
  )

  -- The running thread goes from one queue to the other.
  pub total-park : s.rq_current < s.rq_size → total w (park s) ≡ total w s
  unfolding park
  total-park c = ground (
    arith,
    sum_range-push (λ a. w (s.heap a)) s.wq_size s.waiting_queue (running s),
    sum_range-pop (λ a. w (s.heap a)) s.rq_size s.ready_queue,
    sum_range-swap_out (λ a. w (s.heap a)) s.rq_size s.ready_queue s.rq_current c,
  )

  pub total-retire :
      s.rq_current < s.rq_size → total w (retire s) + w (ready s s.rq_current) ≡ total w s
  unfolding retire
  total-retire c = ground (
    arith,
    sum_range-pop (λ a. w (s.heap a)) s.rq_size s.ready_queue,
    sum_range-swap_out (λ a. w (s.heap a)) s.rq_size s.ready_queue s.rq_current c,
  )

  pub total-advance : total w (advance s) ≡ total w s
  unfolding advance
  total-advance = refl

-- The running thread's block has changed.
pub total-after :
    (w : Tcb → ℕ) (s : System) (v : InOrder none_skipped s) (c : s.rq_current < s.rq_size)
    (h' : ℕ → Tcb) (b' : Bank) (g : Signals) (o : List Line)
    (others : (a : ℕ) → a ≢ running s → h' a ≡ s.heap a)
    (same : (h' (running s)).id ≡ (ready s s.rq_current).id)
    → total w (after s v c h' b' g o others same) + w (ready s s.rq_current)
      ≡ total w s + w (h' (running s))
total-after w s v c h' b' g o others same = omega (
  arith,
  sum_range-differ s.rq_size 0 (λ k. w (ready s k))
      (λ k. w (ready (after s v c h' b' g o others same) k)) s.rq_current
      (λ j b p ne. ap w (sym (ready_kept s v c h' b' g o others same j (omega arith) ne)))
      (omega arith) (omega arith),
  sum_range-agree s.wq_size 0 (λ k. w (waiting (after s v c h' b' g o others same) k))
      (λ k. w (waiting s k))
      (λ j b p. ap w (waiting_kept s v c h' b' g o others same j (omega arith))),
)
