-- ===== src/Threads/Totals/Starts.antt =====
-- The sum of a weight over the threads that `init_threads` of HW3/main.c makes.
use ntu_systems_programming.Prelude.{
  ℕ, ◌+◌, ◌<◌, ◌≡◌, refl, ap, ◌∙◌, Bool, true, false, arith, ◌==◌, not, if◌then◌else◌, sum_range,
  sum_range-push, sum_range-agree, update,
}
use ntu_systems_programming.Threads.Word.{is_positive}
use ntu_systems_programming.Threads.Types.{Point, fib_start, fact_start, bank_start, Tcb, System}
use ntu_systems_programming.Threads.Machine.{start, thread_setup, init_threads, globals}
use ntu_systems_programming.Threads.Queues.{ready}
use ntu_systems_programming.Threads.Totals.{total}

-- The block that `thread_setup` fills.
abbrev pub new_thread : Point → ℕ → ℕ → Tcb
new_thread p id arg = record { id = id; environment = p; arg = arg; i = 0; x = 0; y = 0 }

-- The weights of the threads that the arguments of `main` ask for.
abbrev pub asked_total : (Tcb → ℕ) → ℕ → ℕ → ℕ → ℕ → ℕ
asked_total w f g a b =
    (if is_positive f then w (new_thread fib_start 0 f) else 0)
    + (if is_positive g then w (new_thread fact_start 1 g) else 0)
    + (if not (a == 0) then w (new_thread bank_start 2 a) else 0)
    + (if not (b == 0) then w (new_thread bank_start 3 b) else 0)

module _ (w : Tcb → ℕ) where
  -- The blocks of the ready threads lie below `brk`.
  record IsReady (n : ℕ) (s : System) : Type 0 where
    amount : total w s ≡ n
    nobody : s.wq_size ≡ 0
    below : (k : ℕ) → k < s.rq_size → s.ready_queue k < s.brk

  thread_setup-IsReady :
      (p : Point) (id arg n : ℕ) {s : System}
      → IsReady n s
      → IsReady (n + w (new_thread p id arg)) (thread_setup p id arg s)
  unfolding thread_setup sum_range
  thread_setup-IsReady p id arg n {s} v = record {
    amount = ground (
      arith,
      v.amount,
      v.nobody,
      sum_range-push (λ a. w (heap a)) s.rq_size s.ready_queue s.brk,
      sum_range-agree s.rq_size 0 (λ k. w (heap (s.ready_queue k))) (λ k. w (ready s k))
          (λ k b q. ap w (kept k q)),
      ap w fresh,
    );
    nobody = v.nobody;
    below = λ k q. ground (arith, v.below k);
  }
    where
      heap : ℕ → Tcb
      heap = update s.heap s.brk (new_thread p id arg)

      fresh : heap s.brk ≡ new_thread p id arg
      fresh = ground arith

      kept : (k : ℕ) → k < 0 + s.rq_size → heap (s.ready_queue k) ≡ ready s k
      kept k q = ground (arith, v.below k)

  -- One `if` of `init_threads`.
  setup_if-IsReady :
      (b : Bool) (p : Point) (id arg n : ℕ) {s : System}
      → IsReady n s
      → IsReady
          (n + (if b then w (new_thread p id arg) else 0))
          (if b then thread_setup p id arg s else s)
  setup_if-IsReady true p id arg n v = thread_setup-IsReady p id arg n v
  setup_if-IsReady false p id arg n v = record {
    amount = omega (arith, v.amount);
    nobody = v.nobody;
    below = v.below;
  }

  globals-IsReady : IsReady 0 globals
  unfolding sum_range
  globals-IsReady = record { amount = refl; nobody = refl; below = λ k h. absurd (omega arith) }

  init_threads-total :
      (f g a b : ℕ) → total w (init_threads f g a b globals) ≡ asked_total w f g a b
  unfolding init_threads
  init_threads-total f g a b =
      (setup_if-IsReady (not (b == 0)) bank_start 3 b _ (
        setup_if-IsReady (not (a == 0)) bank_start 2 a _ (
          setup_if-IsReady (is_positive g) fact_start 1 g _
            (setup_if-IsReady (is_positive f) fib_start 0 f _ globals-IsReady)))).amount
      ∙ ap (λ x. x + second + third + fourth)
          (zero_add (if is_positive f then w (new_thread fib_start 0 f) else 0))
    where
      second : ℕ
      second = if is_positive g then w (new_thread fact_start 1 g) else 0

      third : ℕ
      third = if not (a == 0) then w (new_thread bank_start 2 a) else 0

      fourth : ℕ
      fourth = if not (b == 0) then w (new_thread bank_start 3 b) else 0

      zero_add : (x : ℕ) → 0 + x ≡ x
      zero_add x = omega arith

  pub start-total : (f g a b : ℕ) → total w (start f g a b) ≡ asked_total w f g a b
  unfolding start
  start-total f g a b = init_threads-total f g a b
