-- ===== src/Threads/Startup.antt =====
-- `init_threads` and `main` of HW3/main.c: the threads that the arguments ask for, all of them ready.
use ntu_systems_programming.Prelude.{
  ℕ, ◌+◌, ◌≤◌, ◌<◌, ◌≡◌, refl, Bool, true, false, ◌==◌, arith, not, if◌then◌else◌,
}
use ntu_systems_programming.Threads.Word.{minus_one, is_positive}
use ntu_systems_programming.Threads.Types.{Point, fib_start, fact_start, bank_start, System}
use ntu_systems_programming.Threads.Machine.{thread_setup, init_threads, globals, start}
use ntu_systems_programming.Threads.Queues.{InOrder, ready, critical}
use ntu_systems_programming.Threads.Queues.Moves.{none_skipped, rq_current-InOrder}
use ntu_systems_programming.Threads.Safety.{Good}

-- Threads with ids below `n` are ready, in blocks below `brk`, and none has been near the lock.
record IsFresh (n : ℕ) (s : System) : Type 0 where
  size : s.rq_size ≤ n
  nobody : s.wq_size ≡ 0
  free : s.bank.lock_owner ≡ minus_one
  live : (k : ℕ) → k < s.rq_size → s.allocated (s.ready_queue k) ≡ true
  below : (k : ℕ) → k < s.rq_size → s.ready_queue k < s.brk
  small : (k : ℕ) → k < s.rq_size → (ready s k).id < n
  apart : (j k : ℕ) → j < s.rq_size → k < s.rq_size → (ready s j).id ≡ (ready s k).id → j ≡ k
  outside : (k : ℕ) → k < s.rq_size → critical (ready s k).environment ≡ false

thread_setup-IsFresh :
    (p : Point) (n arg : ℕ) {s : System}
    → critical p ≡ false
    → IsFresh n s
    → IsFresh (n + 1) (thread_setup p n arg s)
unfolding thread_setup
thread_setup-IsFresh p n arg c v = record {
  size = ground arith;
  nobody = v.nobody;
  free = v.free;
  live = λ k h. ground (arith, v.live k, v.below k);
  below = λ k h. ground (arith, v.below k);
  small = λ k h. ground (arith, v.small k, v.below k);
  apart = λ j k h i e. ground (arith, v.apart j k, v.below j, v.below k, v.small j, v.small k);
  outside = λ k h. ground (arith, v.outside k, v.below k);
}

IsFresh-mono : {n : ℕ} {s : System} → IsFresh n s → IsFresh (n + 1) s
IsFresh-mono v = record {
  size = ground arith;
  nobody = v.nobody;
  free = v.free;
  live = v.live;
  below = v.below;
  small = λ k h. ground (arith, v.small k);
  apart = v.apart;
  outside = v.outside;
}

-- One `if` of `init_threads`.
setup_if-IsFresh :
    (b : Bool) (p : Point) (n arg : ℕ) {s : System}
    → critical p ≡ false
    → IsFresh n s
    → IsFresh (n + 1) (if b then thread_setup p n arg s else s)
setup_if-IsFresh true p n arg c v = thread_setup-IsFresh p n arg c v
setup_if-IsFresh false p n arg c v = IsFresh-mono v

globals-IsFresh : IsFresh 0 globals
globals-IsFresh = record {
  size = omega arith;
  nobody = refl;
  free = refl;
  live = λ k h. absurd (omega arith);
  below = λ k h. absurd (omega arith);
  small = λ k h. absurd (omega arith);
  apart = λ j k h i e. absurd (omega arith);
  outside = λ k h. absurd (omega arith);
}

init_threads-IsFresh : (f g a b : ℕ) → IsFresh 4 (init_threads f g a b globals)
unfolding init_threads
init_threads-IsFresh f g a b = setup_if-IsFresh (not (b == 0)) bank_start 3 b refl (
    setup_if-IsFresh (not (a == 0)) bank_start 2 a refl (
      setup_if-IsFresh (is_positive g) fact_start 1 g refl
        (setup_if-IsFresh (is_positive f) fib_start 0 f refl globals-IsFresh)))

IsFresh-InOrder : {s : System} → IsFresh 4 s → InOrder none_skipped s
IsFresh-InOrder v = record {
  few = ground (arith, v.size);
  ready_live = v.live;
  waiting_live = λ k h. absurd (omega (arith, v.nobody));
  ready_apart = v.apart;
  waiting_apart = λ j k h i e. absurd (omega (arith, v.nobody));
  cross_apart = λ j k h i e. omega (arith, v.nobody);
  ready_small = v.small;
  waiting_small = λ k h. absurd (omega (arith, v.nobody));
  parked = λ k h. absurd (omega (arith, v.nobody));
  exclusive = λ k h n c. absurd (ground (arith, v.outside k));
  owned = λ n. absurd (n v.free);
}

-- How many threads the arguments ask for.
abbrev pub asked : ℕ → ℕ → ℕ → ℕ → ℕ
asked f g a b =
    (if is_positive f then 1 else 0)
    + (if is_positive g then 1 else 0)
    + (if a == 0 then 0 else 1)
    + (if b == 0 then 0 else 1)

pub rq_size-start : (f g a b : ℕ) → (start f g a b).rq_size ≡ asked f g a b
unfolding start thread_setup
rq_size-start f g a b = ground arith

-- When `main` makes its first jump, with a thread asked for, every thread that was asked for is ready,
-- with an id of its own, the lock is free, and the queues are in order.
pub start-Good : (f g a b : ℕ) → 0 < asked f g a b → Good (start f g a b)
unfolding start
start-Good f g a b h = record {
  in_order = rq_current-InOrder 0 (IsFresh-InOrder (init_threads-IsFresh f g a b));
  current = omega (arith, rq_size-start f g a b);
  held = λ p. absurd (omega (arith, (init_threads-IsFresh f g a b).nobody));
}
