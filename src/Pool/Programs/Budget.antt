-- ===== src/Pool/Programs/Budget.antt =====
-- A rank for a program of HW4 and its pool, and what the moves do to it.
use ntu_systems_programming.Prelude.{
  arith, ℕ, ◌+◌, ◌*◌, ◌<◌, ◌≤◌, ◌≡◌, inl, inr, ap, ◌∙◌, Bool, true, false, List, [], ◌∷◌,
  sum_range-le, length, length-append, Bool-cases,
}
use ntu_systems_programming.Pool.Types.{
  Task, ClientPc, add_enter, add_locked, System, rouse, enqueue,
}
use ntu_systems_programming.Pool.Steps.{Step, add}
use ntu_systems_programming.Pool.Invariant.Moves.{enqueue-append}
use ntu_systems_programming.Pool.Invariant.Guards.{guard}
use ntu_systems_programming.Pool.Ranks.{quiet, inner, worker_rank, rank, work_decreases}
use ntu_systems_programming.Pool.Programs.{
  Statement, adds, waits, destroys, Machine, is_call, Move, step, call,
}

-- What a task in hand will add to the rank.
abbrev pub owed : ℕ → ClientPc → ℕ
owed n (add_enter _) = 2 * n + 9
owed n (add_locked _) = 2 * n + 9
owed n _ = 0

abbrev pub cost : ℕ → Statement → ℕ
cost n (adds _) = 2 * n + 12
cost n waits = 3
cost n destroys = 3 * n + 5

abbrev pub costs : ℕ → List Statement → ℕ
costs n [] = 0
costs n (c ∷ cs) = cost n c + costs n cs

abbrev pub program_rank : ℕ → Machine → ℕ
program_rank n m = rank n m.system + owed n m.system.caller + costs n m.todo

-- No condition variable wakes a thread without a signal.
abbrev pub quiet_move : {n : ℕ} {m k : Machine} → Move n m k → Bool
quiet_move (step st _) = quiet st
quiet_move (call _ _ _ _) = true

length-enqueue : (q : List Task) (x : Task) → length (enqueue q x) ≡ length q + 1
length-enqueue q x = ap length (enqueue-append q x) ∙ length-append q (x ∷ [])

owed_kept :
    {n : ℕ} {s t : System} (st : Step n s t) → inner st ≡ true → owed n t.caller ≤ owed n s.caller
owed_kept (add x c) i = absurd (ground arith)
owed_kept st i = ground (arith, guard st)

-- The critical section of `tpool_add`.
add_nearer :
    {n : ℕ} {s t : System} (st : Step n s t)
    → quiet st ≡ true
    → is_call st ≡ false
    → inner st ≡ false
    → rank n t + owed n t.caller < rank n s + owed n s.caller
add_nearer {n} {s} (add x c) q f i = ground (
  arith,
  c,
  length-enqueue s.task_queue x,
  sum_range-le n 0 2 (λ i. worker_rank (rouse (s.threads i))) (λ i. worker_rank (s.threads i))
      (λ i. ground arith),
)
add_nearer st q f i = absurd (ground arith)

step_nearer :
    {n : ℕ} {s t : System} (st : Step n s t)
    → quiet st ≡ true
    → is_call st ≡ false
    → rank n t + owed n t.caller < rank n s + owed n s.caller
step_nearer st q f = elim (Bool-cases (inner st)) [
  | inl i ↦ omega (arith, work_decreases st i, owed_kept st i)
  | inr i ↦ add_nearer st q f i
]

pub Move-nearer :
    {n : ℕ} {m k : Machine} (mv : Move n m k)
    → quiet_move mv ≡ true
    → program_rank n k < program_rank n m
Move-nearer (step st f) q = omega (arith, step_nearer st q f)
Move-nearer (call (adds x) rest c e) q = ground (arith, ap (costs _) e)
Move-nearer (call waits rest c e) q = ground (arith, ap (costs _) e)
Move-nearer (call destroys rest c e) q = ground (arith, ap (costs _) e)
