-- ===== src/Threads/Queues.antt =====
-- What keeps the two queues of HW3 and the bank's lock in order between two turns.
pub mod Moves
pub mod Turn
use ntu_systems_programming.Prelude.{ℕ, ◌+◌, ◌≤◌, ◌<◌, ◌≡◌, ◌≢◌, Bool, true, false}
use ntu_systems_programming.Threads.Word.{minus_one}
use ntu_systems_programming.Threads.Types.{Point, Tcb, System}

-- A thread at such a point has the lock, or has been woken to have it.
abbrev pub critical : Point → Bool
critical Point.bank_locked = true
critical Point.bank_update = true
critical Point.bank_release = true
critical _ = false

abbrev pub ready : System → ℕ → Tcb
ready s k = s.heap (s.ready_queue k)

abbrev pub waiting : System → ℕ → Tcb
waiting s k = s.heap (s.waiting_queue k)

-- The lock's owner stands in the ready queue, elsewhere than at the index `skip`.
abbrev pub Owner : ℕ → System → Type 0
Owner skip s =
    (k : ℕ) × (k < s.rq_size)
    × (k ≢ skip)
    × (critical (ready s k).environment ≡ true)
    × ((ready s k).id ≡ s.bank.lock_owner)

-- `skip` is the index of a thread that has just called `longjmp(sched_buf, 2)` or `(…, 3)` and is
-- to leave the ready queue; an index past the queue skips nothing.
pub record InOrder (skip : ℕ) (s : System) : Type 0 where
  pub few : s.rq_size + s.wq_size ≤ 4
  pub ready_live : (k : ℕ) → k < s.rq_size → s.allocated (s.ready_queue k) ≡ true
  pub waiting_live : (k : ℕ) → k < s.wq_size → s.allocated (s.waiting_queue k) ≡ true
  pub ready_apart :
      (j k : ℕ) → j < s.rq_size → k < s.rq_size → (ready s j).id ≡ (ready s k).id → j ≡ k
  pub waiting_apart :
      (j k : ℕ) → j < s.wq_size → k < s.wq_size → (waiting s j).id ≡ (waiting s k).id → j ≡ k
  pub cross_apart : (j k : ℕ) → j < s.rq_size → k < s.wq_size → (ready s j).id ≢ (waiting s k).id
  pub ready_small : (k : ℕ) → k < s.rq_size → (ready s k).id < 4
  pub waiting_small : (k : ℕ) → k < s.wq_size → (waiting s k).id < 4
  pub parked : (k : ℕ) → k < s.wq_size → (waiting s k).environment ≡ Point.bank_locked
  pub exclusive :
      (k : ℕ)
      → k < s.rq_size
      → k ≢ skip
      → critical (ready s k).environment ≡ true
      → (ready s k).id ≡ s.bank.lock_owner
  pub owned : s.bank.lock_owner ≢ minus_one → Owner skip s
