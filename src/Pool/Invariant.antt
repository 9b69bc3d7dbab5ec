-- ===== src/Pool/Invariant.antt =====
-- What holds in every state of the pool of HW4, whatever the interleaving.
pub mod Guards
pub mod Moves
use ntu_systems_programming.Prelude.{
  ℕ, suc, ◌+◌, ◌<◌, ◌≡◌, ◌≢◌, ◌⊎◌, Bool, true, false, List, [], ◌∷◌, ◌++◌, if◌then◌else◌, sum_range,
}
use ntu_systems_programming.Pool.Types.{
  Task, client, worker, WorkerPc, checking, sleeping, working, finished, reporting, exited,
  ClientPc, add_locked, wait_locked, wait_asleep, destroy_locked, joining, destroyed, System,
  same_task,
}

abbrev pub worker_holds : WorkerPc → Bool
worker_holds checking = true
worker_holds reporting = true
worker_holds _ = false

abbrev pub client_holds : ClientPc → Bool
client_holds (add_locked _) = true
client_holds wait_locked = true
client_holds destroy_locked = true
client_holds _ = false

-- A worker that will look at the queue, and tell the client if it is empty.
abbrev pub will_report : WorkerPc → Bool
will_report (working _) = true
will_report finished = true
will_report reporting = true
will_report _ = false

abbrev pub destroying : ClientPc → Bool
destroying (joining _) = true
destroying destroyed = true
destroying _ = false

-- How often a worker at this point is executing the task.
abbrev pub executing : Task → WorkerPc → ℕ
executing task (working t) = if same_task task t then 1 else 0
executing task _ = 0

-- How many of the first `n` workers are executing the task.
abbrev pub executions : Task → ℕ → (ℕ → WorkerPc) → ℕ
executions task n threads = sum_range n 0 (λ i. executing task (threads i))

-- How often the list has the task.
abbrev pub times : List Task → Task → ℕ
times [] task = 0
times (t ∷ rest) task = let more = times rest task in if same_task task t then suc more else more

-- A worker below `n` that will report.
abbrev pub Reporter : ℕ → System → Type 0
Reporter n s = (i : ℕ) × (i < n) × (will_report (s.threads i) ≡ true)

pub record Inv (n : ℕ) (s : System) : Type 0 where
  pub worker_lock_held : (i : ℕ) → worker_holds (s.threads i) ≡ true → s.queue_lock ≡ worker i
  pub client_lock_held : client_holds s.caller ≡ true → s.queue_lock ≡ client
  pub idle : (i : ℕ) → s.threads i ≡ sleeping → (s.task_queue ≡ []) × (s.stop ≡ false)
  pub fifo : s.taken ++ s.task_queue ≡ s.added
  pub served :
      (task : Task) → times s.taken task ≡ times s.executed task + executions task n s.threads
  pub told : s.caller ≡ wait_asleep → (s.task_queue ≢ []) ⊎ Reporter n s
  pub stopped : s.stop ≡ destroying s.caller
  pub gone : (k i : ℕ) → s.caller ≡ joining k → i < k → s.threads i ≡ exited
  pub all_gone : (i : ℕ) → s.caller ≡ destroyed → i < n → s.threads i ≡ exited
