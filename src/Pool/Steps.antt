-- ===== src/Pool/Steps.antt =====
-- The steps of the pool's threads, in any interleaving. A critical section that ends in `unlock` or
-- in `pthread_cond_wait` is one step, since every access of the queue and of `stop` is under the lock.
use ntu_systems_programming.Prelude.{
  ℕ, ◌+◌, ◌<◌, ◌≡◌, true, false, List, [], ◌∷◌, ◌++◌, if◌then◌else◌, update,
}
use ntu_systems_programming.Pool.Types.{
  Task, nobody, client, worker, WorkerPc, entry, checking, sleeping, woken, working, finished,
  reporting, exited, ClientPc, between, add_enter, add_locked, wait_enter, wait_locked, wait_asleep,
  wait_woken, destroy_enter, destroy_locked, joining, destroyed, System, rouse, notify, enqueue,
  is_nil, tpool_init,
}

-- `pthread_mutex_lock` of worker `i`, which goes on to `p`.
abbrev pub worker_lock : ℕ → WorkerPc → System → System
worker_lock i p s = record s { queue_lock = worker i; threads = update s.threads i p }

-- Worker `i` finds no task and no `stop`, and waits.
abbrev pub worker_sleep : ℕ → System → System
worker_sleep i s = record s { queue_lock = nobody; threads = update s.threads i sleeping }

-- Worker `i` finds `stop` set: `pthread_exit`.
abbrev pub worker_exit : ℕ → System → System
worker_exit i s = record s { queue_lock = nobody; threads = update s.threads i exited }

-- Worker `i` takes the first task of the queue.
abbrev pub worker_take : ℕ → Task → List Task → System → System
worker_take i task rest s = record s {
  task_queue = rest;
  queue_lock = nobody;
  threads = update s.threads i (working task);
  taken = s.taken ++ (task ∷ []);
}

-- `task->func(task->arg)`, and the `free` of the node.
abbrev pub worker_run : ℕ → Task → System → System
worker_run i task s = record s {
  threads = update s.threads i finished;
  executed = s.executed ++ (task ∷ []);
}

-- The end of the loop: the client is told if the queue is empty.
abbrev pub worker_report : ℕ → System → System
worker_report i s = record s {
  queue_lock = nobody;
  threads = update s.threads i entry;
  caller = if is_nil s.task_queue then notify s.caller else s.caller;
}

-- The critical section of `tpool_add`; it broadcasts if the queue was empty.
abbrev pub tpool_add : Task → System → System
tpool_add task s = record s {
  task_queue = enqueue s.task_queue task;
  queue_lock = nobody;
  threads = if is_nil s.task_queue then (λ i. rouse (s.threads i)) else s.threads;
  caller = between;
  added = s.added ++ (task ∷ []);
}

-- The test of the `while` of `tpool_wait`: it returns, or waits for `queue_empty`.
abbrev pub tpool_wait : System → System
tpool_wait s = record s {
  queue_lock = nobody;
  caller = if is_nil s.task_queue then between else wait_asleep;
}

-- The critical section of `tpool_destroy`.
abbrev pub tpool_destroy : System → System
tpool_destroy s = record s {
  queue_lock = nobody;
  stop = true;
  threads = λ i. rouse (s.threads i);
  caller = joining 0;
}

abbrev pub client_at : ClientPc → System → System
client_at c s = record s { caller = c }

abbrev pub client_lock : ClientPc → System → System
client_lock c s = record s { queue_lock = client; caller = c }

-- One step of a pool with `n` workers.
pub data Step (n : ℕ) (s : System) : System → Type 0 where
  enter :
      (i : ℕ)
      → i < n
      → s.threads i ≡ entry
      → s.queue_lock ≡ nobody
      → Step n s (worker_lock i checking s)
  reenter :
      (i : ℕ)
      → i < n
      → s.threads i ≡ woken
      → s.queue_lock ≡ nobody
      → Step n s (worker_lock i checking s)
  sleep :
      (i : ℕ)
      → i < n
      → s.threads i ≡ checking
      → s.task_queue ≡ []
      → s.stop ≡ false
      → Step n s (worker_sleep i s)
  spurious :
      (i : ℕ)
      → i < n
      → s.threads i ≡ sleeping
      → Step n s (record s { threads = update s.threads i woken })
  leave : (i : ℕ) → i < n → s.threads i ≡ checking → s.stop ≡ true → Step n s (worker_exit i s)
  take :
      (i : ℕ) (task : Task) (rest : List Task)
      → i < n
      → s.threads i ≡ checking
      → s.stop ≡ false
      → s.task_queue ≡ task ∷ rest
      → Step n s (worker_take i task rest s)
  run : (i : ℕ) (task : Task) → i < n → s.threads i ≡ working task → Step n s (worker_run i task s)
  finish :
      (i : ℕ)
      → i < n
      → s.threads i ≡ finished
      → s.queue_lock ≡ nobody
      → Step n s (worker_lock i reporting s)
  report : (i : ℕ) → i < n → s.threads i ≡ reporting → Step n s (worker_report i s)
  call_add : (task : Task) → s.caller ≡ between → Step n s (client_at (add_enter task) s)
  lock_add :
      (task : Task)
      → s.caller ≡ add_enter task
      → s.queue_lock ≡ nobody
      → Step n s (client_lock (add_locked task) s)
  add : (task : Task) → s.caller ≡ add_locked task → Step n s (tpool_add task s)
  call_wait : s.caller ≡ between → Step n s (client_at wait_enter s)
  lock_wait : s.caller ≡ wait_enter → s.queue_lock ≡ nobody → Step n s (client_lock wait_locked s)
  relock_wait : s.caller ≡ wait_woken → s.queue_lock ≡ nobody → Step n s (client_lock wait_locked s)
  wait : s.caller ≡ wait_locked → Step n s (tpool_wait s)
  spurious_wait : s.caller ≡ wait_asleep → Step n s (client_at wait_woken s)
  call_destroy : s.caller ≡ between → Step n s (client_at destroy_enter s)
  lock_destroy :
      s.caller ≡ destroy_enter → s.queue_lock ≡ nobody → Step n s (client_lock destroy_locked s)
  destroy : s.caller ≡ destroy_locked → Step n s (tpool_destroy s)
  join :
      (i : ℕ)
      → s.caller ≡ joining i
      → i < n
      → s.threads i ≡ exited
      → Step n s (client_at (joining (i + 1)) s)
  joined : s.caller ≡ joining n → Step n s (client_at destroyed s)

pub data Reach (n : ℕ) : System → Type 0 where
  init : Reach n tpool_init
  next : {s t : System} → Reach n s → Step n s t → Reach n t
