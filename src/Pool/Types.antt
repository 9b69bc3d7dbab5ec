-- ===== src/Pool/Types.antt =====
-- The state of a `tpool`, and where each of its threads stands.
use ntu_systems_programming.Prelude.{ℕ, Bool, true, false, List, [], ◌∷◌, ◌&&◌, ◌==◌}

-- `struct tpool_task`; its `next` is the rest of the list.
pub record Task : Type 0 where
  pub func : ℕ
  pub arg : ℕ

-- Who holds `queue_lock`.
pub data Holder : Type 0 where
  nobody : Holder
  client : Holder
  worker : ℕ → Holder

-- `tpool_worker`, between two accesses of shared memory.
pub data WorkerPc : Type 0 where
  entry : WorkerPc  -- before the first `pthread_mutex_lock`
  checking : WorkerPc  -- at the test of the `while`, with the lock
  sleeping : WorkerPc  -- in `pthread_cond_wait(&queue_not_empty)`
  woken : WorkerPc  -- out of it, before it has the lock again
  working : Task → WorkerPc  -- at `task->func(task->arg)`
  finished : WorkerPc  -- before the second `pthread_mutex_lock`
  reporting : WorkerPc  -- at the test of the queue, with the lock
  exited : WorkerPc

-- The thread that calls `tpool_add`, `tpool_wait` and `tpool_destroy`.
pub data ClientPc : Type 0 where
  between : ClientPc  -- in no call
  add_enter : Task → ClientPc
  add_locked : Task → ClientPc
  wait_enter : ClientPc
  wait_locked : ClientPc
  wait_asleep : ClientPc  -- in `pthread_cond_wait(&queue_empty)`
  wait_woken : ClientPc
  destroy_enter : ClientPc
  destroy_locked : ClientPc
  joining : ℕ → ClientPc  -- at `pthread_join(threads[i])`
  destroyed : ClientPc

-- A `tpool` with its threads. `added`, `taken` and `executed` record what has passed through it.
pub record System : Type 0 where
  pub task_queue : List Task
  pub queue_lock : Holder
  pub stop : Bool
  pub threads : ℕ → WorkerPc
  pub caller : ClientPc
  pub added : List Task
  pub taken : List Task
  pub executed : List Task

-- `pthread_cond_broadcast(&queue_not_empty)`, as one sleeping worker sees it.
abbrev pub rouse : WorkerPc → WorkerPc
rouse sleeping = woken
rouse p = p

-- `pthread_cond_signal(&queue_empty)`: only the client waits for it.
abbrev pub notify : ClientPc → ClientPc
notify wait_asleep = wait_woken
notify c = c

-- The loop of `tpool_add` that walks to the last node, and the store to its `next`.
unfoldable pub link_last : Task → List Task → Task → List Task
link_last curr [] new_task = curr ∷ new_task ∷ []
link_last curr (next ∷ rest) new_task = curr ∷ link_last next rest new_task

unfoldable pub enqueue : List Task → Task → List Task
unfolding link_last
enqueue [] new_task = new_task ∷ []
enqueue (head ∷ rest) new_task = link_last head rest new_task

abbrev pub is_nil : List Task → Bool
is_nil [] = true
is_nil (_ ∷ _) = false

-- What `tpool_init` returns: every worker is about to enter its loop.
abbrev pub tpool_init : System
tpool_init = record {
  task_queue = [];
  queue_lock = nobody;
  stop = false;
  threads = λ _. entry;
  caller = between;
  added = [];
  taken = [];
  executed = [];
}

abbrev pub same_task : Task → Task → Bool
same_task t u = t.func == u.func && t.arg == u.arg
