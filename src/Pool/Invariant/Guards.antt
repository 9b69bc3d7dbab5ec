-- ===== src/Pool/Invariant/Guards.antt =====
-- The premises of each step, for the clauses that treat all the steps alike.
use ntu_systems_programming.Prelude.{ℕ, ◌<◌, ◌≡◌, true, false, [], ◌∷◌}
use ntu_systems_programming.Pool.Types.{
  nobody, entry, checking, sleeping, woken, working, finished, reporting, exited, between,
  add_enter, add_locked, wait_enter, wait_locked, wait_asleep, wait_woken, destroy_enter,
  destroy_locked, joining, System,
}
use ntu_systems_programming.Pool.Steps.{
  Step, enter, reenter, sleep, spurious, leave, take, run, finish, report, call_add, lock_add, add,
  call_wait, lock_wait, relock_wait, wait, spurious_wait, call_destroy, lock_destroy, destroy, join,
  joined,
}

abbrev pub Guard : {n : ℕ} {s t : System} → Step n s t → Type 0
Guard {n} {s} (enter i _ _ _) = (i < n) × (s.threads i ≡ entry) × (s.queue_lock ≡ nobody)
Guard {n} {s} (reenter i _ _ _) = (i < n) × (s.threads i ≡ woken) × (s.queue_lock ≡ nobody)
Guard {n} {s} (sleep i _ _ _ _) =
    (i < n) × (s.threads i ≡ checking) × (s.task_queue ≡ []) × (s.stop ≡ false)
Guard {n} {s} (spurious i _ _) = (i < n) × (s.threads i ≡ sleeping)
Guard {n} {s} (leave i _ _ _) = (i < n) × (s.threads i ≡ checking) × (s.stop ≡ true)
Guard {n} {s} (take i task rest _ _ _ _) =
    (i < n) × (s.threads i ≡ checking) × (s.stop ≡ false) × (s.task_queue ≡ task ∷ rest)
Guard {n} {s} (run i task _ _) = (i < n) × (s.threads i ≡ working task)
Guard {n} {s} (finish i _ _ _) = (i < n) × (s.threads i ≡ finished) × (s.queue_lock ≡ nobody)
Guard {n} {s} (report i _ _) = (i < n) × (s.threads i ≡ reporting)
Guard {n} {s} (call_add _ _) = s.caller ≡ between
Guard {n} {s} (lock_add task _ _) = (s.caller ≡ add_enter task) × (s.queue_lock ≡ nobody)
Guard {n} {s} (add task _) = s.caller ≡ add_locked task
Guard {n} {s} (call_wait _) = s.caller ≡ between
Guard {n} {s} (lock_wait _ _) = (s.caller ≡ wait_enter) × (s.queue_lock ≡ nobody)
Guard {n} {s} (relock_wait _ _) = (s.caller ≡ wait_woken) × (s.queue_lock ≡ nobody)
Guard {n} {s} (wait _) = s.caller ≡ wait_locked
Guard {n} {s} (spurious_wait _) = s.caller ≡ wait_asleep
Guard {n} {s} (call_destroy _) = s.caller ≡ between
Guard {n} {s} (lock_destroy _ _) = (s.caller ≡ destroy_enter) × (s.queue_lock ≡ nobody)
Guard {n} {s} (destroy _) = s.caller ≡ destroy_locked
Guard {n} {s} (join i _ _ _) = (s.caller ≡ joining i) × (i < n) × (s.threads i ≡ exited)
Guard {n} {s} (joined _) = s.caller ≡ joining n

pub guard : {n : ℕ} {s t : System} (st : Step n s t) → Guard st
guard (enter _ p q r) = (p, q, r)
guard (reenter _ p q r) = (p, q, r)
guard (sleep _ p q r u) = (p, q, r, u)
guard (spurious _ p q) = (p, q)
guard (leave _ p q r) = (p, q, r)
guard (take _ _ _ p q r u) = (p, q, r, u)
guard (run _ _ p q) = (p, q)
guard (finish _ p q r) = (p, q, r)
guard (report _ p q) = (p, q)
guard (call_add _ p) = p
guard (lock_add _ p q) = (p, q)
guard (add _ p) = p
guard (call_wait p) = p
guard (lock_wait p q) = (p, q)
guard (relock_wait p q) = (p, q)
guard (wait p) = p
guard (spurious_wait p) = p
guard (call_destroy p) = p
guard (lock_destroy p q) = (p, q)
guard (destroy p) = p
guard (join _ p q r) = (p, q, r)
guard (joined p) = p
