-- ===== src/Pool/Invariant/Moves.antt =====
-- Each part of the invariant, across each step.
use ntu_systems_programming.Prelude.{
  ℕ, ◌+◌, ◌<◌, ◌≡◌, ◌≢◌, ◌⊎◌, inl, inr, refl, true, false, List, [], ◌∷◌, ◌++◌, append_assoc, arith,
  sum_range-agree, sum_range-update, update, ap, ◌∙◌,
}
use ntu_systems_programming.Pool.Types.{
  Task, client, worker, WorkerPc, entry, checking, sleeping, woken, working, finished, reporting,
  exited, wait_asleep, joining, destroyed, System, rouse, enqueue, link_last,
}
use ntu_systems_programming.Pool.Steps.{
  Step, enter, reenter, sleep, spurious, leave, take, run, finish, report, add, wait, destroy, join,
  joined,
}
use ntu_systems_programming.Pool.Invariant.{
  Inv, worker_holds, client_holds, destroying, executing, times, executions, Reporter,
}
use ntu_systems_programming.Pool.Invariant.Guards.{guard}

-- The walk of `tpool_add` ends at the last node: the task goes to the end of the queue.
link_last-append :
    (curr : Task) (rest : List Task) (t : Task) → link_last curr rest t ≡ curr ∷ (rest ++ (t ∷ []))
unfolding link_last
link_last-append curr [] t = refl
link_last-append curr (next ∷ rest) t = ap (λ l. curr ∷ l) (link_last-append next rest t)

-- `tpool_add` links its task behind the last node of the list, whatever the length of the list.
pub enqueue-append : (q : List Task) (t : Task) → enqueue q t ≡ q ++ (t ∷ [])
unfolding enqueue
enqueue-append [] t = refl
enqueue-append (x ∷ q) t = link_last-append x q t

pub times-append : (xs ys : List Task) (a : Task) → times (xs ++ ys) a ≡ times xs a + times ys a
times-append [] ys a = omega arith
times-append (x ∷ xs) ys a = ground (arith, times-append xs ys a)

-- One worker moves.
executions-update :
    {n : ℕ} (a : Task) (threads : ℕ → WorkerPc) (k : ℕ) (q : WorkerPc)
    → k < n
    → executions a n (update threads k q) + executing a (threads k)
      ≡ executions a n threads + executing a q
executions-update {n} a threads k q p = sum_range-update (executing a) n threads k q p

module _ {n : ℕ} {s : System} where
  Step-worker_lock_held :
      {t : System}
      → Step n s t
      → Inv n s
      → (i : ℕ) → worker_holds (t.threads i) ≡ true
      → t.queue_lock ≡ worker i
  Step-worker_lock_held (sleep k p c q e) v i =
      ground (arith, v.worker_lock_held i, v.worker_lock_held k)
  Step-worker_lock_held (leave k p c q) v i =
      ground (arith, v.worker_lock_held i, v.worker_lock_held k)
  Step-worker_lock_held (take k x y p c q e) v i =
      ground (arith, v.worker_lock_held i, v.worker_lock_held k)
  Step-worker_lock_held (report k p c) v i =
      ground (arith, v.worker_lock_held i, v.worker_lock_held k)
  Step-worker_lock_held st v i = ground (arith, guard st, v.worker_lock_held i, v.client_lock_held)

  Step-client_lock_held :
      {t : System} → Step n s t → Inv n s → client_holds t.caller ≡ true → t.queue_lock ≡ client
  Step-client_lock_held (sleep k p c q e) v =
      ground (arith, v.client_lock_held, v.worker_lock_held k)
  Step-client_lock_held (leave k p c q) v = ground (arith, v.client_lock_held, v.worker_lock_held k)
  Step-client_lock_held (take k x y p c q e) v =
      ground (arith, v.client_lock_held, v.worker_lock_held k)
  Step-client_lock_held (report k p c) v = ground (arith, v.client_lock_held, v.worker_lock_held k)
  Step-client_lock_held st v = ground (arith, guard st, v.client_lock_held)

  Step-idle :
      {t : System}
      → Step n s t
      → Inv n s
      → (i : ℕ) → t.threads i ≡ sleeping
      → (t.task_queue ≡ []) × (t.stop ≡ false)
  Step-idle (sleep k p c q e) v i h = ground (arith, v.idle i)
  Step-idle st v i h = ground (arith, guard st, v.idle i)

  Step-fifo : {t : System} → Step n s t → Inv n s → t.taken ++ t.task_queue ≡ t.added
  Step-fifo (take k x y p c q e) v = rw append_assoc (rw e at v.fifo)
  Step-fifo (add x c) v = rw (enqueue-append, ← append_assoc, v.fifo)
  Step-fifo st v = v.fifo

  Step-stopped : {t : System} → Step n s t → Inv n s → t.stop ≡ destroying t.caller
  Step-stopped (destroy c) v = refl
  Step-stopped st v = ground (arith, guard st, v.stopped)

  Step-gone :
      {t : System}
      → Step n s t
      → Inv n s
      → (k i : ℕ) → t.caller ≡ joining k
      → i < k
      → t.threads i ≡ exited
  Step-gone (join j c p e) v k i q l = ground (arith, v.gone j i)
  Step-gone st v k i q l = ground (arith, guard st, v.gone k i)

  Step-all_gone :
      {t : System}
      → Step n s t
      → Inv n s
      → (i : ℕ) → t.caller ≡ destroyed
      → i < n
      → t.threads i ≡ exited
  Step-all_gone (joined c) v i q l = ground (arith, v.gone n i)
  Step-all_gone st v i q l = ground (arith, guard st, v.all_gone i)

  -- A worker that is to report, and is not worker `k`, stays one when only `k` moves.
  Step-told :
      {t : System}
      → Step n s t
      → Inv n s
      → t.caller ≡ wait_asleep
      → (t.task_queue ≢ []) ⊎ Reporter n t
  Step-told (wait p) v c = inl (ground arith)
  Step-told (take k x y p c q e) v a = inr (k, p, ground arith)
  Step-told (run k x p c) v a = inr (k, p, ground arith)
  Step-told (finish k p c l) v a = inr (k, p, ground arith)
  Step-told (report k p c) v a = inl (ground arith)
  Step-told st v c = elim (v.told (ground (arith, guard st))) [
    | inl more ↦ inl (ground (arith, guard st))
    | inr (i, p, w) ↦ inr (i, p, ground (arith, guard st))
  ]

  -- A worker moves, and neither begins nor ends a task.
  served-update :
      Inv n s
      → (a : Task) (k : ℕ) (q : WorkerPc) → k < n
      → executing a q ≡ executing a (s.threads k)
      → times s.taken a ≡ times s.executed a + executions a n (update s.threads k q)
  served-update v a k q p e = omega (arith, v.served a, executions-update a s.threads k q p)

  -- A broadcast moves sleeping workers alone.
  served-rouse :
      Inv n s
      → (a : Task)
      → times s.taken a ≡ times s.executed a + executions a n (λ i. rouse (s.threads i))
  served-rouse v a =
      v.served a
      ∙ ap (λ k. times s.executed a + k)
          (sum_range-agree n 0 (λ i. executing a (s.threads i))
            (λ i. executing a (rouse (s.threads i))) (λ i b p. ground arith))

  Step-served :
      {t : System}
      → Step n s t
      → Inv n s
      → (a : Task) → times t.taken a ≡ times t.executed a + executions a n t.threads
  Step-served (take k x y p c q e) v a = ground (
    arith,
    v.served a,
    times-append s.taken (x ∷ []) a,
    executions-update a s.threads k (working x) p,
  )
  Step-served (run k x p c) v a = ground (
    arith,
    v.served a,
    times-append s.executed (x ∷ []) a,
    executions-update a s.threads k finished p,
  )
  Step-served (add x c) v a = ground (arith, v.served a, served-rouse v a)
  Step-served (destroy c) v a = served-rouse v a
  Step-served (enter k p c l) v a = served-update v a k checking p (ground arith)
  Step-served (reenter k p c l) v a = served-update v a k checking p (ground arith)
  Step-served (sleep k p c q e) v a = served-update v a k sleeping p (ground arith)
  Step-served (spurious k p c) v a = served-update v a k woken p (ground arith)
  Step-served (leave k p c q) v a = served-update v a k exited p (ground arith)
  Step-served (finish k p c l) v a = served-update v a k reporting p (ground arith)
  Step-served (report k p c) v a = served-update v a k entry p (ground arith)
  Step-served st v a = v.served a

  -- Every step keeps the invariant.
  pub Step-Inv : {t : System} → Step n s t → Inv n s → Inv n t
  Step-Inv st v = record {
    worker_lock_held = Step-worker_lock_held st v;
    client_lock_held = Step-client_lock_held st v;
    idle = Step-idle st v;
    fifo = Step-fifo st v;
    served = Step-served st v;
    told = Step-told st v;
    stopped = Step-stopped st v;
    gone = Step-gone st v;
    all_gone = Step-all_gone st v;
  }
