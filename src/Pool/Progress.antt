-- ===== src/Pool/Progress.antt =====
-- How a call of the client of the pool of HW4 goes on, and how it ends.
use ntu_systems_programming.Prelude.{
  ℕ, zero, suc, ◌+◌, ◌<◌, ◌≤◌, ◌≡◌, ◌≢◌, ◌⊎◌, inl, inr, refl, ap, ◌∙◌, true, false, List, [], ◌∷◌,
  arith, dec_lt, Bool-cases,
}
use ntu_systems_programming.Pool.Types.{
  Holder, nobody, client, worker, Task, WorkerPc, entry, checking, sleeping, woken, working,
  finished, reporting, exited, ClientPc, add_enter, add_locked, wait_enter, wait_locked,
  wait_asleep, wait_woken, destroy_enter, destroy_locked, joining, destroyed, System,
}
use ntu_systems_programming.Pool.Steps.{
  Step, enter, reenter, sleep, spurious, spurious_wait, leave, take, run, finish, report, lock_add,
  add, lock_wait, relock_wait, wait, lock_destroy, destroy, join, joined, Reach, next,
}
use ntu_systems_programming.Pool.Invariant.{Inv, worker_holds, client_holds}
use ntu_systems_programming.Pool.Invariant.Guards.{guard}
use ntu_systems_programming.Pool.Safety.{Reach-Inv}
use ntu_systems_programming.Pool.Holders.{Held, Reach-Held}
use ntu_systems_programming.Pool.Ranks.{in_call, quiet, rank, rank_decreases}

-- Some step is possible that is no spurious wakeup.
abbrev pub CanStep : ℕ → System → Type 0
CanStep n s = (t : System) × (st : Step n s t) × (quiet st ≡ true)

module _ {n : ℕ} {s : System} where
  list_moves :
      (i : ℕ) (q : List Task)
      → i < n
      → s.threads i ≡ checking
      → s.stop ≡ false
      → s.task_queue ≡ q
      → CanStep n s
  list_moves i [] p e f h = (_, sleep i p e h f, refl)
  list_moves i (x ∷ r) p e f h = (_, take i x r p e f h, refl)

  checking_moves : (i : ℕ) → i < n → s.threads i ≡ checking → CanStep n s
  checking_moves i p e = elim (Bool-cases s.stop) [
    | inl f ↦ (_, leave i p e f, refl)
    | inr f ↦ list_moves i s.task_queue p e f refl
  ]

  -- A worker that neither sleeps nor has left can go on, if the lock is free or its own.
  worker_moves :
      (i : ℕ) (q : WorkerPc)
      → i < n
      → s.threads i ≡ q
      → q ≢ sleeping
      → q ≢ exited
      → (s.queue_lock ≡ nobody) ⊎ (worker_holds q ≡ true)
      → CanStep n s
  worker_moves i checking p e a b l = checking_moves i p e
  worker_moves i (working x) p e a b l = (_, run i x p e, refl)
  worker_moves i reporting p e a b l = (_, report i p e, refl)
  worker_moves i sleeping p e a b l = absurd (a refl)
  worker_moves i exited p e a b l = absurd (b refl)
  worker_moves i q p e a b (inr h) = absurd (ground arith)
  worker_moves i entry p e a b (inl l) = (_, enter i p e l, refl)
  worker_moves i woken p e a b (inl l) = (_, reenter i p e l, refl)
  worker_moves i finished p e a b (inl l) = (_, finish i p e l, refl)

  client_moves : (c : ClientPc) → s.caller ≡ c → client_holds c ≡ true → CanStep n s
  client_moves (add_locked x) e h = (_, add x e, refl)
  client_moves wait_locked e h = (_, wait e, refl)
  client_moves destroy_locked e h = (_, destroy e, refl)
  client_moves c e h = absurd (ground arith)

  -- Whoever holds the lock can go on.
  holder_moves : (h : Holder) → s.queue_lock ≡ h → Held n s → (s.queue_lock ≡ nobody) ⊎ CanStep n s
  holder_moves nobody e v = inl e
  holder_moves client e v = inr (client_moves s.caller refl (v.by_client e))
  holder_moves (worker i) e v =
      let w = v.by_worker i e in
      inr (worker_moves i (s.threads i) w.0 refl (λ a. ground arith) (λ a. ground arith) (inr w.1))

  -- A worker that `tpool_destroy` waits for.
  join_moves :
      (k : ℕ) (q : WorkerPc)
      → s.caller ≡ joining k
      → k < n
      → s.threads k ≡ q
      → q ≢ sleeping
      → s.queue_lock ≡ nobody
      → CanStep n s
  join_moves k exited e p h a l = (_, join k e p h, refl)
  join_moves k q e p h a l = worker_moves k q p h a (λ b. ground arith) (inl l)

  -- With the lock free, the thread that the client depends on can go on.
  free_moves :
      (c : ClientPc)
      → s.caller ≡ c
      → in_call c ≡ true
      → 0 < n
      → s.queue_lock ≡ nobody
      → Inv n s
      → Held n s
      → CanStep n s
  free_moves (add_enter x) e i p l v w = (_, lock_add x e l, refl)
  free_moves (add_locked x) e i p l v w = (_, add x e, refl)
  free_moves wait_enter e i p l v w = (_, lock_wait e l, refl)
  free_moves wait_locked e i p l v w = (_, wait e, refl)
  free_moves wait_woken e i p l v w = (_, relock_wait e l, refl)
  free_moves destroy_enter e i p l v w = (_, lock_destroy e l, refl)
  free_moves destroy_locked e i p l v w = (_, destroy e, refl)
  free_moves (joining k) e i p l v w = elim (dec_lt k n) [
    | yes p' ↦ join_moves k (s.threads k) e p' refl (λ a. ground (arith, v.idle k a, v.stopped)) l
    | no p' ↦
        let last : k ≡ n = omega (arith, w.joins k e) in (_, joined (e ∙ ap joining last), refl)
  ]
  free_moves wait_asleep e i p l v w = elim (v.told e) [
    | inl more ↦
        worker_moves 0 (s.threads 0) p refl (λ a. more ((v.idle 0 a).0))
          (λ a. ground (arith, w.departed 0 a, v.stopped)) (inl l)
    | inr (k, b, r) ↦
        worker_moves k (s.threads k) b refl (λ a. ground arith) (λ a. ground arith) (inl l)
  ]
  free_moves c e i p l v w = absurd (ground arith)

pub never_stuck : {n : ℕ} {s : System} → 0 < n → Reach n s → in_call s.caller ≡ true → CanStep n s
never_stuck {n} {s} p r i = elim (holder_moves s.queue_lock refl (Reach-Held r)) [
  | inl l ↦ free_moves s.caller refl i p l (Reach-Inv r) (Reach-Held r)
  | inr m ↦ m
]

-- `k` steps of the threads in one call of the client, with no spurious wakeup among them.
pub data During (n : ℕ) (s : System) : ℕ → System → Type 0 where
  begin : in_call s.caller ≡ true → During n s zero s
  onward :
      {k : ℕ} {t u : System}
      → During n s k t
      → (st : Step n t u) → quiet st ≡ true
      → in_call u.caller ≡ true
      → During n s (suc k) u

During-in_call :
    {n : ℕ} {s : System} {k : ℕ} {t : System} → During n s k t → in_call t.caller ≡ true
During-in_call (begin i) = i
During-in_call (onward d st q i) = i

During-Reach : {n : ℕ} {s : System} {k : ℕ} {t : System} → Reach n s → During n s k t → Reach n t
During-Reach r (begin i) = r
During-Reach r (onward d st q i) = next (During-Reach r d) st

During-rank : {n : ℕ} {s : System} {k : ℕ} {t : System} → During n s k t → rank n t + k ≤ rank n s
During-rank (begin i) = omega arith
During-rank (onward d st q i) =
    omega (arith, During-rank d, rank_decreases st q (During-in_call d) i)

-- Every call of the client returns, in a pool with workers: if no condition variable wakes a thread
-- without a signal, the threads make at most `rank n s` steps from a state `s` in the call on while it
-- lasts, and until it has returned some thread can make such a step.
pub calls_return :
    {n : ℕ} {s : System} {k : ℕ} {t : System}
    → 0 < n
    → Reach n s
    → During n s k t
    → (k ≤ rank n s) × CanStep n t
calls_return p r d =
    (omega (arith, During-rank d), never_stuck p (During-Reach r d) (During-in_call d))

joining_quiet :
    {n j : ℕ} {s t : System} (st : Step n s t) → Inv n s → s.caller ≡ joining j → quiet st ≡ true
joining_quiet (spurious k p e) v c = absurd (ground (arith, v.idle k e, v.stopped))
joining_quiet (spurious_wait e) v c = absurd (ground arith)
joining_quiet (run k x p e) v c = refl
joining_quiet st v c = refl

joining_stays :
    {n j : ℕ} {s t : System} (st : Step n s t)
    → s.caller ≡ joining j
    → (t.caller ≡ destroyed) ⊎ (in_call t.caller ≡ true)
joining_stays (joined e) c = inl refl
joining_stays st c = inr (ground (arith, guard st))

-- While `tpool_destroy` joins the workers, no step is a spurious wakeup, and each one ends the call or
-- comes nearer to its end.
pub teardown_ends :
    {n j : ℕ} {s t : System}
    → Reach n s
    → s.caller ≡ joining j
    → (st : Step n s t) → (quiet st ≡ true) × ((t.caller ≡ destroyed) ⊎ (rank n t < rank n s))
teardown_ends r c st =
    let q = joining_quiet st (Reach-Inv r) c in
    (
      q,
      elim (joining_stays st c) [
        | inl e ↦ inl e
        | inr i ↦ inr (rank_decreases st q (ground arith) i)
      ],
    )
