-- ===== src/Pool/Holders.antt =====
-- Who holds `queue_lock` of the pool of HW4, and who has left: what progress rests on.
use ntu_systems_programming.Prelude.{ℕ, ◌+◌, ◌<◌, ◌≡◌, true, arith}
use ntu_systems_programming.Pool.Types.{client, worker, exited, joining, System}
use ntu_systems_programming.Pool.Steps.{Step, call_wait, Reach, init, next}
use ntu_systems_programming.Pool.Invariant.{worker_holds, client_holds}
use ntu_systems_programming.Pool.Invariant.Guards.{guard}

pub record Held (n : ℕ) (s : System) : Type 0 where
  pub by_worker : (i : ℕ) → s.queue_lock ≡ worker i → (i < n) × (worker_holds (s.threads i) ≡ true)
  pub by_client : s.queue_lock ≡ client → client_holds s.caller ≡ true
  pub departed : (i : ℕ) → s.threads i ≡ exited → s.stop ≡ true
  pub joins : (k : ℕ) → s.caller ≡ joining k → k < n + 1

module _ {n : ℕ} {s : System} where
  Step-by_worker :
      {t : System}
      → Step n s t
      → Held n s
      → (i : ℕ) → t.queue_lock ≡ worker i
      → (i < n) × (worker_holds (t.threads i) ≡ true)
  Step-by_worker (call_wait c) v i h = ground (arith, v.by_worker i)
  Step-by_worker st v i h = ground (arith, guard st, v.by_worker i)

  Step-by_client :
      {t : System} → Step n s t → Held n s → t.queue_lock ≡ client → client_holds t.caller ≡ true
  Step-by_client (call_wait c) v h = ground (arith, v.by_client)
  Step-by_client st v h = ground (arith, guard st, v.by_client)

  Step-departed :
      {t : System} → Step n s t → Held n s → (i : ℕ) → t.threads i ≡ exited → t.stop ≡ true
  Step-departed (call_wait c) v i h = ground (arith, v.departed i)
  Step-departed st v i h = ground (arith, guard st, v.departed i)

  Step-joins : {t : System} → Step n s t → Held n s → (k : ℕ) → t.caller ≡ joining k → k < n + 1
  Step-joins (call_wait c) v k h = ground (arith, v.joins k)
  Step-joins st v k h = ground (arith, guard st, v.joins k)

  Step-Held : {t : System} → Step n s t → Held n s → Held n t
  Step-Held st v = record {
    by_worker = Step-by_worker st v;
    by_client = Step-by_client st v;
    departed = Step-departed st v;
    joins = Step-joins st v;
  }

pub Reach-Held : {n : ℕ} {s : System} → Reach n s → Held n s
Reach-Held init = record {
  by_worker = λ i h. absurd (ground arith);
  by_client = λ h. absurd (ground arith);
  departed = λ i h. absurd (ground arith);
  joins = λ k h. absurd (ground arith);
}
Reach-Held (next r st) = Step-Held st (Reach-Held r)
