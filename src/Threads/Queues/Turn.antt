-- ===== src/Threads/Queues/Turn.antt =====
-- What one activation of the running thread does to the order of the queues.
use ntu_systems_programming.Prelude.{
  ℕ, ◌<◌, ◌≡◌, ◌≢◌, refl, true, false, arith, ◌==◌, Bool-cases, inl, inr, ◌⊎◌, List,
}
use ntu_systems_programming.Threads.Word.{minus_one}
use ntu_systems_programming.Threads.Types.{System, running, Tcb, Bank, Signals, Line}
use ntu_systems_programming.Threads.Queues.{InOrder, Owner, ready, waiting, critical}
use ntu_systems_programming.Threads.Queues.Moves.{none_skipped}

-- The running thread's block and the bank have changed, and nothing else that the queues rest on.
module _ (s : System) (v : InOrder none_skipped s) (c : s.rq_current < s.rq_size) (h' : ℕ → Tcb)
    (b' : Bank) (g : Signals) (o : List Line) (others : (a : ℕ) → a ≢ running s → h' a ≡ s.heap a)
    (same : (h' (running s)).id ≡ (ready s s.rq_current).id) where
  abbrev pub after : System
  after = record s { heap = h'; bank = b'; signals = g; output = o }

  ready_id : (k : ℕ) → k < s.rq_size → (ready after k).id ≡ (ready s k).id
  ready_id k p = elim (Bool-cases (s.ready_queue k == running s)) [
    | inl here ↦ ground arith
    | inr there ↦ ground (arith, others (s.ready_queue k))
  ]

  pub ready_kept : (k : ℕ) → k < s.rq_size → k ≢ s.rq_current → ready after k ≡ ready s k
  ready_kept k p ne = ground (arith, others (s.ready_queue k), v.ready_apart k s.rq_current)

  pub waiting_kept : (k : ℕ) → k < s.wq_size → waiting after k ≡ waiting s k
  waiting_kept k p = ground (arith, others (s.waiting_queue k), v.cross_apart s.rq_current k)

  current_Owner :
      critical (h' (running s)).environment ≡ true
      → (h' (running s)).id ≡ b'.lock_owner
      → Owner none_skipped after
  current_Owner x e = (s.rq_current, c, ground (arith, v.few), x, e)

  other_Owner :
      (skip : ℕ)
      → (skip ≡ none_skipped) ⊎ (skip ≡ s.rq_current)
      → critical (ready s s.rq_current).environment ≡ false
      → b'.lock_owner ≡ s.bank.lock_owner
      → b'.lock_owner ≢ minus_one
      → Owner skip after
  other_Owner skip w x e n =
      let (k, lt, ne, cr, own) = v.owned (ground arith) in
      (k, lt, ground (arith, v.few), ground (arith, ready_kept k), ground (arith, ready_kept k))

  -- The thread goes on in the ready queue: it has the lock if it is past `lock`.
  pub stay-InOrder :
      (b'.lock_owner ≡ s.bank.lock_owner) ⊎ (s.bank.lock_owner ≡ minus_one)
      → (critical (h' (running s)).environment ≡ true → (h' (running s)).id ≡ b'.lock_owner)
      → (critical (h' (running s)).environment ≡ false
          → (critical (ready s s.rq_current).environment ≡ false)
            × (b'.lock_owner ≡ s.bank.lock_owner))
      → InOrder none_skipped after
  stay-InOrder owner mine free = record {
    few = v.few;
    ready_live = v.ready_live;
    waiting_live = v.waiting_live;
    ready_apart = λ j k p q e. ground (arith, v.ready_apart j k, ready_id j, ready_id k);
    waiting_apart =
        λ j k p q e. ground (arith, v.waiting_apart j k, waiting_kept j, waiting_kept k);
    cross_apart = λ j k p q e. ground (arith, v.cross_apart j k, ready_id j, waiting_kept k);
    ready_small = λ k p. ground (arith, v.ready_small k, ready_id k);
    waiting_small = λ k p. ground (arith, v.waiting_small k, waiting_kept k);
    parked = λ k p. ground (arith, v.parked k, waiting_kept k);
    exclusive = λ k p q cr. ground (arith, v.exclusive k, v.ready_small k, ready_kept k);
    owned = λ n. elim (Bool-cases (critical (h' (running s)).environment)) [
      | inl cr ↦ current_Owner cr (mine cr)
      | inr ncr ↦ other_Owner none_skipped (inl refl) (free ncr).0 (free ncr).1 n
    ];
  }

  -- The thread is to leave the ready queue: it does not have the lock, or it has given it back.
  pub go-InOrder :
      (critical (ready s s.rq_current).environment ≡ false) × (b'.lock_owner ≡ s.bank.lock_owner)
        ⊎ (b'.lock_owner ≡ minus_one) × ((ready s s.rq_current).id ≡ s.bank.lock_owner)
      → InOrder s.rq_current after
  go-InOrder w = record {
    few = v.few;
    ready_live = v.ready_live;
    waiting_live = v.waiting_live;
    ready_apart = λ j k p q e. ground (arith, v.ready_apart j k, ready_id j, ready_id k);
    waiting_apart =
        λ j k p q e. ground (arith, v.waiting_apart j k, waiting_kept j, waiting_kept k);
    cross_apart = λ j k p q e. ground (arith, v.cross_apart j k, ready_id j, waiting_kept k);
    ready_small = λ k p. ground (arith, v.ready_small k, ready_id k);
    waiting_small = λ k p. ground (arith, v.waiting_small k, waiting_kept k);
    parked = λ k p. ground (arith, v.parked k, waiting_kept k);
    exclusive = λ k p q cr.
        ground (arith, v.exclusive k, v.few, v.ready_apart k s.rq_current, ready_kept k);
    owned = λ n. elim w [
      | inl (x, e) ↦ other_Owner s.rq_current (inr refl) x e n
      | inr (e, _) ↦ absurd (n e)
    ];
  }
