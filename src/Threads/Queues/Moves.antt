-- ===== src/Threads/Queues/Moves.antt =====
-- The steps of the scheduler on queues in order.
use ntu_systems_programming.Prelude.{
  ℕ, zero, suc, ◌+◌, ◌-◌, ◌<◌, ◌≡◌, ◌≢◌, ◌&&◌, ltb, leb, arith, update, if◌then◌else◌, ◌==◌,
  Bool-cases, inl, inr,
}
use ntu_systems_programming.Threads.Word.{minus_one}
use ntu_systems_programming.Threads.Types.{Point, System}
use ntu_systems_programming.Threads.Scheduler.{shift_from, wake, park, retire, advance}
use ntu_systems_programming.Threads.Queues.{InOrder, Owner, ready}

pub shift_from_lem :
    (n i : ℕ) (q : ℕ → ℕ) (k : ℕ)
    → shift_from n i q k ≡ (if leb i k && ltb k (i + n) then q (k + 1) else q k)
unfolding shift_from
shift_from_lem zero i q k = ground arith
shift_from_lem (suc n) i q k = ground (arith, shift_from_lem n (i + 1) (update q i (q (i + 1))) k)

-- The lock that `wake` hands over goes to the thread at the end of the ready queue.
wake-Owner :
    {skip : ℕ} {s : System}
    → skip ≢ s.rq_size
    → InOrder skip s
    → (wake s).bank.lock_owner ≢ minus_one
    → Owner skip (wake s)
unfolding wake
wake-Owner {skip} {s} h v o =
    elim (Bool-cases (s.bank.lock_owner == minus_one && ltb 0 s.wq_size)) [
      | inl free ↦ (s.rq_size, ground arith, ground arith, ground (arith, v.parked 0), ground arith)
      | inr kept ↦ rw kept (v.owned (ground arith))
    ]

pub wake-InOrder :
    {skip : ℕ} {s : System} → skip ≢ s.rq_size → InOrder skip s → InOrder skip (wake s)
unfolding wake
wake-InOrder {skip} {s} h v = record {
  few = ground (arith, v.few);
  ready_live = λ k p. grind (arith, v.ready_live, v.waiting_live);
  waiting_live = λ k p. ground (arith, shifted k, v.waiting_live k, v.waiting_live (k + 1));
  ready_apart =
      λ j k p q e. ground (arith, v.ready_apart j k, v.cross_apart j 0, v.cross_apart k 0);
  waiting_apart = λ j k p q e.
      ground (arith, shifted j, shifted k, v.waiting_apart j k, v.waiting_apart (j + 1) (k + 1));
  cross_apart = λ j k p q e.
      ground
        (arith, shifted k, v.waiting_apart 0 (k + 1), v.cross_apart j k, v.cross_apart j (k + 1));
  ready_small = λ k p. grind (arith, v.ready_small, v.waiting_small);
  waiting_small = λ k p. ground (arith, shifted k, v.waiting_small k, v.waiting_small (k + 1));
  parked = λ k p. ground (arith, shifted k, v.parked k, v.parked (k + 1));
  exclusive = λ k p q c. ground (arith, v.exclusive k, v.ready_small k, v.waiting_small 0);
  owned = wake-Owner h v;
}
  where
    shifted :
        (k : ℕ)
        → shift_from (s.wq_size - 1) 0 s.waiting_queue k ≡ (
            if leb 0 k && ltb k (0 + (s.wq_size - 1))
            then s.waiting_queue (k + 1)
            else s.waiting_queue k)
    shifted = shift_from_lem (s.wq_size - 1) 0 s.waiting_queue

-- What is left of the ready queue once the running thread is out of it.
abbrev pub none_skipped : ℕ
none_skipped = 16

-- The order is one of the queues, whichever ready thread runs.
pub rq_current-InOrder :
    {skip : ℕ} {s : System} (c : ℕ) → InOrder skip s → InOrder skip (record s { rq_current = c })
rq_current-InOrder c v = record {
  few = v.few;
  ready_live = v.ready_live;
  waiting_live = v.waiting_live;
  ready_apart = v.ready_apart;
  waiting_apart = v.waiting_apart;
  cross_apart = v.cross_apart;
  ready_small = v.ready_small;
  waiting_small = v.waiting_small;
  parked = v.parked;
  exclusive = v.exclusive;
  owned = v.owned;
}

pub advance-InOrder : {skip : ℕ} {s : System} → InOrder skip s → InOrder skip (advance s)
unfolding advance
advance-InOrder v = rq_current-InOrder _ v

-- The owner keeps its place, or moves into the one that is left free.
park-Owner :
    {s : System}
    → s.rq_current < s.rq_size
    → InOrder s.rq_current s
    → (park s).bank.lock_owner ≢ minus_one
    → Owner none_skipped (park s)
unfolding park
park-Owner {s} h v o =
    let (k, lt, ne, c, e) = v.owned (ground arith) in
    elim (Bool-cases (k == s.rq_size - 1)) [
      | inl last ↦
          (s.rq_current, ground (arith, v.few), ground (arith, v.few), ground arith, ground arith)
      | inr other ↦ (k, ground arith, ground (arith, v.few), ground arith, ground arith)
    ]

-- A thread that waits for the lock leaves the ready queue, and the queues are in order.
pub park-InOrder :
    {s : System}
    → s.rq_current < s.rq_size
    → (ready s s.rq_current).environment ≡ Point.bank_locked
    → InOrder s.rq_current s
    → InOrder none_skipped (park s)
unfolding park
park-InOrder {s} h e v = record {
  few = ground (arith, v.few);
  ready_live = λ k p. ground (arith, v.ready_live k, v.ready_live (s.rq_size - 1));
  waiting_live = λ k p. ground (arith, v.waiting_live k, v.ready_live s.rq_current);
  ready_apart = λ j k p q e.
      ground (
        arith,
        v.ready_apart j k,
        v.ready_apart (s.rq_size - 1) k,
        v.ready_apart j (s.rq_size - 1),
      );
  waiting_apart = λ j k p q e.
      ground
        (arith, v.waiting_apart j k, v.cross_apart s.rq_current j, v.cross_apart s.rq_current k);
  cross_apart = λ j k p q e. ground (
    arith,
    v.cross_apart j k,
    v.cross_apart (s.rq_size - 1) k,
    v.ready_apart j s.rq_current,
    v.ready_apart (s.rq_size - 1) s.rq_current,
  );
  ready_small = λ k p. ground (arith, v.ready_small k, v.ready_small (s.rq_size - 1));
  waiting_small = λ k p. ground (arith, v.waiting_small k, v.ready_small s.rq_current);
  parked = λ k p. ground (arith, v.parked k);
  exclusive = λ k p q c. ground (arith, v.exclusive k, v.exclusive (s.rq_size - 1));
  owned = park-Owner h v;
}

-- The owner keeps its place, or moves into the one that is left free.
retire-Owner :
    {s : System}
    → s.rq_current < s.rq_size
    → InOrder s.rq_current s
    → (retire s).bank.lock_owner ≢ minus_one
    → Owner none_skipped (retire s)
unfolding retire
retire-Owner {s} h v o =
    let (k, lt, ne, c, e) = v.owned (ground arith) in
    elim (Bool-cases (k == s.rq_size - 1)) [
      | inl last ↦
          (s.rq_current, ground (arith, v.few), ground (arith, v.few), ground arith, ground arith)
      | inr other ↦ (k, ground arith, ground (arith, v.few), ground arith, ground arith)
    ]

-- A thread that exits leaves the ready queue, its block is freed, and the queues are in order.
pub retire-InOrder :
    {s : System}
    → s.rq_current < s.rq_size
    → InOrder s.rq_current s
    → InOrder none_skipped (retire s)
unfolding retire
retire-InOrder {s} h v = record {
  few = ground (arith, v.few);
  ready_live = λ k p. ground (
    arith,
    v.ready_live k,
    v.ready_live (s.rq_size - 1),
    v.ready_apart k s.rq_current,
    v.ready_apart (s.rq_size - 1) s.rq_current,
  );
  waiting_live = λ k p. ground (arith, v.waiting_live k, v.cross_apart s.rq_current k);
  ready_apart = λ j k p q e.
      ground (
        arith,
        v.ready_apart j k,
        v.ready_apart (s.rq_size - 1) k,
        v.ready_apart j (s.rq_size - 1),
      );
  waiting_apart = λ j k p q e. ground (arith, v.waiting_apart j k);
  cross_apart = λ j k p q e. ground (arith, v.cross_apart j k, v.cross_apart (s.rq_size - 1) k);
  ready_small = λ k p. ground (arith, v.ready_small k, v.ready_small (s.rq_size - 1));
  waiting_small = λ k p. ground (arith, v.waiting_small k);
  parked = λ k p. ground (arith, v.parked k);
  exclusive = λ k p q c. ground (arith, v.exclusive k, v.exclusive (s.rq_size - 1));
  owned = retire-Owner h v;
}
