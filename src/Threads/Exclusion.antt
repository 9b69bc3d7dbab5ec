-- ===== src/Threads/Exclusion.antt =====
-- What holds in every state that HW3/main.c reaches while no handler cuts a sleep short.
use ntu_systems_programming.Prelude.{
  ℕ, ◌<◌, ◌≡◌, ◌≢◌, Bool, true, false, some, inl, inr, ◌⊎◌, arith, sym, ◌∙◌,
}
use mathlib.Core.Path.{subst}
use ntu_systems_programming.Threads.Types.{Point, System}
use ntu_systems_programming.Threads.Scheduler.{Control, jump}
use ntu_systems_programming.Threads.Machine.{step, start}
use ntu_systems_programming.Threads.Queues.{ready, waiting, critical}
use ntu_systems_programming.Threads.Safety.{Good, IsQuiet, AllExited}
use ntu_systems_programming.Threads.Safety.Turns.{step-Kept, Kept}
use ntu_systems_programming.Threads.Startup.{start-Good, asked}

-- The states of a run of `./main timeslice f g a b`. Any signals may arrive in a sleep, as long as
-- they are blocked there; `Machine.step` says what follows.
pub data Reach (f g a b : ℕ) : System → Type 0 where
  begin : Reach f g a b (start f g a b)
  next :
      {s t : System} (tstp alrm : Bool)
      → Reach f g a b s
      → 0 < s.rq_size
      → IsQuiet tstp alrm s
      → step tstp alrm s ≡ some (t, jump)
      → Reach f g a b t

pub some_inj : {r q : System × Control} → some r ≡ some q → r ≡ q
some_inj e = cc

some-Kept :
    {s : System} {c : Control} {r : System × Control} → some r ≡ some (s, c) → Kept r → Kept (s, c)
some-Kept {s} {c} {r} e k = subst Kept (some_inj e) k

-- In every such state the queues are in order, or every thread has exited.
pub Reach-Good :
    {f g a b : ℕ} {s : System} → 0 < asked f g a b → Reach f g a b s → Good s ⊎ AllExited s
Reach-Good {f} {g} {a} {b} h begin = inl (start-Good f g a b h)
Reach-Good h (next {s} {t} tstp alrm r more q e) = elim (Reach-Good h r) [
  | inl good ↦ let (out, e', kept) = step-Kept s good tstp alrm q in (some-Kept (sym e' ∙ e) kept).0
  | inr gone ↦ absurd (omega (arith, gone.0))
]

-- Between `lock` and `unlock` of `bank_operation`.
abbrev pub in_bank : Point → Bool
in_bank Point.bank_update = true
in_bank Point.bank_release = true
in_bank _ = false

in_bank-critical : (p : Point) → in_bank p ≡ true → critical p ≡ true
in_bank-critical p h = ground arith

-- In every such state, if a thread is asked for: of the threads that can run, at most one is between
-- `lock` and `unlock` of `bank_operation`, and `bank.lock_owner` is its id.
pub mutual_exclusion :
    {f g a b : ℕ} {s : System}
    → 0 < asked f g a b
    → Reach f g a b s
    → (j k : ℕ) → j < s.rq_size
    → k < s.rq_size
    → in_bank (ready s j).environment ≡ true
    → in_bank (ready s k).environment ≡ true
    → (j ≡ k) × ((ready s j).id ≡ s.bank.lock_owner)
mutual_exclusion h r j k p q cj ck = elim (Reach-Good h r) [
  | inl good ↦
      let v = good.in_order in
      ground (
        arith,
        v.few,
        v.exclusive j,
        v.exclusive k,
        v.ready_apart j k,
        in_bank-critical (ready _ j).environment,
        in_bank-critical (ready _ k).environment,
      )
  | inr gone ↦ absurd (omega (arith, gone.0))
]

-- In every such state, while a thread waits for the lock, the lock's owner is another thread, which
-- can run; if a thread is asked for.
pub waiting_has_owner :
    {f g a b : ℕ} {s : System}
    → 0 < asked f g a b
    → Reach f g a b s
    → (w : ℕ) → w < s.wq_size
    → (k : ℕ) × (k < s.rq_size)
      × ((ready s k).id ≡ s.bank.lock_owner)
      × ((waiting s w).id ≢ s.bank.lock_owner)
waiting_has_owner h r w p = elim (Reach-Good h r) [
  | inl good ↦
      let (k, lt, ne, cr, own) = good.in_order.owned (good.held (omega arith)) in
      (k, lt, own, ground (arith, good.in_order.cross_apart k w))
  | inr gone ↦ absurd (omega (arith, gone.1))
]
