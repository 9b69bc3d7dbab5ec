-- ===== src/Threads/Ledger.antt =====
-- The balance of the bank of HW3 over a run: which arguments have been booked, in which order.
pub mod Booking
pub mod Orders
use ntu_systems_programming.Prelude.{
  ℕ, ◌+◌, ◌≡◌, refl, ap, Bool, true, false, arith, ◌==◌, ◌&&◌, if◌then◌else◌, List, [], ◌∷◌, inl,
  inr, Bool-cases,
}
use ntu_systems_programming.Threads.Word.{minus_one, add32}
use ntu_systems_programming.Threads.Types.{
  Point, fib_start, fib_next, fact_start, fact_next, bank_start, bank_locked, bank_update,
  bank_release, Tcb, Bank, System,
}
use ntu_systems_programming.Threads.Bodies.{
  fibonacci, factorial, fibonacci_turn, factorial_turn, new_balance, activate_at,
}
use ntu_systems_programming.Threads.Queues.{ready}
use ntu_systems_programming.Threads.Totals.Turns.{left_over}
use ntu_systems_programming.Threads.Exclusion.{Reach, begin, next}

-- The activation in which a bank operation changes the balance.
abbrev pub books : Point → Bool
books bank_update = true
books _ = false

-- A bank operation that has not changed the balance yet.
abbrev is_pending : Point → Bool
is_pending bank_start = true
is_pending bank_locked = true
is_pending bank_update = true
is_pending _ = false

-- Whether that of the argument `v` is still to come.
abbrev pub pending : ℕ → Tcb → ℕ
pending v t = if is_pending t.environment && t.arg == v then 1 else 0

-- The arguments that have been booked, the last one first.
unfoldable pub ledger : {f g a b : ℕ} {s : System} → Reach f g a b s → List ℕ
ledger begin = []
ledger (next {s} tstp alrm r more q e) =
    let l = ledger r in let t = ready s s.rq_current in if books t.environment then t.arg ∷ l else l

-- The balance that they make of 500.
unfoldable pub booked : List ℕ → ℕ
booked [] = 500
booked (x ∷ l) = new_balance (booked l) x

unfoldable pub count : ℕ → List ℕ → ℕ
count v [] = 0
count v (x ∷ l) = (if x == v then 1 else 0) + count v l

-- One activation books its argument, or none.
fibonacci_turn-left_over :
    (v : ℕ) (u : Tcb) (b : Bank)
    → (left_over (pending v) (fibonacci_turn u b).leave (fibonacci_turn u b).thread ≡ 0)
      × ((fibonacci_turn u b).bank ≡ b)
unfolding fibonacci_turn
fibonacci_turn-left_over v u b = elim (Bool-cases ((fibonacci u).i == (fibonacci u).arg)) [
  | inl last ↦ (rw last refl, refl)
  | inr more ↦ (rw more refl, refl)
]

factorial_turn-left_over :
    (v : ℕ) (u : Tcb) (b : Bank)
    → (left_over (pending v) (factorial_turn u b).leave (factorial_turn u b).thread ≡ 0)
      × ((factorial_turn u b).bank ≡ b)
unfolding factorial_turn
factorial_turn-left_over v u b = elim (Bool-cases ((factorial u).i == (factorial u).arg)) [
  | inl last ↦ (rw last refl, refl)
  | inr more ↦ (rw more refl, refl)
]

-- What the activation of a thread at `p` books.
abbrev pub Entry : Point → Tcb → Bank → Type 0
Entry p t b =
    ((v : ℕ)
      → left_over (pending v) (activate_at p t b).leave (activate_at p t b).thread
          + (if books p && t.arg == v then 1 else 0)
        ≡ (if is_pending p && t.arg == v then 1 else 0))
    × ((activate_at p t b).bank.balance
        ≡ (if books p then new_balance b.balance t.arg else b.balance))

pub activate_at-Entry : (p : Point) (t : Tcb) (b : Bank) → t.environment ≡ p → Entry p t b
unfolding activate_at
activate_at-Entry fib_start t b e = (
  λ v. omega (arith, (fibonacci_turn-left_over v (record t { i = 1 }) b).0),
  ap (λ c. c.balance) (fibonacci_turn-left_over 0 (record t { i = 1 }) b).1,
)
activate_at-Entry fib_next t b e = (
  λ v. omega (arith, (fibonacci_turn-left_over v (record t { i = add32 t.i 1 }) b).0),
  ap (λ c. c.balance) (fibonacci_turn-left_over 0 (record t { i = add32 t.i 1 }) b).1,
)
activate_at-Entry fact_start t b e = (
  λ v. omega (arith, (factorial_turn-left_over v (record t { i = 1 }) b).0),
  ap (λ c. c.balance) (factorial_turn-left_over 0 (record t { i = 1 }) b).1,
)
activate_at-Entry fact_next t b e = (
  λ v. omega (arith, (factorial_turn-left_over v (record t { i = add32 t.i 1 }) b).0),
  ap (λ c. c.balance) (factorial_turn-left_over 0 (record t { i = add32 t.i 1 }) b).1,
)
activate_at-Entry bank_start t b e = elim (Bool-cases (b.lock_owner == minus_one)) [
  | inl free ↦ rw free ((λ v. omega arith), refl)
  | inr held ↦ rw held ((λ v. omega arith), refl)
]
activate_at-Entry bank_locked t b e = ((λ v. omega arith), refl)
activate_at-Entry bank_update t b e = ((λ v. omega arith), refl)
activate_at-Entry bank_release t b e = ((λ v. omega arith), ground arith)
