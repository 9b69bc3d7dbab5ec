-- ===== src/Threads/Ledger/Orders.antt =====
-- The balance of the bank of HW3 when both bank operations have been booked.
use ntu_systems_programming.Prelude.{
  ℕ, ◌+◌, ◌<◌, ◌≡◌, refl, ◌∙◌, arith, ◌==◌, if◌then◌else◌, List, [], ◌∷◌, inl, inr, ◌⊎◌, Bool-cases,
  sum_range,
}
use ntu_systems_programming.Threads.Types.{Tcb, System}
use ntu_systems_programming.Threads.Bodies.{new_balance}
use ntu_systems_programming.Threads.Safety.{AllExited}
use ntu_systems_programming.Threads.Startup.{asked}
use ntu_systems_programming.Threads.Totals.{total}
use ntu_systems_programming.Threads.Totals.Starts.{asked_total}
use ntu_systems_programming.Threads.Exclusion.{Reach}
use ntu_systems_programming.Threads.Ledger.{pending, ledger, booked, count}
use ntu_systems_programming.Threads.Ledger.Booking.{ledger-IsBooked}

-- How often a bank operation with the argument `a` books `v`: there is none for 0.
abbrev due : ℕ → ℕ → ℕ
due v a = if a == 0 then 0 else if a == v then 1 else 0

due_lem : (v f g a b : ℕ) → asked_total (pending v) f g a b ≡ due v a + due v b
due_lem v f g a b = ground arith

new_balance-zero : (balance : ℕ) → new_balance balance 0 ≡ balance
unfolding new_balance
new_balance-zero balance = ground arith

-- A list with the two arguments, but for those that are 0.
abbrev Orders : ℕ → ℕ → List ℕ → Type 0
Orders a b l =
    (booked l ≡ new_balance (new_balance 500 a) b) ⊎ (booked l ≡ new_balance (new_balance 500 b) a)

count-Orders : (l : List ℕ) (a b : ℕ) → ((v : ℕ) → count v l ≡ due v a + due v b) → Orders a b l
unfolding count booked
count-Orders [] a b h =
    let x : a ≡ 0 = ground (arith, h a) in
    let y : b ≡ 0 = ground (arith, h b) in inl (rw (x, y, new_balance-zero, new_balance-zero) refl)
count-Orders (x ∷ []) a b h = elim (Bool-cases (a == 0)) [
  | inl p ↦
      let y : b ≡ x = ground (arith, h x) in
      let z : a ≡ 0 = ground (arith, p) in inl (rw (z, y, new_balance-zero) refl)
  | inr p ↦
      let y : a ≡ x = ground (arith, h x, h a, h b) in
      let z : b ≡ 0 = ground (arith, h x, h a, h b) in inl (rw (z, y, new_balance-zero) refl)
]
count-Orders (y ∷ x ∷ []) a b h = elim (Bool-cases (a == x)) [
  | inl p ↦
      let e : a ≡ x = ground (arith, p) in
      let d : b ≡ y = ground (arith, h x, h y) in inl (rw (e, d) refl)
  | inr p ↦
      let e : b ≡ x = ground (arith, h x) in
      let d : a ≡ y = ground (arith, h x, h y) in inr (rw (e, d) refl)
]
count-Orders (x ∷ y ∷ z ∷ l) a b h = absurd (ground (arith, h x, h y, h z))

nobody_left : (w : Tcb → ℕ) (s : System) → s.rq_size ≡ 0 → s.wq_size ≡ 0 → total w s ≡ 0
unfolding sum_range
nobody_left w s r q = rw (r, q) refl

-- When all threads have exited, the two bank operations have been booked, each of them once and on
-- the balance that the other has left or on 500: the balance is that of one after the other, in
-- some order, however the threads have been switched. A thread is asked for, no handler cuts a sleep
-- of the run short, and an argument of 0 is no operation.
pub final_balance :
    {f g a b : ℕ} {s : System}
    → 0 < asked f g a b
    → Reach f g a b s
    → AllExited s
    → (s.bank.balance ≡ new_balance (new_balance 500 a) b)
      ⊎ (s.bank.balance ≡ new_balance (new_balance 500 b) a)
final_balance {f} {g} {a} {b} {s} h r (nobody, alone) =
    let i = ledger-IsBooked h r in
    let counts : (v : ℕ) → count v (ledger r) ≡ due v a + due v b =
      λ v. omega (arith, i.counts v, due_lem v f g a b, nobody_left (pending v) s nobody alone) in
    elim (count-Orders (ledger r) a b counts) [
      | inl e ↦ inl (i.sums ∙ e)
      | inr e ↦ inr (i.sums ∙ e)
    ]
