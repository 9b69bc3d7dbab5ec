-- ===== src/Threads/Safety/Fate.antt =====
-- How an activation ends, and what it has done to the thread's identity and to the lock.
use ntu_systems_programming.Prelude.{
  ◌≡◌, ◌≢◌, refl, true, false, ◌==◌, Bool-cases, inl, inr, ◌⊎◌, arith,
}
use ntu_systems_programming.Threads.Word.{minus_one, add32}
use ntu_systems_programming.Threads.Types.{
  Point, fib_start, fib_next, fact_start, fact_next, bank_start, bank_locked, bank_update,
  bank_release, Tcb, Bank,
}
use ntu_systems_programming.Threads.Bodies.{
  exits, yields, waits, Activation, fibonacci, factorial, fibonacci_turn, factorial_turn,
  activate_at, activate,
}
use ntu_systems_programming.Threads.Queues.{critical}

abbrev pub Exits : Tcb → Bank → Activation → Type 0
Exits t b a =
    (a.leave ≡ exits)
    × (a.thread.id ≡ t.id)
    × ((critical t.environment ≡ false) × (a.bank.lock_owner ≡ b.lock_owner)
        ⊎ (a.bank.lock_owner ≡ minus_one) × (t.id ≡ b.lock_owner))

abbrev pub Waits : Tcb → Bank → Activation → Type 0
Waits t b a =
    (a.leave ≡ waits)
    × (a.thread.id ≡ t.id)
    × (a.thread.environment ≡ bank_locked)
    × (critical t.environment ≡ false)
    × (a.bank ≡ b)
    × (b.lock_owner ≢ minus_one)

abbrev pub Yields : Tcb → Bank → Activation → Type 0
Yields t b a =
    (q : Point) × (a.leave ≡ yields q)
    × (a.thread.id ≡ t.id)
    × ((a.bank.lock_owner ≡ b.lock_owner) ⊎ (b.lock_owner ≡ minus_one))
    × (critical q ≡ true → t.id ≡ a.bank.lock_owner)
    × (critical q ≡ false → (critical t.environment ≡ false) × (a.bank.lock_owner ≡ b.lock_owner))

abbrev pub Fate : Tcb → Bank → Activation → Type 0
Fate t b a = Exits t b a ⊎ Waits t b a ⊎ Yields t b a

-- The two loops leave by their test, and do not touch the bank.
fibonacci_turn-Fate :
    (t u : Tcb) (b : Bank)
    → u.id ≡ t.id
    → critical t.environment ≡ false
    → Fate t b (fibonacci_turn u b)
unfolding fibonacci_turn
fibonacci_turn-Fate t u b i e = elim (Bool-cases ((fibonacci u).i == (fibonacci u).arg)) [
  | inl last ↦ inl (rw last, ground arith, inl (e, refl))
  | inr more ↦ inr (inr (fib_next, rw more, ground arith, inl refl, ground arith, ground arith))
]

factorial_turn-Fate :
    (t u : Tcb) (b : Bank)
    → u.id ≡ t.id
    → critical t.environment ≡ false
    → Fate t b (factorial_turn u b)
unfolding factorial_turn
factorial_turn-Fate t u b i e = elim (Bool-cases ((factorial u).i == (factorial u).arg)) [
  | inl last ↦ inl (rw last, ground arith, inl (e, refl))
  | inr more ↦ inr (inr (fact_next, rw more, ground arith, inl refl, ground arith, ground arith))
]

activate_at-Fate :
    (p : Point) (t : Tcb) (b : Bank)
    → t.environment ≡ p
    → (critical p ≡ true → t.id ≡ b.lock_owner)
    → Fate t b (activate_at p t b)
unfolding activate_at
activate_at-Fate fib_start t b e own =
    fibonacci_turn-Fate t (record t { i = 1 }) b refl (ground arith)
activate_at-Fate fib_next t b e own =
    fibonacci_turn-Fate t (record t { i = add32 t.i 1 }) b refl (ground arith)
activate_at-Fate fact_start t b e own =
    factorial_turn-Fate t (record t { i = 1 }) b refl (ground arith)
activate_at-Fate fact_next t b e own =
    factorial_turn-Fate t (record t { i = add32 t.i 1 }) b refl (ground arith)
activate_at-Fate bank_start t b e own = elim (Bool-cases (b.lock_owner == minus_one)) [
  | inl free ↦ inr (inr (bank_update, rw free, rw free, ground arith, ground arith, ground arith))
  | inr held ↦ inr (inl (rw held, rw held, rw held, ground arith, rw held, ground arith))
]
activate_at-Fate bank_locked t b e own =
    inr (inr (bank_update, refl, refl, inl refl, ground arith, ground arith))
activate_at-Fate bank_update t b e own =
    inr (inr (bank_release, refl, refl, inl refl, ground arith, ground arith))
activate_at-Fate bank_release t b e own = inl (refl, refl, inr (ground arith, ground arith))

-- `t.id` is the owner's where the thread is past `lock`.
pub activate-Fate :
    (t : Tcb) (b : Bank)
    → (critical t.environment ≡ true → t.id ≡ b.lock_owner)
    → Fate t b (activate t b)
unfolding activate
activate-Fate t b own = activate_at-Fate t.environment t b refl own
