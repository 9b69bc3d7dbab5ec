-- ===== src/Threads/Account.antt =====
-- The account of HW3: step 2 of `bank_operation`, on the integers that the `int`s stand for.
use ntu_systems_programming.Prelude.{
  ℕ, ◌+◌, ◌-◌, ◌^◌, ◌<◌, ◌≡◌, arith, ◌⊎◌, ltb, leb, if◌then◌else◌,
}
use ntu_systems_programming.Threads.Bodies.{new_balance}

-- From a balance that is no negative `int`, and an argument other than INT_MIN: an argument that
-- stands for -k takes k off if the balance covers k, and changes nothing if it does not; any other
-- argument is added, if the sum is still an `int`.
pub new_balance_lem :
    (balance arg : ℕ)
    → balance < 2 ^ 31
    → arg < 2 ^ 32
    → (2 ^ 31 < arg) ⊎ (balance + arg < 2 ^ 31)
    → new_balance balance arg ≡ (
        if ltb (2 ^ 31) arg
        then (if leb (2 ^ 32 - arg) balance then balance - (2 ^ 32 - arg) else balance)
        else balance + arg)
unfolding new_balance
new_balance_lem balance arg h g w = ground arith
