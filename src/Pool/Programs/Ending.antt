-- ===== src/Pool/Programs/Ending.antt =====
-- How long a program of HW4 runs, and where it ends.
use ntu_systems_programming.Prelude.{
  arith, ℕ, zero, suc, ◌+◌, ◌<◌, ◌≤◌, ◌≡◌, ◌⊎◌, inl, inr, refl, Bool, true, false, List, [], ◌∷◌,
}
use ntu_systems_programming.Pool.Types.{
  ClientPc, between, destroy_enter, destroy_locked, joining, destroyed, System,
}
use ntu_systems_programming.Pool.Steps.{Step, add, call_destroy, Reach}
use ntu_systems_programming.Pool.Invariant.Guards.{guard}
use ntu_systems_programming.Pool.Ranks.{in_call}
use ntu_systems_programming.Pool.Progress.{never_stuck}
use ntu_systems_programming.Pool.Programs.{
  Statement, adds, waits, destroys, Machine, is_call, Move, step, call, Runs, start, after,
}
use ntu_systems_programming.Pool.Programs.Draining.{Runs-Reach}
use ntu_systems_programming.Pool.Programs.Budget.{program_rank, quiet_move, Move-nearer}

-- `tpool_destroy` is the last statement, and the only one of its kind.
unfoldable pub closes : List Statement → Bool
closes [] = false
closes (adds _ ∷ cs) = closes cs
closes (waits ∷ cs) = closes cs
closes (destroys ∷ []) = true
closes (destroys ∷ _ ∷ _) = false

abbrev closing : ClientPc → Bool
closing destroy_enter = true
closing destroy_locked = true
closing (joining _) = true
closing destroyed = true
closing _ = false

-- Before `tpool_destroy` it is still to come; from then on nothing is.
record OnCourse (m : Machine) : Type 0 where
  ahead : closing m.system.caller ≡ false → closes m.todo ≡ true
  behind : closing m.system.caller ≡ true → m.todo ≡ []

Step-closing :
    {n : ℕ} {s t : System} (st : Step n s t)
    → is_call st ≡ false
    → closing t.caller ≡ closing s.caller
Step-closing (call_destroy c) f = absurd (ground arith)
Step-closing st f = ground (arith, guard st)

closes-alone : (cs : List Statement) → closes (destroys ∷ cs) ≡ true → cs ≡ []
unfolding closes
closes-alone [] h = refl
closes-alone (c ∷ cs) h = absurd (ground arith)

Move-OnCourse : {n : ℕ} {m k : Machine} → Move n m k → OnCourse m → OnCourse k
unfolding closes
Move-OnCourse (step st f) v = record {
  ahead = λ h. v.ahead (ground (arith, Step-closing st f, h));
  behind = λ h. v.behind (ground (arith, Step-closing st f, h));
}
Move-OnCourse (call (adds x) rest c e) v = record {
  ahead = λ h. ground (arith, v.ahead, c, e);
  behind = λ h. absurd (ground arith);
}
Move-OnCourse (call waits rest c e) v = record {
  ahead = λ h. ground (arith, v.ahead, c, e);
  behind = λ h. absurd (ground arith);
}
Move-OnCourse (call destroys rest c e) v = record {
  ahead = λ h. absurd (ground arith);
  behind = λ h. closes-alone rest (ground (arith, v.ahead, c, e));
}

Runs-OnCourse :
    {n : ℕ} {program : List Statement} {m : Machine}
    → closes program ≡ true
    → Runs n program m
    → OnCourse m
Runs-OnCourse h start = record { ahead = λ _. h; behind = λ g. absurd (ground arith) }
Runs-OnCourse h (after r mv) = Move-OnCourse mv (Runs-OnCourse h r)

-- `main` has come to its end.
abbrev pub HasEnded : Machine → Type 0
HasEnded m = (m.system.caller ≡ destroyed) × (m.todo ≡ [])

abbrev pub CanMove : ℕ → Machine → Type 0
CanMove n m = (k : Machine) × (mv : Move n m k) × (quiet_move mv ≡ true)

in_call-step :
    {n : ℕ} {s t : System} (st : Step n s t) → in_call s.caller ≡ true → is_call st ≡ false
in_call-step (add x c) i = refl
in_call-step st i = ground (arith, guard st)

next_statement :
    {n : ℕ} (m : Machine) (cs : List Statement)
    → m.system.caller ≡ between
    → m.todo ≡ cs
    → closes cs ≡ true
    → CanMove n m
unfolding closes
next_statement m [] c e h = absurd (ground arith)
next_statement m (d ∷ cs) c e h = (_, call d cs c e, refl)

main_goes_on :
    {n : ℕ} {m : Machine} (c : ClientPc)
    → m.system.caller ≡ c
    → 0 < n
    → Reach n m.system
    → OnCourse m
    → HasEnded m ⊎ CanMove n m
main_goes_on {m = m} between e p r v =
    inr (next_statement m m.todo e refl (v.ahead (ground (arith, e))))
main_goes_on destroyed e p r v = inl (e, v.behind (ground (arith, e)))
main_goes_on c e p r v =
    let (t, st, q) = never_stuck p r (ground (arith, e)) in
    inr (_, step st (in_call-step st (ground (arith, e))), q)

-- `k` moves with no spurious wakeup among them.
pub data QuietRun (n : ℕ) (m : Machine) : ℕ → Machine → Type 0 where
  none_yet : QuietRun n m zero m
  one_more :
      {k : ℕ} {l o : Machine}
      → QuietRun n m k l
      → (mv : Move n l o) → quiet_move mv ≡ true
      → QuietRun n m (suc k) o

QuietRun-nearer :
    {n : ℕ} {m : Machine} {k : ℕ} {l : Machine}
    → QuietRun n m k l
    → program_rank n l + k ≤ program_rank n m
QuietRun-nearer none_yet = omega arith
QuietRun-nearer (one_more d mv q) = omega (arith, QuietRun-nearer d, Move-nearer mv q)

pub QuietRun-Runs :
    {n : ℕ} {program : List Statement} {m : Machine} {k : ℕ} {l : Machine}
    → Runs n program m
    → QuietRun n m k l
    → Runs n program l
QuietRun-Runs r none_yet = r
QuietRun-Runs r (one_more d mv q) = after (QuietRun-Runs r d) mv

-- A program whose last call is `tpool_destroy` comes to its end, in a pool with workers: with no
-- spurious wakeup, client and workers make at most as many moves as the rank of the machine, and until
-- the pool is destroyed and nothing is left to call, one of them can move.
pub program_ends :
    {n k : ℕ} (program : List Statement) {m l : Machine}
    → 0 < n
    → closes program ≡ true
    → Runs n program m
    → QuietRun n m k l
    → (k ≤ program_rank n m) × (HasEnded l ⊎ CanMove n l)
program_ends program {l = l} p h r d =
    let s = QuietRun-Runs r d in
    (
      omega (arith, QuietRun-nearer d),
      main_goes_on l.system.caller refl p (Runs-Reach s) (Runs-OnCourse h s),
    )
