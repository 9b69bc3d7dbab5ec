-- ===== src/Pool/Programs/Draining.antt =====
-- Which tasks have run when a program of HW4 destroys its pool.
use ntu_systems_programming.Prelude.{
  arith, ℕ, ◌≡◌, refl, sym, ap, ◌∙◌, Bool, true, false, List, [], ◌∷◌, ◌++◌, ◌&&◌, append_assoc,
  append-nil, if◌then◌else◌,
}
use ntu_systems_programming.Pool.Types.{
  Task, ClientPc, between, add_enter, add_locked, wait_enter, wait_locked, wait_asleep, wait_woken,
  destroyed, System, is_nil,
}
use ntu_systems_programming.Pool.Steps.{
  Step, call_add, lock_add, add, call_wait, wait, call_destroy, Reach, init, next,
}
use ntu_systems_programming.Pool.Invariant.{times}
use ntu_systems_programming.Pool.Invariant.Guards.{guard}
use ntu_systems_programming.Pool.Safety.{tasks_served, destroyed_all_exited}
use ntu_systems_programming.Pool.Programs.{
  Statement, adds, waits, destroys, Machine, is_call, Move, step, call, Runs, start, after,
}

-- The tasks that the statements add.
unfoldable pub tasks_of : List Statement → List Task
tasks_of [] = []
tasks_of (adds x ∷ cs) = x ∷ tasks_of cs
tasks_of (waits ∷ cs) = tasks_of cs
tasks_of (destroys ∷ cs) = tasks_of cs

unfoldable pub has_wait : List Statement → Bool
has_wait [] = false
has_wait (waits ∷ cs) = true
has_wait (adds _ ∷ cs) = has_wait cs
has_wait (destroys ∷ cs) = has_wait cs

-- A wait comes after every add.
unfoldable pub settles : List Statement → Bool
unfolding has_wait
settles [] = true
settles (adds _ ∷ cs) = let rest = settles cs in has_wait cs && rest
settles (waits ∷ cs) = settles cs
settles (destroys ∷ cs) = settles cs

-- The task of a `tpool_add` that has not linked it yet.
abbrev in_hand : ClientPc → List Task
in_hand (add_enter x) = x ∷ []
in_hand (add_locked x) = x ∷ []
in_hand _ = []

abbrev adding : ClientPc → Bool
adding (add_enter _) = true
adding (add_locked _) = true
adding _ = false

abbrev waiting : ClientPc → Bool
waiting wait_enter = true
waiting wait_locked = true
waiting wait_asleep = true
waiting wait_woken = true
waiting _ = false

record Draining (tasks : List Task) (m : Machine) : Type 0 where
  all_added : m.system.added ++ (in_hand m.system.caller ++ tasks_of m.todo) ≡ tasks
  settled : settles m.todo ≡ true
  wait_ahead : adding m.system.caller ≡ true → has_wait m.todo ≡ true
  drained : has_wait m.todo ≡ false → waiting m.system.caller ≡ false → m.system.task_queue ≡ []

Step-added :
    {n : ℕ} {s t : System} (st : Step n s t)
    → is_call st ≡ false
    → (rest : List Task)
    → t.added ++ (in_hand t.caller ++ rest) ≡ s.added ++ (in_hand s.caller ++ rest)
Step-added (add x c) q rest = rw c (simp append_assoc)
Step-added (lock_add x c l) q rest = ground (arith, c)
Step-added (call_add x c) q rest = absurd (ground (arith, q))
Step-added st q rest = ground (arith, guard st)

Step-adding :
    {n : ℕ} {s t : System} (st : Step n s t)
    → is_call st ≡ false
    → adding t.caller ≡ true
    → adding s.caller ≡ true
Step-adding (call_add x c) q h = absurd (ground (arith, q))
Step-adding st q h = ground (arith, guard st)

returned : (q : List Task) → waiting (if is_nil q then between else wait_asleep) ≡ false → q ≡ []
returned [] h = refl
returned (x ∷ q) h = absurd (ground arith)

-- A queue that is empty, with no task in hand, stays empty; `tpool_wait` returns when it is.
Step-empty :
    {n : ℕ} {s t : System} (st : Step n s t)
    → is_call st ≡ false
    → adding s.caller ≡ false
    → (waiting s.caller ≡ false → s.task_queue ≡ [])
    → waiting t.caller ≡ false
    → t.task_queue ≡ []
Step-empty {s = s} (wait c) q a h w = returned s.task_queue w
Step-empty st q a h w = ground (arith, guard st, h)

Move-Draining :
    {n : ℕ} {tasks : List Task} {m k : Machine} → Move n m k → Draining tasks m → Draining tasks k
unfolding tasks_of has_wait settles
Move-Draining {m = m} (step st q) v = record {
  all_added = Step-added st q (tasks_of m.todo) ∙ v.all_added;
  settled = v.settled;
  wait_ahead = λ h. v.wait_ahead (Step-adding st q h);
  drained = λ h w. Step-empty st q (ground (arith, v.wait_ahead, h)) (λ u. v.drained h u) w;
}
Move-Draining {m = m} (call (adds x) rest c e) v = record {
  all_added = ground (arith, v.all_added, c, e);
  settled = ground (arith, v.settled, e);
  wait_ahead = λ h. ground (arith, v.settled, e);
  drained = λ h w. absurd (ground (arith, v.settled, e, h));
}
Move-Draining {m = m} (call waits rest c e) v = record {
  all_added = ground (arith, v.all_added, c, e);
  settled = ground (arith, v.settled, e);
  wait_ahead = λ h. absurd (ground (arith, h));
  drained = λ h w. absurd (ground (arith, w));
}
Move-Draining {m = m} (call destroys rest c e) v = record {
  all_added = ground (arith, v.all_added, c, e);
  settled = ground (arith, v.settled, e);
  wait_ahead = λ h. absurd (ground (arith, h));
  drained = λ h w. v.drained (ground (arith, e, h)) (ground (arith, c));
}

Runs-Draining :
    {n : ℕ} (program : List Statement) {m : Machine}
    → settles program ≡ true
    → Runs n program m
    → Draining (tasks_of program) m
Runs-Draining program h start = record {
  all_added = refl;
  settled = h;
  wait_ahead = λ g. absurd (ground (arith, g));
  drained = λ g w. refl;
}
Runs-Draining program h (after r mv) = Move-Draining mv (Runs-Draining program h r)

-- The states of the pool are those of `Reach`.
pub Runs-Reach :
    {n : ℕ} {program : List Statement} {m : Machine} → Runs n program m → Reach n m.system
Runs-Reach start = init
Runs-Reach (after r (step st q)) = next (Runs-Reach r) st
Runs-Reach (after r (call (adds x) rest c e)) = next (Runs-Reach r) (call_add x c)
Runs-Reach (after r (call waits rest c e)) = next (Runs-Reach r) (call_wait c)
Runs-Reach (after r (call destroys rest c e)) = next (Runs-Reach r) (call_destroy c)

-- A program that waits after the last task that it adds has had its tasks taken in the order in which
-- it added them, and every one executed, as often as it added it, when its `tpool_destroy` returns
-- and nothing comes after that. The workers may be any number, and wake without a signal.
pub all_tasks_run :
    {n : ℕ} (program : List Statement) {m : Machine}
    → settles program ≡ true
    → Runs n program m
    → m.system.caller ≡ destroyed
    → m.todo ≡ []
    → (m.system.taken ≡ tasks_of program)
      × ((a : Task) → times m.system.executed a ≡ times (tasks_of program) a)
unfolding has_wait tasks_of
all_tasks_run program {m} h r c e =
    let v = Runs-Draining program h r in
    let empty : m.system.task_queue ≡ [] = v.drained (ground (arith, e)) (ground (arith, c)) in
    let added : m.system.added ≡ tasks_of program =
      sym (append-nil m.system.added) ∙ ground (arith, v.all_added, c, e) in
    let taken =
      sym (append-nil m.system.taken)
      ∙ ap (λ q. m.system.taken ++ q) (sym empty)
      ∙ (tasks_served (Runs-Reach r)).0
      ∙ added in
    (
      taken,
      λ a. omega (
        arith,
        (destroyed_all_exited (Runs-Reach r) c).1 a,
        ap (λ q. times q a) empty,
        ap (λ q. times q a) added,
      ),
    )
