-- ===== src/Threads/Termination.antt =====
-- How long a run of HW3/main.c is in which no handler cuts a sleep short.
use mathlib.Core.Path.{subst}
use ntu_systems_programming.Prelude.{
  ℕ, suc, ◌+◌, ◌<◌, ◌≤◌, ◌≡◌, refl, ap, ◌∙◌, Bool, true, false, some, inl, inr, ◌⊎◌, arith, ◌==◌,
  not, if◌then◌else◌,
}
use ntu_systems_programming.Threads.Word.{is_positive}
use ntu_systems_programming.Threads.Types.{Point, fib_start, fact_start, bank_start, System}
use ntu_systems_programming.Threads.Scheduler.{jump}
use ntu_systems_programming.Threads.Machine.{
  step, start, thread_setup, init_threads, globals, sleep, turn,
}
use ntu_systems_programming.Threads.Safety.{Good, IsQuiet, AllExited}
use ntu_systems_programming.Threads.Safety.Turns.{step-Kept}
use ntu_systems_programming.Threads.Startup.{asked}
use ntu_systems_programming.Threads.Totals.Starts.{new_thread, asked_total, start-total}
use ntu_systems_programming.Threads.Exclusion.{Reach, begin, next, Reach-Good, some_inj}
use ntu_systems_programming.Threads.Work.{turns_left, is_sound, work, AllSound}
use ntu_systems_programming.Threads.Work.Turns.{step_lighter}

-- The turns that the arguments of `main` ask for.
abbrev pub total_work : ℕ → ℕ → ℕ → ℕ → ℕ
total_work f g a b =
    (if is_positive f then f else 0)
    + (if is_positive g then g else 0)
    + (if a == 0 then 0 else 4)
    + (if b == 0 then 0 else 4)

-- The blocks of the ready threads lie below `brk`, and the loops of the threads are below their ends.
record IsReady (s : System) : Type 0 where
  below : (k : ℕ) → k < s.rq_size → s.ready_queue k < s.brk
  sound : AllSound s

thread_setup-IsReady :
    (p : Point) (id arg : ℕ) {s : System}
    → is_sound (new_thread p id arg) ≡ true
    → IsReady s
    → IsReady (thread_setup p id arg s)
unfolding thread_setup
thread_setup-IsReady p id arg h v = record {
  below = λ k q. ground (arith, v.below k);
  sound = λ k q. ground (arith, v.below k, v.sound k, h);
}

-- One `if` of `init_threads`.
setup_if-IsReady :
    (b : Bool) (p : Point) (id arg : ℕ) {s : System}
    → (b ≡ true → is_sound (new_thread p id arg) ≡ true)
    → IsReady s
    → IsReady (if b then thread_setup p id arg s else s)
setup_if-IsReady true p id arg h v = thread_setup-IsReady p id arg (h refl) v
setup_if-IsReady false p id arg h v = v

globals-IsReady : IsReady globals
globals-IsReady = record {
  below = λ k h. absurd (omega arith);
  sound = λ k h. absurd (omega arith);
}

init_threads-IsReady : (f g a b : ℕ) → IsReady (init_threads f g a b globals)
unfolding init_threads
init_threads-IsReady f g a b =
    setup_if-IsReady (not (b == 0)) bank_start 3 b (λ h. refl)
      (setup_if-IsReady (not (a == 0)) bank_start 2 a (λ h. refl)
        (setup_if-IsReady (is_positive g) fact_start 1 g (λ h. h)
          (setup_if-IsReady (is_positive f) fib_start 0 f (λ h. h) globals-IsReady)))

total_work_lem : (f g a b : ℕ) → asked_total turns_left f g a b ≡ total_work f g a b
total_work_lem f g a b = ground arith

-- How many turns a run has taken.
unfoldable pub turns_taken : {f g a b : ℕ} {s : System} → Reach f g a b s → ℕ
turns_taken begin = 0
turns_taken (next tstp alrm r more q e) = suc (turns_taken r)

start-Sound : (f g a b : ℕ) → (work (start f g a b) ≡ total_work f g a b) × AllSound (start f g a b)
unfolding start
start-Sound f g a b =
    (start-total turns_left f g a b ∙ total_work_lem f g a b, (init_threads-IsReady f g a b).sound)

-- The turn that `step` has made.
pub step-sleep :
    (tstp alrm : Bool) (s t : System)
    → Good s
    → step tstp alrm s ≡ some (t, jump)
    → (sleep tstp alrm (turn s).1 (turn s).0).0 ≡ t
unfolding step
step-sleep tstp alrm s t v e =
    ap (λ r. r.0) (some_inj (rw (v.in_order.ready_live s.rq_current v.current) at e))

Reach-Sound :
    {f g a b : ℕ} {s : System}
    → 0 < asked f g a b
    → (r : Reach f g a b s) → (turns_taken r + work s ≤ total_work f g a b) × AllSound s
unfolding turns_taken
Reach-Sound {f} {g} {a} {b} h begin = let v = start-Sound f g a b in (omega (arith, v.0), v.1)
Reach-Sound {f} {g} {a} {b} h (next {s} {t} tstp alrm r more q e) = elim (Reach-Good h r) [
  | inl good ↦
      let (le, sound) = Reach-Sound h r in
      let (l, z) = step_lighter s good sound tstp alrm q in
      subst (λ u. (suc (turns_taken r) + work u ≤ total_work f g a b) × AllSound u)
        (step-sleep tstp alrm s t good e) (omega arith, z)
  | inr gone ↦ absurd (omega (arith, gone.0))
]

-- While no handler cuts a sleep short, a run takes at most as many turns as the arguments ask for: `n`
-- for a `fibonacci` or a `factorial` up to `n`, and four for each bank operation. After any number of
-- turns of such a run, all the threads have exited, or another turn ends in a jump and the bound is
-- not reached yet.
pub run_ends :
    {f g a b : ℕ} {s : System}
    → 0 < asked f g a b
    → (r : Reach f g a b s) (tstp alrm : Bool) → IsQuiet tstp alrm s
    → (turns_taken r ≤ total_work f g a b)
      × (AllExited s
          ⊎ ((t : System) × (step tstp alrm s ≡ some (t, jump))
              × (turns_taken r < total_work f g a b)))
run_ends {f} {g} {a} {b} {s} h r tstp alrm q =
    let (le, sound) = Reach-Sound h r in
    (
      omega (arith, le),
      elim (Reach-Good h r) [
        | inr gone ↦ inl gone
        | inl good ↦
            let (out, e, kept) = step-Kept s good tstp alrm q in
            let (l, z) = step_lighter s good sound tstp alrm q in
            inr (out.0, rw (← kept.1) e, omega arith)
      ],
    )
