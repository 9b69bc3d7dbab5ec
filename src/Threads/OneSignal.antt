-- ===== src/Threads/OneSignal.antt =====
-- Runs of HW3 in which the process gets signals of one kind only: SIGTSTP, from the keyboard, where
-- `alarm` is off, as it is with a time slice of 0; or SIGALRM, where nobody stops the process.
use mathlib.Core.Path.{subst}
use ntu_systems_programming.Prelude.{
  ℕ, suc, ◌<◌, ◌≤◌, ◌≡◌, refl, ap, sym, ◌∙◌, Bool, true, false, not, some, none, arith, inl, inr,
  ◌⊎◌, Bool-cases, Option-cases,
}
use ntu_systems_programming.Threads.Types.{Point, Signo, sigtstp, sigalrm, Signals, System, running}
use ntu_systems_programming.Threads.Bodies.{Leave, exits, yields, waits}
use ntu_systems_programming.Threads.Signals.{arrive, delivered, thread_yield}
use ntu_systems_programming.Threads.Scheduler.{jump, wake, park, retire, advance, scheduler}
use ntu_systems_programming.Threads.Machine.{
  init_signal, thread_setup, init_threads, globals, start, resume_mask, sighandler, leave_turn,
  sleep, turn, step,
}
use ntu_systems_programming.Threads.Queues.{ready}
use ntu_systems_programming.Threads.Safety.{IsQuiet, AllExited}
use ntu_systems_programming.Threads.Safety.Turns.{sleep-exits, sleep-yields}
use ntu_systems_programming.Threads.Startup.{asked}
use ntu_systems_programming.Threads.Exclusion.{
  Reach, begin, next, some_inj, in_bank, mutual_exclusion,
}
use ntu_systems_programming.Threads.Termination.{total_work, turns_taken, run_ends}

-- No signal of the other kind arrives.
abbrev pub allowed : Signo → Bool → Bool → Bool
allowed sigtstp tstp alrm = not alrm
allowed sigalrm tstp alrm = not tstp

-- A run of `./main timeslice f g a b` in which signals of one kind arrive, in any sleeps.
pub data Run (kind : Signo) (f g a b : ℕ) : System → Type 0 where
  begins : Run kind f g a b (start f g a b)
  goes_on :
      {s t : System} (tstp alrm : Bool)
      → Run kind f g a b s
      → 0 < s.rq_size
      → allowed kind tstp alrm ≡ true
      → step tstp alrm s ≡ some (t, jump)
      → Run kind f g a b t

-- How many turns it has taken.
unfoldable pub turns_made : {kind : Signo} {f g a b : ℕ} {s : System} → Run kind f g a b s → ℕ
turns_made begins = 0
turns_made (goes_on tstp alrm r more q e) = suc (turns_made r)

-- The mask and the pending signals whenever a thread runs: SIGALRM stays blocked.
abbrev OnlyOf : Signo → Signals → Type 0
OnlyOf sigtstp g = (g.alrm_blocked ≡ true) × (g.alrm_pending ≡ false) × (g.tstp_blocked ≡ true)
OnlyOf sigalrm g = (g.alrm_blocked ≡ true) × (g.tstp_pending ≡ false)

delivered-OnlyOf : (kind : Signo) (g : Signals) → OnlyOf kind g → delivered g ≡ none
unfolding delivered
delivered-OnlyOf sigtstp g (a, p, t) = ground (arith, a, p, t)
delivered-OnlyOf sigalrm g (a, p) = ground (arith, a, p)

arrive-OnlyOf :
    (kind : Signo) (tstp alrm : Bool) (g : Signals)
    → allowed kind tstp alrm ≡ true
    → OnlyOf kind g
    → OnlyOf kind (arrive tstp alrm g)
arrive-OnlyOf sigtstp tstp alrm g q (a, p, t) = (a, ground (arith, p, q), t)
arrive-OnlyOf sigalrm tstp alrm g q (a, p) = (a, ground (arith, p, q))

resume_mask-OnlyOf :
    (kind : Signo) (p : Point) (g : Signals) → OnlyOf kind g → OnlyOf kind (resume_mask p g)
resume_mask-OnlyOf sigtstp p g (a, q, t) = (ground (arith, a), ground (arith, q), ground (arith, t))
resume_mask-OnlyOf sigalrm p g (a, q) = (ground (arith, a), ground (arith, q))

thread_yield-OnlyOf : (kind : Signo) (g : Signals) → OnlyOf kind g → OnlyOf kind (thread_yield g).0
unfolding thread_yield delivered
thread_yield-OnlyOf sigtstp g (a, p, t) =
    (ground (arith, a, p, t), ground (arith, a, p, t), ground (arith, a, p, t))
thread_yield-OnlyOf sigalrm g (a, p) = (ground (arith, a, p), ground (arith, a, p))

-- The scheduler leaves the mask alone.
signals-scheduler : (rtv : ℕ) (s : System) → (scheduler rtv s).0.signals ≡ s.signals
unfolding scheduler wake park retire advance
signals-scheduler rtv s = ground arith

scheduler-OnlyOf :
    (kind : Signo) (rtv : ℕ) (s : System)
    → OnlyOf kind s.signals
    → OnlyOf kind (scheduler rtv s).0.signals
scheduler-OnlyOf kind rtv s h = subst (OnlyOf kind) (sym (signals-scheduler rtv s)) h

leave_turn-OnlyOf :
    (kind : Signo) (leave : Leave) (s : System)
    → OnlyOf kind s.signals
    → OnlyOf kind (leave_turn leave s).0.signals
unfolding leave_turn sighandler
leave_turn-OnlyOf kind exits s h = scheduler-OnlyOf kind 3 s h
leave_turn-OnlyOf kind waits s h = scheduler-OnlyOf kind 2 s h
leave_turn-OnlyOf kind (yields p) s h = elim (Option-cases (thread_yield s.signals).1) [
  | inl e ↦ rw (e, leave_turn) (thread_yield-OnlyOf kind s.signals h)
  | inr (signo, e) ↦
      rw (e, leave_turn) (scheduler-OnlyOf kind 1 _ (thread_yield-OnlyOf kind s.signals h))
]

sleep-OnlyOf :
    (kind : Signo) (tstp alrm : Bool) (leave : Leave) (s : System)
    → allowed kind tstp alrm ≡ true
    → OnlyOf kind s.signals
    → OnlyOf kind (sleep tstp alrm leave s).0.signals
unfolding sleep leave_turn
sleep-OnlyOf kind tstp alrm waits s q h = scheduler-OnlyOf kind 2 s h
sleep-OnlyOf kind tstp alrm exits s q h =
    let g = arrive-OnlyOf kind tstp alrm s.signals q h in
    rw (sleep-exits tstp alrm s (delivered-OnlyOf kind _ g)) (scheduler-OnlyOf kind 3 _ g)
sleep-OnlyOf kind tstp alrm (yields p) s q h =
    let g = arrive-OnlyOf kind tstp alrm s.signals q h in
    rw (sleep-yields tstp alrm p s (delivered-OnlyOf kind _ g))
      (leave_turn-OnlyOf kind (yields p) (record s { signals = arrive tstp alrm s.signals }) g)

turn-OnlyOf : (kind : Signo) (s : System) → OnlyOf kind s.signals → OnlyOf kind (turn s).0.signals
unfolding turn
turn-OnlyOf kind s h = resume_mask-OnlyOf kind _ s.signals h

step-OnlyOf :
    (kind : Signo) (tstp alrm : Bool) (s t : System)
    → allowed kind tstp alrm ≡ true
    → OnlyOf kind s.signals
    → step tstp alrm s ≡ some (t, jump)
    → OnlyOf kind t.signals
unfolding step
step-OnlyOf kind tstp alrm s t q h e = elim (Bool-cases (s.allocated (running s))) [
  | inl live ↦
      subst (λ r. OnlyOf kind r.0.signals) (some_inj (rw live at e))
        (sleep-OnlyOf kind tstp alrm (turn s).1 (turn s).0 q (turn-OnlyOf kind s h))
  | inr gone ↦ absurd (ground (arith, rw gone at e))
]

signals-start : (f g a b : ℕ) → (start f g a b).signals ≡ init_signal
unfolding start init_threads thread_setup
signals-start f g a b = signals-scheduler 0 (init_threads f g a b globals) ∙ ground arith

init-OnlyOf : (kind : Signo) → OnlyOf kind init_signal
init-OnlyOf sigtstp = (refl, refl, refl)
init-OnlyOf sigalrm = (refl, refl)

Run-OnlyOf : {kind : Signo} {f g a b : ℕ} {s : System} → Run kind f g a b s → OnlyOf kind s.signals
Run-OnlyOf {kind} {f} {g} {a} {b} begins =
    subst (OnlyOf kind) (sym (signals-start f g a b)) (init-OnlyOf kind)
Run-OnlyOf {kind} (goes_on {s} {t} tstp alrm r more q e) =
    step-OnlyOf kind tstp alrm s t q (Run-OnlyOf r) e

-- No handler cuts a sleep of such a run short.
Run-IsQuiet :
    {kind : Signo} {f g a b : ℕ} {s : System} (tstp alrm : Bool)
    → Run kind f g a b s
    → allowed kind tstp alrm ≡ true
    → IsQuiet tstp alrm s
Run-IsQuiet {kind} {s = s} tstp alrm r q =
    delivered-OnlyOf kind _ (arrive-OnlyOf kind tstp alrm _ q (turn-OnlyOf kind s (Run-OnlyOf r)))

-- So it is a run of `Reach`, of as many turns.
Run-Reach :
    {kind : Signo} {f g a b : ℕ} {s : System} (r : Run kind f g a b s)
    → (q : Reach f g a b s) × (turns_taken q ≡ turns_made r)
unfolding turns_taken turns_made
Run-Reach begins = (begin, refl)
Run-Reach (goes_on tstp alrm r more q e) =
    let (reach, same) = Run-Reach r in
    (next tstp alrm reach more (Run-IsQuiet tstp alrm r q) e, ap suc same)

-- If a thread is asked for, and signals of one kind only arrive, however many and whenever, a run
-- takes at most as many turns as its arguments ask for, and as long as a thread is left, another turn
-- ends in a jump and the bound is not reached yet; in each state at most one of the threads that can
-- run is between `lock` and `unlock`.
pub one_signal_ends :
    {kind : Signo} {f g a b : ℕ} {s : System}
    → 0 < asked f g a b
    → (r : Run kind f g a b s) (tstp alrm : Bool) → allowed kind tstp alrm ≡ true
    → (turns_made r ≤ total_work f g a b)
      × (AllExited s
          ⊎ ((t : System) × (step tstp alrm s ≡ some (t, jump))
              × (turns_made r < total_work f g a b)))
      × ((j k : ℕ)
          → j < s.rq_size
          → k < s.rq_size
          → in_bank (ready s j).environment ≡ true
          → in_bank (ready s k).environment ≡ true
          → j ≡ k)
one_signal_ends h r tstp alrm q =
    let (reach, same) = Run-Reach r in
    let (le, end) = run_ends h reach tstp alrm (Run-IsQuiet tstp alrm r q) in
    (
      omega (arith, le, same),
      elim end [ inl gone ↦ inl gone | inr (t, e, lt) ↦ inr (t, e, omega (arith, lt, same)) ],
      λ j k p o cj ck. (mutual_exclusion h reach j k p o cj ck).0,
    )
