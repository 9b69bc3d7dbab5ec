-- ===== src/Threads/Signals.antt =====
-- Signals in HW3: the handler of scheduler.c and the mask changes of `thread_yield`. `setjmp` saves
-- no mask, so after a `longjmp` out of the handler the mask is the one that the handler ran under.
use ntu_systems_programming.Prelude.{
  Bool, true, false, not, ◌&&◌, ◌||◌, Option, none, some, if◌then◌else◌,
}
use ntu_systems_programming.Threads.Types.{Signo, sigtstp, sigalrm, Signals}

-- `sigprocmask(SIG_SETMASK, &base_mask, NULL)`
abbrev pub set_base_mask : Signals → Signals
set_base_mask g = record g { tstp_blocked = true; alrm_blocked = true }

abbrev pub unblock : Signo → Signals → Signals
unblock sigtstp g = record g { tstp_blocked = false }
unblock sigalrm g = record g { alrm_blocked = false }

abbrev pub arrive : Bool → Bool → Signals → Signals
arrive tstp alrm g = record g {
  tstp_pending = g.tstp_pending || tstp;
  alrm_pending = g.alrm_pending || alrm;
}

-- While `sighandler` runs for a signal, that signal is blocked as well.
abbrev pub enter_handler : Signo → Signals → Signals
enter_handler sigtstp g = record g { tstp_blocked = true; tstp_pending = false }
enter_handler sigalrm g = record g { alrm_blocked = true; alrm_pending = false }

-- The signal that is delivered now, if one is pending and not blocked.
unfoldable pub delivered : Signals → Option Signo
delivered g =
    if g.tstp_pending && not g.tstp_blocked
    then some sigtstp
    else if g.alrm_pending && not g.alrm_blocked
    then some sigalrm
    else none

-- What `thread_yield` does after its `setjmp` has returned 0: the signals, and the signal whose
-- handler has jumped to the scheduler.
unfoldable pub thread_yield : Signals → Signals × Option Signo
thread_yield g =
    let h = unblock sigtstp g in
    let k = unblock sigalrm h in
    elim (delivered h) [
      | some signo ↦ (enter_handler signo h, some signo)
      | none ↦ elim (delivered k) [
        | some signo ↦ (enter_handler signo k, some signo)
        | none ↦ (set_base_mask k, none)
      ]
    ]
