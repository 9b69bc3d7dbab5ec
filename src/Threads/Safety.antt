-- ===== src/Threads/Safety.antt =====
-- One turn of the machine of HW3 on queues in order, up to the exit of the last thread.
pub mod Fate
pub mod Switch
pub mod Turns
use ntu_systems_programming.Prelude.{ℕ, ◌<◌, ◌≡◌, ◌≢◌, ◌⊎◌, Bool, Option, none}
use ntu_systems_programming.Threads.Word.{minus_one}
use ntu_systems_programming.Threads.Types.{System}
use ntu_systems_programming.Threads.Signals.{arrive, delivered}
use ntu_systems_programming.Threads.Machine.{turn}
use ntu_systems_programming.Threads.Queues.{InOrder}
use ntu_systems_programming.Threads.Queues.Moves.{none_skipped}

-- The state in which a jump to `RUNNING` is made.
pub record Good (s : System) : Type 0 where
  pub in_order : InOrder none_skipped s
  pub current : s.rq_current < s.rq_size
  pub held : 0 < s.wq_size → s.bank.lock_owner ≢ minus_one

-- No handler runs in the sleep of this turn: what arrives stays pending until `thread_yield`.
abbrev pub IsQuiet : Bool → Bool → System → Type 0
IsQuiet tstp alrm s = delivered (arrive tstp alrm (turn s).0.signals) ≡ none

-- No thread is left, in either queue.
abbrev pub AllExited : System → Type 0
AllExited s = (s.rq_size ≡ 0) × (s.wq_size ≡ 0)
