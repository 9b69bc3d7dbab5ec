-- ===== src/Threads/Work/Moves.antt =====
-- What the steps of `scheduler` do to the loops of the threads.
use ntu_systems_programming.Prelude.{ℕ, ◌-◌, ◌<◌, arith}
use ntu_systems_programming.Threads.Types.{System}
use ntu_systems_programming.Threads.Scheduler.{wake, park, retire, advance}
use ntu_systems_programming.Threads.Queues.{InOrder}
use ntu_systems_programming.Threads.Work.{AllSound, SoundBut}

-- A thread that waits is at `lock`.
module _ {skip : ℕ} (s : System) (v : InOrder skip s) where
  pub wake-AllSound : AllSound s → AllSound (wake s)
  unfolding wake
  wake-AllSound h k p = ground (arith, h k, v.parked 0)

  pub wake-SoundBut : SoundBut skip s → SoundBut skip (wake s)
  unfolding wake
  wake-SoundBut h k p ne = ground (arith, h k, v.parked 0)

module _ (s : System) (c : s.rq_current < s.rq_size) where
  pub retire-AllSound : SoundBut s.rq_current s → AllSound (retire s)
  unfolding retire
  retire-AllSound h k p = ground (arith, h k, h (s.rq_size - 1))

  pub park-AllSound : AllSound s → AllSound (park s)
  unfolding park
  park-AllSound h k p = ground (arith, h k, h (s.rq_size - 1))

pub advance-AllSound : (s : System) → AllSound s → AllSound (advance s)
unfolding advance
advance-AllSound s h = h
