-- ===== src/Services/Refinement.antt =====
-- The loop of the manager in HW2/service.c, on its input, against the commands on a forest of names.
pub mod Rounds
use ntu_systems_programming.Prelude.{ℕ, ◌+◌, List, [], map}
use ntu_systems_programming.Services.Types.{Manager}
use ntu_systems_programming.Services.Loop.{
  Command, RoundEnd, goes_on, leaves, blocks, Session, returned, blocked, starved, after_lines,
  manager_loop,
}
use ntu_systems_programming.Services.Refinement.Rounds.{unsaid}

abbrev pub unsaid_of : Session → Session
unsaid_of (returned ls) = returned (map unsaid ls)
unsaid_of (blocked ls) = blocked (map unsaid ls)
unsaid_of (starved ls) = starved (map unsaid ls)

-- The loop, by the end of the round.
module _ (left num : ℕ → ℕ) (k : ℕ) (c : Command) (cs : List Command) (m : Manager) where
  abbrev after_round : RoundEnd → Session
  after_round (goes_on after lines) = after_lines lines (manager_loop left num (k + 1) cs after)
  after_round (leaves lines) = returned lines
  after_round blocks = blocked []
