-- ===== src/Services/Loop.antt =====
-- The loop of the process "Manager" in HW2/service.c: the words that `scanf` reads, and the commands
-- that they make.
use ntu_systems_programming.Prelude.{ℕ, ◌+◌, none, some, List, [], ◌∷◌, ◌++◌, if◌then◌else◌}
use ntu_systems_programming.Prelude.Text.{Bytes, str_eq}
use ntu_systems_programming.Services.Types.{Manager, Line, manager_name}
use ntu_systems_programming.Services.Manager.{
  new_manager, spawn_command, exchange_command, kill_command, kill_manager,
}

-- A command with the words behind it.
pub data Command : Type 0 where
  spawn_of exchange_of : Bytes → Bytes → Command
  kill_of : Bytes → Command

-- What the next `scanf` reads: a command, or a word of the command that has been read.
pub data Reading : Type 0 where
  at_command spawn_parent exchange_parent kill_target : Reading
  spawn_child exchange_child : Bytes → Reading

abbrev pub spawn_word : Bytes
spawn_word = b's' ∷ b'p' ∷ b'a' ∷ b'w' ∷ b'n' ∷ []

abbrev pub kill_word : Bytes
kill_word = b'k' ∷ b'i' ∷ b'l' ∷ b'l' ∷ []

abbrev pub exchange_word : Bytes
exchange_word = b'e' ∷ b'x' ∷ b'c' ∷ b'h' ∷ b'a' ∷ b'n' ∷ b'g' ∷ b'e' ∷ []

-- The tests of `command`; any other word is left alone.
unfoldable pub after_word : Bytes → Reading
after_word command =
    if str_eq command spawn_word
    then spawn_parent
    else if str_eq command kill_word
    then kill_target
    else if str_eq command exchange_word
    then exchange_parent
    else at_command

-- The commands in the words of the input, for words that fit into `command`, `parent_name` and
-- `child_name`. A command that the input ends in is not one of them: `scanf` then leaves the rest of it as
-- it was before.
unfoldable pub read_words : Reading → List Bytes → List Command
unfolding after_word
read_words r [] = []
read_words at_command (w ∷ ws) = read_words (after_word w) ws
read_words spawn_parent (w ∷ ws) = read_words (spawn_child w) ws
read_words exchange_parent (w ∷ ws) = read_words (exchange_child w) ws
read_words kill_target (w ∷ ws) = kill_of w ∷ read_words at_command ws
read_words (spawn_child p) (w ∷ ws) = spawn_of p w ∷ read_words at_command ws
read_words (exchange_child p) (w ∷ ws) = exchange_of p w ∷ read_words at_command ws

-- How a round of the loop ends: at the head of the next one, behind the loop, or in a `read` or `wait`
-- that does not return.
pub data RoundEnd : Type 0 where
  goes_on : Manager → List Line → RoundEnd
  leaves : List Line → RoundEnd
  blocks : RoundEnd

-- A round: `left` and `num` are what the buffer and the new `Node` hold before they are written.
unfoldable pub manager_round : ℕ → ℕ → Command → Manager → RoundEnd
unfolding spawn_command kill_command kill_manager
manager_round left num (spawn_of parent_name child_name) m =
    let (after, lines) = spawn_command left num parent_name child_name m in goes_on after lines
manager_round left num (exchange_of parent_name child_name) m =
    goes_on m (exchange_command parent_name child_name m)
manager_round left num (kill_of target) m =
    if str_eq target manager_name
    then elim (kill_manager m) [ none ↦ blocks | some lines ↦ leaves lines ]
    else elim (kill_command left target m) [ none ↦ blocks | some told ↦ goes_on told.0 told.1 ]

-- How `main` ends, and what has been printed: it returns, it waits for ever (with the lines of the
-- commands before), or the input has ended. What `main` does behind the end of its input is not
-- modelled: no result of `scanf` is tested, and its loop goes on for ever with the last `command`.
pub data Session : Type 0 where
  returned blocked starved : List Line → Session

abbrev pub after_lines : List Line → Session → Session
after_lines ls (returned more) = returned (ls ++ more)
after_lines ls (blocked more) = blocked (ls ++ more)
after_lines ls (starved more) = starved (ls ++ more)

-- The loop, from round `k` on.
unfoldable pub manager_loop : (ℕ → ℕ) → (ℕ → ℕ) → ℕ → List Command → Manager → Session
unfolding manager_round
manager_loop left num k [] m = starved []
manager_loop left num k (c ∷ cs) m = elim (manager_round (left k) (num k) c m) [
  | goes_on after lines ↦ after_lines lines (manager_loop left num (k + 1) cs after)
  | leaves lines ↦ returned lines
  | blocks ↦ blocked []
]

-- The process "Manager" on the words of its input.
unfoldable pub session : (ℕ → ℕ) → (ℕ → ℕ) → List Bytes → Session
unfolding read_words manager_loop
session left num words = manager_loop left num 0 (read_words at_command words) new_manager
