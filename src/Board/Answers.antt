-- ===== src/Board/Answers.antt =====
-- A round of the loop of HW1/server.c against the board of `Spec`, from the read at its head on.
pub mod Replies
use ntu_systems_programming.Prelude.{ℕ, ◌≡◌, Bool, true, Option, List}
use ntu_systems_programming.Prelude.Text.{Bytes}
use ntu_systems_programming.Board.Server.{Server, read_all}
use ntu_systems_programming.Board.Spec.{Board, Request}
use ntu_systems_programming.Board.Slot.{InSync}
use ntu_systems_programming.Board.Refinement.Middle.{Amid}
use ntu_systems_programming.Board.Refinement.{board_of}
use ntu_systems_programming.Board.Connections.{
  bytes_of, Events, Main, Outcome, goes_on, exits, undefined,
}
use ntu_systems_programming.Board.Answers.Replies.{text_sent, FitsIn, answered, replies_of, due}

-- Within the round that began with a board.
abbrev Within : Board → Server → Type 0
Within b s = (b' : Board) × Amid s b' × (b'.shown ≡ b.shown)

-- What holds when a round goes on.
Answers : Board → List (ℕ × Bytes) → Outcome → Type 0
Answers b want (goes_on m out) = Within b m.server × (replies_of out ≡ want)
Answers b want exits = true ≡ true
Answers b want undefined = true ≡ true

module _ (e : Events) (what : ℕ → Option Request) (b : Board) (fits : (fd : ℕ) → FitsIn (what fd))
    (sent : (fd : ℕ) → e.received fd ≡ bytes_of (text_sent (what fd))) (listen_fd : ℕ)
    (set : ℕ → Bool) where
  abbrev awaited : ℕ → ℕ → (ℕ → Option ℕ) → List (ℕ × Bytes)
  awaited n i requests = due n i listen_fd set (λ fd. answered e.is_locked b (what fd)) requests

module _ (listen_fd maxfd : ℕ) (e : Events) (what : ℕ → Option Request) (m : Main)
    (v : InSync (read_all m.server)) (fits : (fd : ℕ) → FitsIn (what fd))
    (sent : (fd : ℕ) → e.received fd ≡ bytes_of (text_sent (what fd))) where
  abbrev m1 : Main
  m1 = record m { server = read_all m.server }

  abbrev b : Board
  b = board_of m1.server
