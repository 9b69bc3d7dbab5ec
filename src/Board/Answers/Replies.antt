-- ===== src/Board/Answers/Replies.antt =====
-- The replies of a round of HW1/server.c, and those that are due by the board of `Spec`.
use ntu_systems_programming.Prelude.{
  ℕ, zero, suc, ◌+◌, ◌≡◌, ◌≤◌, refl, ap, ◌∙◌, Bool, not, ◌&&◌, Option, none, some, List, [], ◌∷◌,
  ◌++◌, ltb, ◌==◌, arith, if◌then◌else◌, update, inl, inr, Bool-cases,
}
use ntu_systems_programming.Prelude.Text.{Bytes}
use ntu_systems_programming.Board.Server.{Server, record_num, num_of_locked, read_all}
use ntu_systems_programming.Board.Session.{exit_text}
use ntu_systems_programming.Board.Spec.{Board, Request, answer}
use ntu_systems_programming.Board.Refinement.Posts.{Fits, text_of}
use ntu_systems_programming.Board.Refinement.{board_of}
use ntu_systems_programming.Board.Connections.{
  connected, try_again, table_full, failed, Events, Main, Output, warning, reply, log, closed,
  selected, warn,
}

-- What a client sends: a request, or "exit".
abbrev pub text_sent : Option Request → Bytes
text_sent none = exit_text
text_sent (some r) = text_of r

abbrev pub FitsIn : Option Request → Type 0
FitsIn none = Unit {0}
FitsIn (some r) = Fits r

-- The reply of a board.
abbrev pub answered : (ℕ → Bool) → Board → Option Request → Option Bytes
answered l b none = none
answered l b (some r) = (answer l r b).1

-- The replies in an output, each with its descriptor.
unfoldable pub replies_of : List Output → List (ℕ × Bytes)
replies_of [] = []
replies_of (reply fd bytes ∷ out) = (fd, bytes) ∷ replies_of out
replies_of (warning _ ∷ out) = replies_of out
replies_of (log _ ∷ out) = replies_of out
replies_of (closed _ ∷ out) = replies_of out

abbrev pub reply_to : ℕ → Option Bytes → List (ℕ × Bytes)
reply_to fd none = []
reply_to fd (some bytes) = (fd, bytes) ∷ []

-- The replies that are due to the clients of a set, in the order of the table, from entry `i` on.
unfoldable pub due : ℕ → ℕ → ℕ → (ℕ → Bool) → (ℕ → Option Bytes) → (ℕ → Option ℕ) → List (ℕ × Bytes)
due zero i listen_fd set expected requests = []
due (suc n) i listen_fd set expected requests =
    let rest = due n (i + 1) listen_fd set expected requests in
    elim (requests i) [
      | none ↦ rest
      | some fd ↦ if set fd && not (i == listen_fd) then reply_to fd (expected fd) ++ rest else rest
    ]

-- The replies that are due in a round. A round whose `accept` returns no descriptor serves no client.
unfoldable pub round_due : ℕ → ℕ → Events → (ℕ → Option Request) → Main → List (ℕ × Bytes)
unfolding due
round_due listen_fd maxfd e what m =
    let s = read_all m.server in
    let set = selected listen_fd maxfd e (record m { server = s }) in
    let replies = due maxfd 0 listen_fd set (λ fd. answered e.is_locked (board_of s) (what fd)) in
    if set listen_fd
    then elim e.accepted [
      | connected fd ↦ replies (update m.requests fd (some fd))
      | try_again ↦ []
      | table_full ↦ []
      | failed ↦ []
    ]
    else replies m.requests

pub replies_of-append :
    (out more : List Output) → replies_of (out ++ more) ≡ replies_of out ++ replies_of more
unfolding replies_of
replies_of-append [] more = refl
replies_of-append (reply fd bytes ∷ out) more =
    ap (λ rs. (fd, bytes) ∷ rs) (replies_of-append out more)
replies_of-append (warning _ ∷ out) more = replies_of-append out more
replies_of-append (log _ ∷ out) more = replies_of-append out more
replies_of-append (closed _ ∷ out) more = replies_of-append out more

pub warn_silent : (l : ℕ → Bool) (s : Server) → replies_of (warn l s) ≡ []
unfolding replies_of
warn_silent l s = elim (Bool-cases (ltb 0 (num_of_locked record_num l s))) [
  | inl e ↦ rw e refl
  | inr e ↦ rw e refl
]

pub replies_of-warn :
    (l : ℕ → Bool) (s : Server) (out : List Output) → replies_of (warn l s ++ out) ≡ replies_of out
replies_of-warn l s out =
    replies_of-append (warn l s) out ∙ ap (λ rs. rs ++ replies_of out) (warn_silent l s)

-- The entries before `i` do not matter.
pub due-same :
    (n i listen_fd : ℕ) (set : ℕ → Bool) (expected : ℕ → Option Bytes) (r r' : ℕ → Option ℕ)
    → ((k : ℕ) → i ≤ k → r k ≡ r' k)
    → due n i listen_fd set expected r ≡ due n i listen_fd set expected r'
unfolding due
due-same zero i listen_fd set expected r r' h = refl
due-same (suc n) i listen_fd set expected r r' h = ground (
  arith,
  h i (omega arith),
  due-same n (i + 1) listen_fd set expected r r' (λ k p. h k (omega arith)),
)
