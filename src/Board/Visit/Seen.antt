-- ===== src/Board/Visit/Seen.antt =====
-- What a client of HW1 prints, from its start to its end.
use ntu_systems_programming.Prelude.{◌≡◌, refl, some, List, [], ◌∷◌, map}
use ntu_systems_programming.Board.Server.{Server}
use ntu_systems_programming.Board.Session.{pull_text, first_pull}
use ntu_systems_programming.Board.Spec.{Board, Request, settle, answer}
use ntu_systems_programming.Board.Slot.{InSync}
use ntu_systems_programming.Board.Refinement.Posts.{Call}
use ntu_systems_programming.Board.Refinement.{seen, board_of, board_of-Amid}
use ntu_systems_programming.Board.Visit.{
  Site, Prompt, after_calls, send, prompt_round, visit, client_run,
}
use ntu_systems_programming.Board.Visit.Screen.{
  after_requests, board_round, screen, full_screen, IsPlainBoard, AllTame, TamePrompts,
}
use ntu_systems_programming.Board.Visit.Plain.{
  ShowsPlain, after_calls-ShowsPlain, send-ShowsPlain, send-pull,
}
use ntu_systems_programming.Board.Visit.Prompts.{round-Shown}

visit-screen :
    (ps : List Prompt) (s : Server) (b : Board)
    → ShowsPlain s b
    → TamePrompts ps
    → visit ps s ≡ screen ps b
unfolding visit screen
visit-screen [] s b v t = refl
visit-screen (p ∷ ps) s b v (t, before, between, ts) =
    let r = round-Shown p s b v t before between in
    rw (r.output, r.goes_on, visit-screen ps (prompt_round p s).0 (board_round p b).0 r.shows ts)
      refl

-- What a client prints from its start on is the board: first the posts that can be seen, and in the
-- rounds after "pull" these posts, one after another; after "post" an error if other processes have
-- locked all the slots, and otherwise the two labels, with the two lines on the board from then on;
-- nothing after "exit" and after any other line. Requests of other clients may come before each
-- request, in the same round of the server or in earlier ones: a pull shows the posts as they were when
-- its round began. At the start the file has been read, each record holds two strings, no slot is locked by
-- this process, and no post has a star; nor has any line that is posted, and each fits into a record.
pub user_sees_board :
    (m : Site) (before : List Call) (ps : List Prompt) (s : Server)
    → InSync s
    → IsPlainBoard (board_of s)
    → AllTame before
    → TamePrompts ps
    → client_run m before ps s ≡ full_screen m before ps (board_of s)
unfolding client_run full_screen first_pull answer
user_sees_board m before ps s v h e t =
    let w = after_calls-ShowsPlain before s (board_of s) (board_of-Amid s v, h) e in
    rw
      (
        send-pull m (after_calls before s) (after_requests (map seen before) (board_of s)) w,
        visit-screen ps (send m (some pull_text) (after_calls before s)).0
            (settle m.ends_round (after_requests (map seen before) (board_of s)))
            (send-ShowsPlain m (after_calls before s)
              (after_requests (map seen before) (board_of s)) w Request.pull (record {}))
            t,
      )
      refl
