-- ===== src/Board/Visit/Prompts.antt =====
-- A round of the client of HW1 with the server, and what the user sees of it.
use ntu_systems_programming.Prelude.{
  ◌≡◌, refl, ap, Bool, true, false, some, List, [], ◌∷◌, ◌++◌, map, inl, inr, Bool-cases,
}
use ntu_systems_programming.Prelude.Text.{Bytes, newline, str_eq}
use ntu_systems_programming.Board.Server.{Server, record_num, yes_reply, no_reply}
use ntu_systems_programming.Board.Client.{from_label, content_label, show, post_request}
use ntu_systems_programming.Board.Session.{
  pull_text, check_text, post_text, exit_text, Output, rule, limit_error, posts, labels, Round,
  round,
}
use ntu_systems_programming.Board.Spec.{Board, Request, publish, all_locked, answer}
use ntu_systems_programming.Board.Refinement.{seen}
use ntu_systems_programming.Board.Visit.{Prompt, after_calls, send, prompt_round}
use ntu_systems_programming.Board.Visit.Screen.{after_requests, board_round, IsTame, AllTame}
use ntu_systems_programming.Board.Visit.Plain.{
  ShowsPlain, after_calls-ShowsPlain, send-ShowsPlain, send-pull, send-check, send-exit,
}

-- The rounds, by the command.
module _ (p : Prompt) (s : Server) where
  abbrev begun : Server
  begun = after_calls p.before s

  abbrev asked : Bytes → Server × Bytes
  asked text = send p.first (some text) begun

  pull_prompt :
      str_eq p.ipt (pull_text ++ newline ∷ []) ≡ true
      → prompt_round p s ≡ (
        after_calls p.between (asked pull_text).0,
        record {
          output = rule ∷ posts (show (asked pull_text).1) ∷ rule ∷ [];
          sent = pull_text ∷ [];
          goes_on = true;
        },
      )
  unfolding prompt_round round
  pull_prompt e = rw (prompt_round, round, e) refl

  full_prompt :
      str_eq p.ipt (pull_text ++ newline ∷ []) ≡ false
      → str_eq p.ipt (post_text ++ newline ∷ []) ≡ true
      → (asked check_text).1 ≡ yes_reply
      → prompt_round p s ≡ (
        after_calls p.between (asked check_text).0,
        record { output = limit_error ∷ []; sent = check_text ∷ []; goes_on = true },
      )
  unfolding prompt_round round
  full_prompt e f g = rw (prompt_round, round, e, f, g) refl

  post_prompt :
      str_eq p.ipt (pull_text ++ newline ∷ []) ≡ false
      → str_eq p.ipt (post_text ++ newline ∷ []) ≡ true
      → (asked check_text).1 ≡ no_reply
      → prompt_round p s ≡ (
        (send p.second
            (some (post_request p.from p.content))
            (after_calls p.between (asked check_text).0)).0,
        record {
          output = labels from_label ∷ labels content_label ∷ [];
          sent = check_text ∷ post_request p.from p.content ∷ [];
          goes_on = true;
        },
      )
  unfolding prompt_round round
  post_prompt e f g = rw (prompt_round, round, e, f, g) refl

  exit_prompt :
      str_eq p.ipt (pull_text ++ newline ∷ []) ≡ false
      → str_eq p.ipt (post_text ++ newline ∷ []) ≡ false
      → str_eq p.ipt (exit_text ++ newline ∷ []) ≡ true
      → prompt_round p s ≡ (
        after_calls p.between (asked exit_text).0,
        record { output = []; sent = exit_text ∷ []; goes_on = false },
      )
  unfolding prompt_round round
  exit_prompt e f g = rw (prompt_round, round, e, f, g) refl

  idle_prompt :
      str_eq p.ipt (pull_text ++ newline ∷ []) ≡ false
      → str_eq p.ipt (post_text ++ newline ∷ []) ≡ false
      → str_eq p.ipt (exit_text ++ newline ∷ []) ≡ false
      → prompt_round p s
        ≡ (after_calls p.between begun, record { output = []; sent = []; goes_on = true })
  unfolding prompt_round round send
  idle_prompt e f g = rw (prompt_round, round, e, f, g) refl

-- A round that does what the board does.
pub record Shown (r : Server × Round) (t : Board × List Output × Bool) : Type 0 where
  pub shows : ShowsPlain r.0 t.0
  pub output : r.1.output ≡ t.1
  pub goes_on : r.1.goes_on ≡ t.2

module _ (p : Prompt) (s : Server) (b : Board) (v : ShowsPlain s b)
    (tame : IsTame (publish p.from p.content)) (earlier : AllTame p.before)
    (later : AllTame p.between) where
  abbrev board1 : Board
  board1 = after_requests (map seen p.before) b

  at_first : ShowsPlain (begun p s) board1
  at_first = after_calls-ShowsPlain p.before s b v earlier

  at_second :
      {s' : Server} {b' : Board}
      → ShowsPlain s' b'
      → ShowsPlain (after_calls p.between s') (after_requests (map seen p.between) b')
  at_second {s'} {b'} w = after_calls-ShowsPlain p.between s' b' w later

  pull-Shown :
      str_eq p.ipt (pull_text ++ newline ∷ []) ≡ true → Shown (prompt_round p s) (board_round p b)
  unfolding board_round answer
  pull-Shown e =
      rw (pull_prompt p s e, board_round, e)
        (record {
          shows =
              at_second
                (send-ShowsPlain p.first (begun p s) board1 at_first Request.pull (record {}));
          output =
              ap (λ t. rule ∷ posts t ∷ rule ∷ []) (send-pull p.first (begun p s) board1 at_first);
          goes_on = refl;
        })

  post-Shown :
      str_eq p.ipt (pull_text ++ newline ∷ []) ≡ false
      → str_eq p.ipt (post_text ++ newline ∷ []) ≡ true
      → Shown (prompt_round p s) (board_round p b)
  unfolding board_round answer
  post-Shown e f =
      let checked = send-ShowsPlain p.first (begun p s) board1 at_first Request.check (record {}) in
      let reply = send-check p.first (begun p s) board1 at_first in
      elim (Bool-cases (all_locked record_num p.first.is_locked)) [
        | inl g ↦
            rw (full_prompt p s e f (rw g at reply), board_round, e, f, g)
              (record { shows = at_second checked; output = refl; goes_on = refl })
        | inr g ↦
            rw (post_prompt p s e f (rw g at reply), board_round, e, f, g)
              (record {
                shows =
                    send-ShowsPlain p.second _ _ (at_second checked) (publish p.from p.content)
                      tame;
                output = refl;
                goes_on = refl;
              })
      ]

  pub round-Shown : Shown (prompt_round p s) (board_round p b)
  unfolding board_round
  round-Shown = elim (Bool-cases (str_eq p.ipt (pull_text ++ newline ∷ []))) [
    | inl e ↦ pull-Shown e
    | inr e ↦ elim (Bool-cases (str_eq p.ipt (post_text ++ newline ∷ []))) [
      | inl f ↦ post-Shown e f
      | inr f ↦ elim (Bool-cases (str_eq p.ipt (exit_text ++ newline ∷ []))) [
        | inl g ↦
            rw (exit_prompt p s e f g, board_round, e, f, g)
              (record {
                shows = at_second (send-exit p.first (begun p s) board1 at_first);
                output = refl;
                goes_on = refl;
              })
        | inr g ↦
            rw (idle_prompt p s e f g, board_round, e, f, g)
              (record { shows = at_second at_first; output = refl; goes_on = refl })
      ]
    ]
  ]
