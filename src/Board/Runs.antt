-- ===== src/Board/Runs.antt =====
-- Sequences of requests and rounds of HW1/server.c at concrete inputs.
use ntu_systems_programming.Prelude.{
  ℕ, zero, suc, ◌-◌, ◌*◌, sym, ◌≡◌, refl, Bool, true, false, Option, none, some, List, [], ◌∷◌,
  ◌++◌, map, ◌==◌, arith, ltb, if◌then◌else◌,
}
use ntu_systems_programming.Prelude.Text.{Bytes, newline, string_at}
use ntu_systems_programming.Board.Server.{
  Server, read_all, record_size, no_reply, content_of, handle, message_of, pull, pull_from, check,
  num_of_locked, post, claim, search, find_slot, fill, copy_line, write_record,
}
use ntu_systems_programming.Board.Session.{
  pull_text, post_text, exit_text, posts, rule, labels, first_pull, round,
}
use ntu_systems_programming.Board.Client.{
  post_request, from_label, content_label, show, count_stars, print_from,
}
use ntu_systems_programming.Board.Display.{transcript, visible, view, wire}
use mathlib.Core.Path.{subst}
use ntu_systems_programming.Board.Spec.{Request, publish, answers}
use ntu_systems_programming.Board.Slot.{InSync}
use ntu_systems_programming.Board.Refinement.Posts.{Call, replies, serve}
use ntu_systems_programming.Board.Refinement.{seen, board_of, server_refines}
use ntu_systems_programming.Board.Connections.{
  try_again, bytes_of, Events, Main, Output, log, reply, goes_on, main_round,
}
use ntu_systems_programming.Board.Answers.Replies.{text_sent}
use ntu_systems_programming.Board.Visit.{
  Site, Prompt, client_run, visit, prompt_round, after_calls, send,
}
use ntu_systems_programming.Board.Visit.Screen.{PlainPost, IsPlainBoard, full_screen}
use ntu_systems_programming.Board.Visit.Seen.{user_sees_board}

abbrev blank : Server
blank = record {
  all = λ _. 0;
  last_next = 0;
  locked = λ _. false;
  db = λ _. 0;
  db_size = 0;
  offset = 0;
}

blank-InSync : InSync blank
blank-InSync = record {
  idle = λ p. refl;
  synced = λ k p. refl;
  past = λ k p. refl;
  small = omega arith;
  whole = refl;
  ended = λ p q. ((0, omega arith, refl), (0, omega arith, refl));
}

abbrev call_with : Bool → Request → Call
call_with ends r = record {
  is_locked = λ i. i == 0;
  request = r;
  ends_round = ends;
  tmp = λ _. 255;
  j = 0;
}

-- With slot 0 locked by another process: a post in a round of its own, a post, a "check" and a "pull" in
-- the next round, and a "pull" in the third.
abbrev calls : List Call
calls =
    call_with true (publish (b'a' ∷ []) (b'x' ∷ []))
    ∷ (call_with false (publish (b'b' ∷ []) (b'y' ∷ []))
        ∷ (call_with false Request.check
            ∷ (call_with true Request.pull ∷ (call_with true Request.pull ∷ []))))

server_refines_example : replies calls blank ≡ answers (map seen calls) (board_of blank)
server_refines_example = server_refines calls blank blank-InSync (omega arith)

-- The pull in the round of the second post does not show it, the next one does.
pulls_show :
    replies calls blank
    ≡ none
      ∷ none
      ∷ some no_reply
      ∷ some (39 ∷ wire ((b'a' ∷ [], b'x' ∷ []) ∷ []))
      ∷ some (39 ∷ wire ((b'a' ∷ [], b'x' ∷ []) ∷ ((b'b' ∷ [], b'y' ∷ []) ∷ [])))
      ∷ []
unfolding replies serve handle message_of read_all pull pull_from string_at check num_of_locked post
    claim search find_slot fill copy_line write_record post_request
pulls_show = refl

-- The listening descriptor is 3; client 5 posts, and client 6 pulls in the same round.
abbrev serving : Main
serving = record {
  server = blank;
  requests =
      λ i. if i == 3 then some 3 else if i == 5 then some 5 else if i == 6 then some 6 else none;
}

abbrev wanted : ℕ → Option Request
wanted fd = if fd == 5 then some (publish (b'a' ∷ []) (b'x' ∷ [])) else some Request.pull

abbrev busy_round : Events
busy_round = record {
  is_ready = λ fd. ltb 3 fd;
  accepted = try_again;
  is_locked = λ _. false;
  received = λ fd. bytes_of (text_sent (wanted fd));
  tmp = λ _ _. 255;
  j = λ _. 0;
  past_set = false;
}

-- The state behind a round, and what the round prints and sends.
record Served (e : Events) (m : Main) : Type 0 where
  last : Main
  out : List Output
  is_next : main_round 3 16 e m ≡ goes_on last out

post_and_pull : Served busy_round serving
unfolding main_round
post_and_pull = record { last = _; out = _; is_next = refl }

-- The pull does not get the post.
post_and_pull_out : post_and_pull.out ≡ log (b'a' ∷ []) ∷ reply 6 (39 ∷ []) ∷ []
unfolding post_and_pull post_request post pull
post_and_pull_out = refl

-- The user of a client posts, pulls and leaves; slot 0 is locked by another process, and another client
-- posts between the check and the post, in the same round.
abbrev site : Site
site = record { is_locked = λ i. i == 0; ends_round = true; tmp = λ _. 255; j = 0 }

abbrev typed : Bytes → List Call → Prompt
typed ipt between = record {
  ipt = ipt ++ newline ∷ [];
  from = b'a' ∷ [];
  content = b'x' ∷ [];
  first = site;
  second = site;
  before = [];
  between = between;
}

abbrev prompts : List Prompt
prompts =
    typed post_text (call_with false (publish (b'b' ∷ []) (b'y' ∷ [])) ∷ [])
    ∷ (typed pull_text [] ∷ (typed exit_text [] ∷ []))

string_at-blank : (fuel a : ℕ) → string_at fuel (λ _. 0) a ≡ []
unfolding string_at
string_at-blank zero a = refl
string_at-blank (suc fuel) a = refl

blank-PlainPost : (p : ℕ) → PlainPost (view blank p)
blank-PlainPost p =
    subst (λ bs. PlainPost (visible bs (content_of blank p)))
      (sym (string_at-blank (250 - record_size * p) (record_size * p))) (record {})

blank-IsPlainBoard : IsPlainBoard (board_of blank)
blank-IsPlainBoard p q = (blank-PlainPost p, blank-PlainPost p)

user_sees_board_example :
    client_run site [] prompts blank ≡ full_screen site [] prompts (board_of blank)
unfolding count_stars
user_sees_board_example =
    user_sees_board site [] prompts blank blank-InSync blank-IsPlainBoard (record {}) (omega arith)

-- What this client prints: both posts, that of the other client first.
visit_shows_both :
    client_run site [] prompts blank
    ≡ posts []
      ∷ rule
      ∷ labels from_label
      ∷ labels content_label
      ∷ rule
      ∷ posts (transcript ((b'b' ∷ [], b'y' ∷ []) ∷ ((b'a' ∷ [], b'x' ∷ []) ∷ [])))
      ∷ rule
      ∷ []
unfolding client_run visit prompt_round after_calls send first_pull round show count_stars
    print_from post_request serve handle message_of read_all pull pull_from string_at check
    num_of_locked post claim find_slot fill copy_line write_record
visit_shows_both = refl
