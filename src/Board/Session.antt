-- ===== src/Board/Session.antt =====
-- The loop of `main` in HW1/client.c: a command of the user, and what the client prints and sends.
use ntu_systems_programming.Prelude.{Bool, true, false, List, [], ◌∷◌, ◌++◌, if◌then◌else◌}
use ntu_systems_programming.Prelude.Text.{Bytes, newline, str_eq}
use ntu_systems_programming.Board.Client.{show, post_request, from_label, content_label}
use ntu_systems_programming.Board.Server.{yes_reply, no_reply}

abbrev pub pull_text : Bytes
pull_text = b'p' ∷ b'u' ∷ b'l' ∷ b'l' ∷ []

abbrev pub check_text : Bytes
check_text = b'c' ∷ b'h' ∷ b'e' ∷ b'c' ∷ b'k' ∷ []

abbrev pub exit_text : Bytes
exit_text = b'e' ∷ b'x' ∷ b'i' ∷ b't' ∷ []

abbrev pub post_text : Bytes
post_text = b'p' ∷ b'o' ∷ b's' ∷ b't' ∷ []

-- What the client prints: a rule, the posts of a reply, the error, or the two labels of a post.
pub data Output : Type 0 where
  rule limit_error : Output
  posts labels : Bytes → Output

-- A round of the loop: the output, the requests, and whether there is another round.
pub record Round : Type 0 where
  pub output : List Output
  pub sent : List Bytes
  pub goes_on : Bool

-- `ipt` is the line of the user, `reply` what the server answers to the first request, `from` and
-- `content` the two lines of a post.
unfoldable pub round : Bytes → Bytes → Bytes → Bytes → Round
unfolding show post_request
round ipt reply from content =
    if str_eq ipt (pull_text ++ newline ∷ [])
    then record {
      output = rule ∷ posts (show reply) ∷ rule ∷ [];
      sent = pull_text ∷ [];
      goes_on = true;
    }
    else if str_eq ipt (post_text ++ newline ∷ [])
    then (if str_eq reply yes_reply
        then record { output = limit_error ∷ []; sent = check_text ∷ []; goes_on = true }
        else if str_eq reply no_reply
        then record {
          output = labels from_label ∷ labels content_label ∷ [];
          sent = check_text ∷ post_request from content ∷ [];
          goes_on = true;
        }
        else record { output = []; sent = check_text ∷ []; goes_on = true })
    else if str_eq ipt (exit_text ++ newline ∷ [])
    then record { output = []; sent = exit_text ∷ []; goes_on = false }
    else record { output = []; sent = []; goes_on = true }

-- What the client does before the loop, behind its welcome.
unfoldable pub first_pull : Bytes → Round
unfolding show
first_pull reply = record {
  output = posts (show reply) ∷ rule ∷ [];
  sent = pull_text ∷ [];
  goes_on = true;
}
