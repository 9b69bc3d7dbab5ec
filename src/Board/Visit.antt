-- ===== src/Board/Visit.antt =====
-- A client of HW1 at work: the loop of HW1/client.c with the answers of HW1/server.c, among the requests
-- of other clients.
pub mod Screen
pub mod Plain
pub mod Prompts
pub mod Seen
use ntu_systems_programming.Prelude.{
  ℕ, Bool, Option, none, some, List, [], ◌∷◌, ◌++◌, if◌then◌else◌, drop,
}
use ntu_systems_programming.Prelude.Text.{Bytes, Memory}
use ntu_systems_programming.Board.Server.{Server, read_all, handle}
use ntu_systems_programming.Board.Session.{Output, Round, round, pull_text, first_pull}
use ntu_systems_programming.Board.Refinement.Posts.{Call, serve}

-- What a request meets in the server: the locks of other processes, the uninitialised `tmp` and `j`, and
-- whether a round of `main` ends behind it.
pub record Site : Type 0 where
  pub is_locked : ℕ → Bool
  pub ends_round : Bool
  pub tmp : Memory
  pub j : ℕ

-- What the user types in a round (`from` and `content` for a post), what its two requests meet, and the
-- requests of other clients that the server answers before the first and before the second.
pub record Prompt : Type 0 where
  pub ipt : Bytes
  pub from : Bytes
  pub content : Bytes
  pub first : Site
  pub second : Site
  pub before : List Call
  pub between : List Call

-- The requests of other clients.
unfoldable pub after_calls : List Call → Server → Server
unfolding serve
after_calls [] s = s
after_calls (c ∷ cs) s = after_calls cs (serve c s).0

-- A request of the client, if it sends one, and the reply that it reads.
unfoldable pub send : Site → Option Bytes → Server → Server × Bytes
unfolding handle read_all
send m none s = (s, [])
send m (some text) s =
    let (s', reply) = handle m.is_locked text m.tmp m.j s in
    (if m.ends_round then read_all s' else s', elim reply [ none ↦ [] | some bytes ↦ bytes ])

abbrev pub first_of : List Bytes → Option Bytes
first_of [] = none
first_of (x ∷ xs) = some x

-- A round: the first request does not depend on its reply.
unfoldable pub prompt_round : Prompt → Server → Server × Round
unfolding after_calls send round
prompt_round p s =
    let begun = round p.ipt [] p.from p.content in
    let (s1, reply) = send p.first (first_of begun.sent) (after_calls p.before s) in
    let r = round p.ipt reply p.from p.content in
    ((send p.second (first_of (drop 1 r.sent)) (after_calls p.between s1)).0, r)

-- The loop of the client, and what it prints.
unfoldable pub visit : List Prompt → Server → List Output
unfolding prompt_round
visit [] s = []
visit (p ∷ ps) s =
    let (s', r) = prompt_round p s in
    let rest = visit ps s' in r.output ++ (if r.goes_on then rest else [])

-- The client from its start: it pulls once, and then goes into its loop.
unfoldable pub client_run : Site → List Call → List Prompt → Server → List Output
unfolding after_calls send visit first_pull
client_run m before ps s =
    let (s', reply) = send m (some pull_text) (after_calls before s) in
    (first_pull reply).output ++ visit ps s'
