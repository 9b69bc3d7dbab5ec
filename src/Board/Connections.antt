-- ===== src/Board/Connections.antt =====
-- The loop of `main` in HW1/server.c: the table of requests, `select`, new connections, and the requests
-- of the clients that are ready. Descriptors are numbers, and a free entry of the table has none.
use ntu_systems_programming.Prelude.{
  ℕ, zero, suc, ◌+◌, Bool, true, false, not, ◌&&◌, Option, none, some, List, [], ◌∷◌, ◌++◌, ltb,
  ◌==◌, if◌then◌else◌, update,
}
use ntu_systems_programming.Prelude.Text.{Bytes, Memory, string_at}
use ntu_systems_programming.Board.Server.{
  Server, record_num, record_size, num_of_locked, fill, read_all, Message, pull_message,
  check_message, exit_message, post_message, message_of, respond,
}

-- What `accept` returns: a descriptor, EINTR or EAGAIN, ENFILE, or another error.
pub data Accepted : Type 0 where
  connected : ℕ → Accepted
  try_again table_full failed : Accepted

-- What `read` returns from a client: bytes, fewer than `buf` has; nothing, at the end of its stream; or -1.
pub data Received : Type 0 where
  bytes_of : Bytes → Received
  stream_ended read_failed : Received

-- What a round of the loop meets: the descriptors that can be read, what `accept` returns, the locks of
-- other processes, what `read` returns from a descriptor, and what is not defined by the code: `tmp` and
-- `j` of a post's handler, and what `FD_ISSET` says of -1.
pub record Events : Type 0 where
  pub is_ready : ℕ → Bool
  pub accepted : Accepted
  pub is_locked : ℕ → Bool
  pub received : ℕ → Received
  pub tmp : ℕ → Memory
  pub j : ℕ → ℕ
  pub past_set : Bool

-- The record of this process and its table: `requestP[i].conn_fd`, with `none` for -1.
pub record Main : Type 0 where
  pub server : Server
  pub requests : ℕ → Option ℕ

pub data Output : Type 0 where
  warning : ℕ → Output
  reply : ℕ → Bytes → Output
  log : Bytes → Output
  closed : ℕ → Output

-- How a round ends: at the head of the next one, in `ERR_EXIT`, or in what C leaves undefined.
pub data Outcome : Type 0 where
  goes_on : Main → List Output → Outcome
  exits undefined : Outcome

-- The table that `init_server` leaves.
abbrev pub init_requests : ℕ → ℕ → Option ℕ
init_requests listen_fd = update (λ _. none) listen_fd (some listen_fd)

-- The loop of `FD_SET` over the table, by the entries left.
unfoldable pub watch_from : ℕ → ℕ → (ℕ → Option ℕ) → (ℕ → Bool) → ℕ → Bool
watch_from zero i requests set = set
watch_from (suc n) i requests set =
    watch_from n (i + 1) requests
      (elim (requests i) [ none ↦ set | some fd ↦ if ltb 0 fd then update set fd true else set ])

-- The set `master` after `select`.
unfoldable pub selected : ℕ → ℕ → Events → Main → ℕ → Bool
unfolding watch_from
selected listen_fd maxfd e m fd =
    watch_from maxfd 0 m.requests (update (λ _. false) listen_fd true) fd && e.is_ready fd

-- `[Warning] Try to access locked post`
abbrev pub warn : (ℕ → Bool) → Server → List Output
warn is_locked s =
    let n = num_of_locked record_num is_locked s in if ltb 0 n then warning n ∷ [] else []

-- What the handler of a request prints and sends.
abbrev pub said : Message → Events → ℕ → ℕ → Bytes → Server → Option Bytes → List Output
said pull_message e i fd buf s r =
    warn e.is_locked s ++ elim r [ none ↦ [] | some bytes ↦ reply fd bytes ∷ [] ]
said check_message e i fd buf s r = elim r [ none ↦ [] | some bytes ↦ reply fd bytes ∷ [] ]
said exit_message e i fd buf s r = closed fd ∷ []
said post_message e i fd buf s r = log (string_at record_size (fill buf (e.tmp i) (e.j i)) 0) ∷ []

-- `free_request` for "exit"; the other messages leave the entry.
abbrev pub entry_after : Message → ℕ → Option ℕ
entry_after exit_message fd = none
entry_after _ fd = some fd

-- The request that entry `i` has sent as `buf`.
unfoldable pub serve_request : Events → ℕ → ℕ → Bytes → Main → Main × List Output
unfolding message_of string_at fill num_of_locked
serve_request e i fd buf m =
    let message = message_of buf in
    let (s, r) = respond message e.is_locked buf (e.tmp i) (e.j i) m.server in
    (
      record { server = s; requests = update m.requests i (entry_after message fd) },
      said message e i fd buf m.server r,
    )

-- The output of a round is that of its steps, in order.
abbrev pub after_output : List Output → Outcome → Outcome
after_output out (goes_on m more) = goes_on m (out ++ more)
after_output out exits = exits
after_output out undefined = undefined

-- The loop over the table, by the entries left. What C does not define ends it: at the end of a stream the
-- code calls `free` with the address of an entry, which `malloc` did not return; where `read` fails it
-- writes to `buf[-1]`; and for a free entry that `FD_ISSET` finds it reads from -1, which fails.
unfoldable pub serve_from : ℕ → ℕ → ℕ → Events → (ℕ → Bool) → Main → Outcome
unfolding serve_request
serve_from zero i listen_fd e set m = goes_on m []
serve_from (suc n) i listen_fd e set m =
    let skip = serve_from n (i + 1) listen_fd e set m in
    elim (m.requests i) [
      | none ↦ if e.past_set && not (i == listen_fd) then undefined else skip
      | some fd ↦
          if set fd && not (i == listen_fd)
          then elim (e.received fd) [
            | stream_ended ↦ undefined
            | read_failed ↦ undefined
            | bytes_of buf ↦
                let (m', out) = serve_request e i fd buf m in
                after_output out (serve_from n (i + 1) listen_fd e set m')
          ]
          else skip
    ]

-- A new connection gets its entry; the number of locked posts is a warning.
unfoldable pub connect : Events → ℕ → Main → Main × List Output
unfolding num_of_locked
connect e fd m = (record m { requests = update m.requests fd (some fd) }, warn e.is_locked m.server)

-- A round of the loop.
unfoldable pub main_round : ℕ → ℕ → Events → Main → Outcome
unfolding read_all selected connect serve_from
main_round listen_fd maxfd e m =
    let m1 : Main = record m { server = read_all m.server } in
    let set = selected listen_fd maxfd e m1 in
    if set listen_fd
    then elim e.accepted [
      | connected fd ↦
          let (m2, out) = connect e fd m1 in
          after_output out (serve_from maxfd 0 listen_fd e set m2)
      | try_again ↦ goes_on m1 []
      | table_full ↦ goes_on m1 []
      | failed ↦ exits
    ]
    else serve_from maxfd 0 listen_fd e set m1
