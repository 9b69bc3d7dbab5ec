-- ===== src/Board/Lifetime.antt =====
-- What a round of the server of HW1 keeps of the table of requests, and where its replies go.
pub mod Rounds
mod Tests
use ntu_systems_programming.Prelude.{
  ℕ, zero, suc, ◌+◌, ◌≡◌, ◌≢◌, ◌⊎◌, refl, Bool, true, not, ◌&&◌, Option, none, some, List, [], ◌∷◌,
  ◌++◌, ◌==◌, arith, update, inl, inr, Option-cases, Bool-cases,
}
use ntu_systems_programming.Prelude.Text.{Bytes}
use ntu_systems_programming.Board.Server.{
  Server, read_all, Message, pull_message, check_message, exit_message, post_message, message_of,
  num_of_locked,
}
use ntu_systems_programming.Board.Connections.{
  Accepted, connected, try_again, table_full, failed, Received, bytes_of, stream_ended, read_failed,
  Events, Main, Output, warning, reply, log, closed, Outcome, goes_on, exits, undefined, selected,
  warn, said, entry_after, serve_request, after_output, serve_from, connect, main_round,
}
use ntu_systems_programming.Board.Starts.{TableOk}

-- All replies go to descriptors of the set.
unfoldable pub replies_within : (ℕ → Bool) → List Output → Bool
replies_within set [] = true
replies_within set (reply fd bytes ∷ out) = let rest = replies_within set out in set fd && rest
replies_within set (warning _ ∷ out) = replies_within set out
replies_within set (log _ ∷ out) = replies_within set out
replies_within set (closed _ ∷ out) = replies_within set out

replies_within-append :
    (set : ℕ → Bool) (out more : List Output)
    → replies_within set out ≡ true
    → replies_within set more ≡ true
    → replies_within set (out ++ more) ≡ true
unfolding replies_within
replies_within-append set [] more h g = g
replies_within-append set (reply fd bytes ∷ out) more h g =
    ground (arith, h, replies_within-append set out more (ground (arith, h)) g)
replies_within-append set (warning _ ∷ out) more h g = replies_within-append set out more h g
replies_within-append set (log _ ∷ out) more h g = replies_within-append set out more h g
replies_within-append set (closed _ ∷ out) more h g = replies_within-append set out more h g

-- What holds when a round goes on.
unfoldable pub Fine : ℕ → (ℕ → Bool) → Outcome → Type 0
Fine listen_fd set (goes_on m out) = TableOk listen_fd m.requests × (replies_within set out ≡ true)
Fine listen_fd set exits = true ≡ true
Fine listen_fd set undefined = true ≡ true

module _ (listen_fd : ℕ) (set : ℕ → Bool) where
  after_output-Fine :
      (out : List Output) (o : Outcome)
      → replies_within set out ≡ true
      → Fine listen_fd set o
      → Fine listen_fd set (after_output out o)
  unfolding Fine
  after_output-Fine out (goes_on m more) h (t, g) = (t, replies_within-append set out more h g)
  after_output-Fine out exits h g = g
  after_output-Fine out undefined h g = g

  replies_within-warn :
      (is_locked : ℕ → Bool) (s : Server) → replies_within set (warn is_locked s) ≡ true
  unfolding replies_within num_of_locked
  replies_within-warn is_locked s = ground arith

  replies_within-said :
      (message : Message) (e : Events) (i fd : ℕ) (buf : Bytes) (s : Server) (r : Option Bytes)
      → set fd ≡ true
      → replies_within set (said message e i fd buf s r) ≡ true
  unfolding replies_within
  replies_within-said pull_message e i fd buf s none h =
      replies_within-append set (warn e.is_locked s) [] (replies_within-warn e.is_locked s) refl
  replies_within-said pull_message e i fd buf s (some bytes) h =
      replies_within-append set (warn e.is_locked s) (reply fd bytes ∷ [])
        (replies_within-warn e.is_locked s) (ground (arith, h))
  replies_within-said check_message e i fd buf s none h = refl
  replies_within-said check_message e i fd buf s (some bytes) h = ground (arith, h)
  replies_within-said exit_message e i fd buf s r h = refl
  replies_within-said post_message e i fd buf s r h = refl

  entry_after-same : (message : Message) (fd f : ℕ) → entry_after message fd ≡ some f → f ≡ fd
  entry_after-same pull_message fd f h = ground (arith, h)
  entry_after-same check_message fd f h = ground (arith, h)
  entry_after-same exit_message fd f h = absurd (ground (arith, h))
  entry_after-same post_message fd f h = ground (arith, h)

  entry_after-TableOk :
      (message : Message) (i fd : ℕ) (requests : ℕ → Option ℕ)
      → TableOk listen_fd requests
      → requests i ≡ some fd
      → i ≢ listen_fd
      → TableOk listen_fd (update requests i (entry_after message fd))
  entry_after-TableOk message i fd requests (own, listens) taken other = (
    λ k f g. ground (arith, g, own k f, own i fd taken, entry_after-same message fd f),
    ground (arith, listens),
  )

  -- One request.
  serve_request-Fine :
      (e : Events) (i fd : ℕ) (buf : Bytes) (m : Main)
      → TableOk listen_fd m.requests
      → m.requests i ≡ some fd
      → i ≢ listen_fd
      → set fd ≡ true
      → TableOk listen_fd (serve_request e i fd buf m).0.requests
        × (replies_within set (serve_request e i fd buf m).1 ≡ true)
  unfolding serve_request
  serve_request-Fine e i fd buf m ok taken other h = (
    entry_after-TableOk (message_of buf) i fd m.requests ok taken other,
    replies_within-said (message_of buf) e i fd buf m.server _ h,
  )

-- The descriptors of the set but the server's own.
abbrev pub clients : ℕ → (ℕ → Bool) → ℕ → Bool
clients listen_fd set fd = set fd && not (fd == listen_fd)

Received-cases :
    (r : Received) → ((r ≡ stream_ended) ⊎ (r ≡ read_failed)) ⊎ ((buf : Bytes) × (r ≡ bytes_of buf))
Received-cases (bytes_of buf) = inr (buf, refl)
Received-cases stream_ended = inl (inl refl)
Received-cases read_failed = inl (inr refl)

serve_from-Fine :
    (listen_fd : ℕ) (set : ℕ → Bool) (n i : ℕ) (e : Events) (m : Main)
    → TableOk listen_fd m.requests
    → Fine listen_fd (clients listen_fd set) (serve_from n i listen_fd e set m)
unfolding serve_from Fine replies_within
serve_from-Fine listen_fd set zero i e m ok = (ok, refl)
serve_from-Fine listen_fd set (suc n) i e m ok = elim (Option-cases (m.requests i)) [
  | inl free ↦ elim (Bool-cases (e.past_set && not (i == listen_fd))) [
    | inl past ↦ rw (serve_from, free, past) refl
    | inr skip ↦ rw (serve_from, free, skip) (serve_from-Fine listen_fd set n (i + 1) e m ok)
  ]
  | inr (fd, taken) ↦ elim (Bool-cases (set fd && not (i == listen_fd))) [
    | inr idle ↦ rw (serve_from, taken, idle) (serve_from-Fine listen_fd set n (i + 1) e m ok)
    | inl busy ↦ elim (Received-cases (e.received fd)) [
      | inl (inl ended) ↦ rw (serve_from, taken, busy, ended) refl
      | inl (inr broken) ↦ rw (serve_from, taken, busy, broken) refl
      | inr (buf, got) ↦
          let (ok', sent) =
            serve_request-Fine listen_fd (clients listen_fd set) e i fd buf m ok taken
              (ground (arith, busy)) (ground (arith, busy, ok.0 i fd taken)) in
          rw (serve_from, taken, busy, got)
            (after_output-Fine listen_fd (clients listen_fd set) _ _ sent
              (serve_from-Fine listen_fd set n (i + 1) e _ ok'))
    ]
  ]
]

-- A new descriptor is none that the server has: `accept` returns one that is not in use.
abbrev pub NewDescriptor : Events → Main → Type 0
NewDescriptor e m = (fd : ℕ) → e.accepted ≡ connected fd → m.requests fd ≡ none

connect-TableOk :
    (listen_fd fd : ℕ) (requests : ℕ → Option ℕ)
    → requests fd ≡ none
    → TableOk listen_fd requests
    → TableOk listen_fd (update requests fd (some fd))
connect-TableOk listen_fd fd requests free (own, listens) =
    (λ k f g. ground (arith, g, own k f), ground (arith, free, listens))

module _ (listen_fd maxfd : ℕ) (e : Events) (m : Main) (new : NewDescriptor e m)
    (ok : TableOk listen_fd m.requests) where
  abbrev m1 : Main
  m1 = record m { server = read_all m.server }

  abbrev set : ℕ → Bool
  set fd = selected listen_fd maxfd e m1 fd

  -- A round that takes a connection, or fails to.
  accepted-Fine :
      (a : Accepted)
      → e.accepted ≡ a
      → set listen_fd ≡ true
      → Fine listen_fd (clients listen_fd set) (main_round listen_fd maxfd e m)
  unfolding main_round connect Fine replies_within
  accepted-Fine (connected fd) q h =
      rw (main_round, h, q)
        (after_output-Fine listen_fd (clients listen_fd set) _ _
          (replies_within-warn listen_fd (clients listen_fd set) e.is_locked m1.server)
          (serve_from-Fine listen_fd set maxfd 0 e (connect e fd m1).0
            (connect-TableOk listen_fd fd m.requests (new fd q) ok)))
  accepted-Fine try_again q h = rw (main_round, h, q) (ok, refl)
  accepted-Fine table_full q h = rw (main_round, h, q) (ok, refl)
  accepted-Fine failed q h = rw (main_round, h, q) refl

  pub round-Fine : Fine listen_fd (clients listen_fd set) (main_round listen_fd maxfd e m)
  unfolding main_round
  round-Fine = elim (Bool-cases (set listen_fd)) [
    | inl h ↦ accepted-Fine e.accepted refl h
    | inr h ↦ rw (main_round, h) (serve_from-Fine listen_fd set maxfd 0 e m1 ok)
  ]
