-- ===== src/Board/Lifetime/Rounds.antt =====
-- The server of HW1 from its start on, over any number of rounds of the loop of `main`.
use mathlib.Core.Path.{subst}
use ntu_systems_programming.Prelude.{ℕ, ◌≡◌, Bool, true, List}
use ntu_systems_programming.Board.Server.{Server, read_all}
use ntu_systems_programming.Board.Connections.{Events, Main, Output, goes_on, selected, main_round}
use ntu_systems_programming.Board.Setup.{sets_up, ServerCalls, Listener, server_main}
use ntu_systems_programming.Board.Starts.{TableOk, server_main_starts}
use ntu_systems_programming.Board.Lifetime.{
  clients, replies_within, Fine, round-Fine, NewDescriptor,
}

-- The clients that a round finds ready.
abbrev pub served_now : Listener → Events → Main → ℕ → Bool
served_now l e m =
    clients l.listen_fd
      (λ fd. selected l.listen_fd l.maxfd e (record m { server = read_all m.server }) fd)

-- The rounds of a server that has come up as `l`, from `start` on.
pub data Serves (l : Listener) (start : Main) : Main → Type 0 where
  begins : Serves l start start
  round :
      {m k : Main} (e : Events) (out : List Output)
      → Serves l start m
      → NewDescriptor e m
      → main_round l.listen_fd l.maxfd e m ≡ goes_on k out
      → Serves l start k

round_result :
    (l : Listener) (e : Events) (m k : Main) (out : List Output)
    → NewDescriptor e m
    → TableOk l.listen_fd m.requests
    → main_round l.listen_fd l.maxfd e m ≡ goes_on k out
    → TableOk l.listen_fd k.requests × (replies_within (served_now l e m) out ≡ true)
unfolding Fine
round_result l e m k out new ok h =
    subst (Fine l.listen_fd _) h (round-Fine l.listen_fd l.maxfd e m new ok)

Serves-TableOk :
    {l : Listener} {start m : Main}
    → Serves l start m
    → TableOk l.listen_fd start.requests
    → TableOk l.listen_fd m.requests
Serves-TableOk begins ok = ok
Serves-TableOk {l} (round {m} {k} e out r new h) ok =
    (round_result l e m k out new (Serves-TableOk r ok) h).0

-- From the start of the server on, after any number of rounds, each client's entry in the table is the
-- one with the number of its descriptor, and the server has its own; and a round sends every reply to
-- a client's descriptor that `select` has found ready. `accept` returns descriptors that are not in use.
pub replies_to_ready :
    (argc value : ℕ) (c : ServerCalls) (s : Server) {l : Listener} {start m k : Main} (e : Events)
    (out : List Output)
    → server_main argc value c s ≡ sets_up (l, start)
    → Serves l start m
    → NewDescriptor e m
    → main_round l.listen_fd l.maxfd e m ≡ goes_on k out
    → TableOk l.listen_fd m.requests
      × TableOk l.listen_fd k.requests
      × (replies_within (served_now l e m) out ≡ true)
replies_to_ready argc value c s {l} {start} {m} {k} e out h r new g =
    let ok = Serves-TableOk r (server_main_starts argc value c s h).1 in
    let (ok', sent) = round_result l e m k out new ok g in (ok, ok', sent)
