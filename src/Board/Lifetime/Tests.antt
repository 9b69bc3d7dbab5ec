-- ===== src/Board/Lifetime/Tests.antt =====
-- The first rounds of a server of HW1 that has just come up.
use ntu_systems_programming.Prelude.{◌≡◌, refl, true, false, some, List, ◌==◌, arith}
use ntu_systems_programming.Board.Session.{pull_text}
use ntu_systems_programming.Board.Connections.{
  connected, try_again, bytes_of, Events, Main, Output, goes_on, main_round,
}
use ntu_systems_programming.Board.Setup.{sets_up, ServerCalls, Listener, opened, server_main}
use ntu_systems_programming.Board.Starts.{TableOk}
use ntu_systems_programming.Board.Lifetime.{replies_within}
use ntu_systems_programming.Board.Lifetime.Rounds.{begins, round, served_now, replies_to_ready}

abbrev all_well : ServerCalls
all_well = record {
  socket = some 3;
  sets_option = true;
  binds = true;
  listens = true;
  maxfd = 8;
  allocates = true;
}

-- Client 5 connects, and then pulls.
abbrev arrival : Events
arrival = record {
  is_ready = λ fd. fd == 3;
  accepted = connected 5;
  is_locked = λ _. false;
  received = λ fd. bytes_of pull_text;
  tmp = λ _ _. 255;
  j = λ _. 0;
  past_set = false;
}

abbrev request : Events
request = record arrival { is_ready = λ fd. fd == 5; accepted = try_again }

-- A state of the server, and the output of the round that comes to it.
record Stage (e : Events) (m : Main) : Type 0 where
  last : Main
  out : List Output
  is_next : main_round 3 8 e m ≡ goes_on last out

-- What `server_main` leaves.
record Launch : Type 0 where
  up : Listener
  state : Main
  is_up : server_main 2 8080 all_well (opened (λ _. 0) (λ _. 0) 0) ≡ sets_up (up, state)

launch : Launch
unfolding server_main
launch = record { up = _; state = _; is_up = refl }

one : Stage arrival launch.state
unfolding main_round launch
one = record { last = _; out = _; is_next = refl }

two : Stage request one.last
unfolding main_round one launch
two = record { last = _; out = _; is_next = refl }

replies_to_ready_example :
    TableOk 3 one.last.requests
    × TableOk 3 two.last.requests
    × (replies_within (served_now launch.up request one.last) two.out ≡ true)
unfolding launch one
replies_to_ready_example =
    replies_to_ready 2 8080 all_well (opened (λ _. 0) (λ _. 0) 0) request two.out launch.is_up
      (round arrival one.out begins (λ fd h. ground (arith, h)) one.is_next)
      (λ fd h. ground (arith, h)) two.is_next
