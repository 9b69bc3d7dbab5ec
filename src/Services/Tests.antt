-- ===== src/Services/Tests.antt =====
-- Runs of the commands of HW2/service.c, and the theorems about it at concrete trees.
use ntu_systems_programming.Prelude.{
  ℕ, ◌≡◌, refl, true, false, List, [], ◌∷◌, ◌++◌, map, some, none, ◌⊎◌,
}
use ntu_systems_programming.Prelude.Text.{Bytes}
use ntu_systems_programming.Services.Types.{
  Service, no_child, child, Manager, received, killed, exchanged, manager_name, spawn_message,
  exchange_message, kill_message, find_message, want, another, word_from,
}
use ntu_systems_programming.Services.Handlers.{
  find, exchange, spawn, create_service, kill, all_exit, exit_all, Told,
}
use ntu_systems_programming.Services.Manager.{
  new_manager, spawn_command, exchange_command, kill_command, kill_manager, waits_return, zombies,
}
use ntu_systems_programming.Services.Messages.{message_words}
use ntu_systems_programming.Services.Search.{live, has, up_to, exchange_command_lem}
use ntu_systems_programming.Services.Loop.{
  returned, session, read_words, after_word, spawn_word, kill_word, exchange_word, manager_loop,
  manager_round,
}
use ntu_systems_programming.Services.Kills.Stranded.{kill_passed_blocks}
use ntu_systems_programming.Services.Kills.{spared, is_found, always, kill_lem, kill_command_lem}

abbrev a_name : Bytes
a_name = b'a' ∷ []

abbrev b_name : Bytes
b_name = b'b' ∷ b'2' ∷ []

abbrev c_name : Bytes
c_name = b'c' ∷ []

-- Manager → a → b2 → c, as four "spawn" commands make it.
abbrev chain : Manager
unfolding spawn_command create_service spawn word_from
chain =
    let one = (spawn_command 0 5 manager_name a_name new_manager).0 in
    let two = (spawn_command 0 6 a_name b_name one).0 in (spawn_command 0 7 b_name c_name two).0

chain_live : live chain.children ≡ a_name ∷ b_name ∷ c_name ∷ []
unfolding live spawn_command create_service spawn word_from
chain_live = refl

message_words_example :
    (want (spawn_message a_name b_name) ≡ a_name)
    × (another (spawn_message a_name b_name) ≡ b_name)
    × (another (exchange_message a_name b_name) ≡ b_name)
    × (want (kill_message a_name) ≡ a_name)
    × (want (find_message a_name) ≡ a_name)
message_words_example = message_words a_name b_name refl refl

exchange_command_lem_example :
    exchange_command a_name c_name chain
    ≡ received manager_name (exchange_message a_name c_name)
      ∷ (map (λ n. received n (exchange_message a_name c_name)) (up_to c_name (live chain.children))
          ++ exchanged a_name c_name ∷ [])
exchange_command_lem_example = exchange_command_lem a_name c_name chain refl refl

kill_lem_example :
    (t : Told) × (kill always (kill_message c_name) chain.children ≡ some t)
    × (is_found t.found ≡ has c_name (live chain.children))
    × (live t.children ≡ spared c_name chain.children)
    × ((has c_name (live chain.children) ≡ true) ⊎ (t.children ≡ chain.children))
unfolding all_exit spawn_command create_service spawn word_from
kill_lem_example = kill_lem c_name chain.children refl refl

kill_command_lem_example :
    (after : Manager) × (num : ℕ) × (kill_command 0 c_name chain
      ≡ some (
        after,
        received manager_name (kill_message c_name)
            ∷ (map (λ n. received n (kill_message c_name)) (up_to c_name (live chain.children))
                ++ killed c_name num ∷ []),
      ))
    × (after.child_num ≡ chain.child_num)
unfolding all_exit has live spawn_command create_service spawn word_from
kill_command_lem_example = kill_command_lem 0 c_name chain refl refl refl

abbrev alive : Bytes → ℕ → Service
alive name num = record { name = name; have_killed = false; child_num = num; exited = false }

-- What "kill c" leaves of the children of a.
abbrev after_kill : Told
after_kill = record {
  found = some (alive b_name 6);
  children =
      child (record (alive b_name 6) { have_killed = true })
        (child (record { name = c_name; have_killed = true; child_num = 7; exited = true }) no_child
          no_child)
        no_child;
}

kill_passed_blocks_example :
    kill always (kill_message a_name) (child (alive a_name 5) after_kill.children no_child) ≡ none
unfolding kill all_exit exit_all word_from
kill_passed_blocks_example =
    kill_passed_blocks always c_name (alive a_name 5)
      (child (alive b_name 6) (child (alive c_name 7) no_child no_child) no_child) no_child
      after_kill (alive b_name 6) refl refl refl refl refl

-- "kill b2" takes c with it; the count is the one that `create_service` found in a's `Node`.
kill_middle :
    kill_command 0 b_name chain
    ≡ some (
      record {
        child_num = 1;
        children =
            child
              (alive a_name 5)
              (child
                (record { name = b_name; have_killed = true; child_num = 6; exited = true })
                (child
                  (record { name = c_name; have_killed = false; child_num = 7; exited = true })
                  no_child
                  no_child)
                no_child)
              no_child;
      },
      received manager_name (kill_message b_name)
          ∷ received a_name (kill_message b_name)
          ∷ received b_name (kill_message b_name)
          ∷ killed b_name 5
          ∷ [],
    )
unfolding kill_command find kill all_exit exit_all spawn_command create_service spawn word_from
kill_middle = refl

kill_all :
    kill_manager chain
    ≡ some (received manager_name (kill_message manager_name) ∷ killed manager_name 1 ∷ [])
unfolding kill_manager zombies waits_return all_exit spawn_command create_service spawn word_from
kill_all = refl

-- The input: spawn Manager a, spawn a b2, exchange a b2, kill b2, a word that is no command, kill Manager.
abbrev input : List Bytes
input =
    spawn_word ∷ manager_name ∷ a_name ∷ spawn_word ∷ a_name ∷ b_name ∷ exchange_word ∷ a_name
    ∷ b_name ∷ kill_word ∷ b_name ∷ c_name ∷ kill_word ∷ manager_name ∷ []

session_returns :
    session (λ _. 0) (λ k. k) input
    ≡ returned (
        received manager_name (spawn_message manager_name a_name)
        ∷ received manager_name (spawn_message a_name b_name)
        ∷ received a_name (spawn_message a_name b_name)
        ∷ received manager_name (exchange_message a_name b_name)
        ∷ received a_name (exchange_message a_name b_name)
        ∷ received b_name (exchange_message a_name b_name)
        ∷ exchanged a_name b_name
        ∷ received manager_name (kill_message b_name)
        ∷ received a_name (kill_message b_name)
        ∷ received b_name (kill_message b_name)
        ∷ killed b_name 0
        ∷ received manager_name (kill_message manager_name)
        ∷ killed manager_name 1
        ∷ [])
unfolding session manager_loop manager_round read_words after_word exchange_command exchange
    kill_command find kill all_exit exit_all kill_manager waits_return zombies spawn_command
    create_service spawn word_from
session_returns = refl
