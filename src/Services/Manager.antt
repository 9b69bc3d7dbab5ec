-- ===== src/Services/Manager.antt =====
-- The commands of the process "Manager" of HW2/service.c.
use ntu_systems_programming.Prelude.{
  ℕ, ◌+◌, ◌-◌, Bool, true, false, ◌||◌, Option, none, some, List, [], ◌∷◌, ◌++◌, ◌==◌,
  if◌then◌else◌,
}
use ntu_systems_programming.Prelude.Text.{Bytes, str_eq}
use ntu_systems_programming.Services.Types.{
  Children, no_child, child, Manager, Line, received, not_exist, killed, exchanged, spawn_message,
  exchange_message, kill_message, find_message, manager_name,
}
use ntu_systems_programming.Services.Handlers.{
  find, exchange, create_service, spawn, all_exit, kill, Answer, not_here, below_here, here,
}

-- `main` before its loop.
abbrev pub new_manager : Manager
new_manager = record { child_num = 0; children = no_child }

-- "spawn": `left` is the byte of the buffer behind an answer.
unfoldable pub spawn_command : ℕ → ℕ → Bytes → Bytes → Manager → Manager × List Line
unfolding create_service spawn
spawn_command left num parent_name child_name m =
    let message = spawn_message parent_name child_name in
    let line = received manager_name message in
    let told = spawn left message num m.children in
    if str_eq manager_name parent_name
    then (
      record { child_num = m.child_num + 1; children = create_service child_name num m.children },
      line ∷ [],
    )
    else (
      record m { children = told.children },
      line ∷ (told.lines ++ (if told.yes then [] else not_exist parent_name ∷ [])),
    )

-- "exchange": both branches of the code do this.
unfoldable pub exchange_command : Bytes → Bytes → Manager → List Line
unfolding exchange
exchange_command parent_name child_name m =
    let message = exchange_message parent_name child_name in
    received manager_name message
    ∷ ((exchange message m.children).1 ++ exchanged parent_name child_name ∷ [])

-- Whether each `wait` of "kill Manager" returns: `spare` children have exited and are not waited for.
unfoldable pub waits_return : ℕ → Children → Bool
unfolding all_exit
waits_return spare no_child = true
waits_return spare (child c own rest) =
    let same = waits_return spare rest in
    let fewer = waits_return (spare - 1) rest in
    if c.have_killed || all_exit own then same else if spare == 0 then false else fewer

-- The children that have exited before "kill Manager".
unfoldable pub zombies : Children → ℕ
zombies no_child = 0
zombies (child c own rest) = (if c.exited then 1 else 0) + zombies rest

-- The test `buf[3] == 'n'`.
abbrev pub marks_gone : ℕ → Answer → Bool
marks_gone left not_here = false
marks_gone left below_here = left == b'n'
marks_gone left here = true

-- "kill" of another service than "Manager": nothing, if a `read` or a `wait` does not return.
unfoldable pub kill_command : ℕ → Bytes → Manager → Option (Manager × List Line)
unfolding find kill
kill_command left target m =
    let line = received manager_name (kill_message target) in
    let search = find (find_message target) m.children in
    if search.0
    then elim (kill (marks_gone left) (kill_message target) m.children) [
      | none ↦ none
      | some told ↦ some (
        record m { children = told.children },
        line
            ∷ (search.1 ++ elim told.found [ none ↦ [] | some c ↦ killed target c.child_num ∷ [] ]),
      )
    ]
    else some (m, line ∷ (search.1 ++ not_exist target ∷ []))

-- "kill Manager": the lines before `main` returns.
unfoldable pub kill_manager : Manager → Option (List Line)
unfolding waits_return zombies
kill_manager m =
    if waits_return (zombies m.children) m.children
    then some
        (received manager_name (kill_message manager_name) ∷ killed manager_name m.child_num ∷ [])
    else none
