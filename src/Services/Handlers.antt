-- ===== src/Services/Handlers.antt =====
-- What a service of HW2/service.c does with a message, and how it passes it to its children. A
-- function on the children is the loop over the list; a child's answer comes from the handler in its
-- process, on its own children.
use ntu_systems_programming.Prelude.{
  ℕ, Bool, true, false, Option, none, some, List, [], ◌∷◌, ◌++◌, ◌&&◌, ◌==◌, if◌then◌else◌,
}
use ntu_systems_programming.Prelude.Text.{Bytes, str_eq}
use ntu_systems_programming.Services.Types.{
  Service, Children, no_child, child, Line, received, kill_message, want, another,
}

-- The handler of "find", with the outcome of the loop over the service's own children: the answer
-- "yes" or "not", and the lines.
abbrev pub find_reply : Bytes → Bytes → Bool × List Line → Bool × List Line
find_reply buf service_name below =
    let line = received service_name (kill_message (want buf)) in
    if str_eq service_name (want buf) then (true, line ∷ []) else (below.0, line ∷ below.1)

unfoldable pub find : Bytes → Children → Bool × List Line
find buf no_child = (false, [])
find buf (child c own rest) =
    let below = find buf own in
    let beside = find buf rest in
    let answer = find_reply buf c.name below in
    if c.have_killed then beside else if answer.0 then answer else (beside.0, answer.1 ++ beside.1)

-- The handler of "exchange": it looks for the second name alone.
abbrev pub exchange_reply : Bytes → Bytes → Bool × List Line → Bool × List Line
exchange_reply buf service_name below =
    let line = received service_name buf in
    if str_eq service_name (another buf) then (true, line ∷ []) else (below.0, line ∷ below.1)

unfoldable pub exchange : Bytes → Children → Bool × List Line
exchange buf no_child = (false, [])
exchange buf (child c own rest) =
    let below = exchange buf own in
    let beside = exchange buf rest in
    let answer = exchange_reply buf c.name below in
    if c.have_killed then beside else if answer.0 then answer else (beside.0, answer.1 ++ beside.1)

-- `create_service` puts the new child at the end of the list; `num` is what `malloc` left in its
-- `child_num`.
unfoldable pub create_service : Bytes → ℕ → Children → Children
create_service child_name num no_child =
    child (record { name = child_name; have_killed = false; child_num = num; exited = false })
      no_child no_child
create_service child_name num (child c own rest) = child c own (create_service child_name num rest)

-- What "spawn" leaves: the answer, the children, the lines.
pub record Spawned : Type 0 where
  pub yes : Bool
  pub children : Children
  pub lines : List Line

abbrev pub spawn_reply : Bytes → ℕ → Bytes → Children → Spawned → Spawned
spawn_reply buf num service_name own below =
    if str_eq service_name (want buf)
    then record {
      yes = true;
      children = create_service (another buf) num own;
      lines = received service_name buf ∷ [];
    }
    else record below { lines = received service_name buf ∷ below.lines }

-- The loop: an answer has no NUL, so it is "yes" if the byte behind it, `left`, is a NUL. A service
-- writes that NUL; the manager leaves its buffer as it is.
unfoldable pub spawn : ℕ → Bytes → ℕ → Children → Spawned
spawn left buf num no_child = record { yes = false; children = no_child; lines = [] }
spawn left buf num (child c own rest) =
    let below = spawn 0 buf num own in
    let beside = spawn left buf num rest in
    let answer = spawn_reply buf num c.name own below in
    if c.have_killed
    then record beside { children = child c own beside.children }
    else if answer.yes && left == 0
    then record answer { children = child c answer.children rest }
    else record {
      yes = beside.yes;
      children = child c answer.children beside.children;
      lines = answer.lines ++ beside.lines;
    }

-- Whether each child that is told "dead" exits: a service waits for as many exits as it has children,
-- those that it has closed its pipes to among them.
unfoldable pub all_exit : Children → Bool
all_exit no_child = true
all_exit (child c own rest) =
    let below = all_exit own in
    let beside = all_exit rest in (if c.have_killed then c.exited else below) && beside

-- The children after that.
unfoldable pub exit_all : Children → Children
exit_all no_child = no_child
exit_all (child c own rest) = child (record c { exited = true }) (exit_all own) (exit_all rest)

-- The answers to "kill": "not", "yes" and "yesn".
pub data Answer : Type 0 where
  not_here below_here here : Answer

-- What the handler of "kill" leaves; a service that waits for ever leaves nothing.
pub record Reply : Type 0 where
  pub answer : Answer
  pub service : Service
  pub children : Children

-- What the loop leaves: the child that said "yes" or "yesn", and the list.
pub record Told : Type 0 where
  pub found : Option Service
  pub children : Children

abbrev pub kill_reply : Bytes → Service → Children → Option Told → Option Reply
kill_reply buf c own below =
    if str_eq c.name (want buf)
    then (if all_exit own
        then some (record {
          answer = here;
          service = record c { exited = true };
          children = exit_all own;
        })
        else none)
    else elim below [
      | none ↦ none
      | some t ↦ some (record {
        answer = elim t.found [ none ↦ not_here | some _ ↦ below_here ];
        service = c;
        children = t.children;
      })
    ]

-- A service marks the child that says "yes", whether the child or a service below it has exited; the
-- manager has a test, `marks`.
unfoldable pub kill : (Answer → Bool) → Bytes → Children → Option Told
kill marks buf no_child = some (record { found = none; children = no_child })
kill marks buf (child c own rest) =
    let below = kill (λ _. true) buf own in
    let beside = kill marks buf rest in
    if c.have_killed
    then elim beside [
      | none ↦ none
      | some t ↦ some (record t { children = child c own t.children })
    ]
    else elim (kill_reply buf c own below) [
      | none ↦ none
      | some r ↦ elim r.answer [
        | not_here ↦ elim beside [
          | none ↦ none
          | some t ↦ some (record t { children = child c r.children t.children })
        ]
        | _ ↦ some (record {
          found = some r.service;
          children =
              child (if marks r.answer then record r.service { have_killed = true } else r.service)
                r.children rest;
        })
      ]
    ]
