-- ===== src/Services/Spec.antt =====
-- The commands of HW2 on the services themselves: a forest of names, without processes, pipes,
-- messages or marks.
use ntu_systems_programming.Prelude.{
  ℕ, suc, ◌+◌, ◌&&◌, ◌||◌, Bool, true, false, not, List, [], ◌∷◌, ◌++◌, map, leb, ltb, length,
  if◌then◌else◌,
}
use ntu_systems_programming.Prelude.Text.{Bytes, str_eq}
use ntu_systems_programming.Services.Types.{
  Line, received, not_exist, killed, exchanged, spawn_message, exchange_message, kill_message,
  manager_name,
}
use ntu_systems_programming.Services.Messages.{no_space}
use ntu_systems_programming.Services.Search.{has, up_to}
use ntu_systems_programming.Services.Loop.{
  Command, spawn_of, exchange_of, kill_of, Session, returned, starved, after_lines,
}

-- A service, the forest below it, and the services beside it.
pub data Forest : Type 0 where
  bare : Forest
  tree : Bytes → Forest → Forest → Forest

unfoldable pub names : Forest → List Bytes
names bare = []
names (tree n below beside) = n ∷ (names below ++ names beside)

-- A new service behind the others.
unfoldable pub plant : Bytes → Forest → Forest
plant c bare = tree c bare bare
plant c (tree n below beside) = tree n below (plant c beside)

-- A new service `c` below the first service `p`.
unfoldable pub sprout : Bytes → Bytes → Forest → Forest
unfolding plant names has
sprout p c bare = bare
sprout p c (tree n below beside) =
    let deeper = sprout p c below in
    let further = sprout p c beside in
    if str_eq n p
    then tree n (plant c below) beside
    else if has p (names below)
    then tree n deeper beside
    else tree n below further

-- The first service `t` taken away, with all that is below it.
unfoldable pub prune : Bytes → Forest → Forest
unfolding names has
prune t bare = bare
prune t (tree n below beside) =
    let deeper = prune t below in
    let further = prune t beside in
    if str_eq n t
    then beside
    else if has t (names below)
    then tree n deeper beside
    else tree n below further

-- How far below "Manager" the first service `t` is; 0 if there is none.
unfoldable pub level : Bytes → Forest → ℕ
unfolding names has
level t bare = 0
level t (tree n below beside) =
    let deeper = level t below in
    let further = level t beside in
    if str_eq n t then 1 else if has t (names below) then suc deeper else further

-- `child_num` counts the services that have been made below "Manager", those since killed among them.
pub record World : Type 0 where
  pub services : Forest
  pub child_num : ℕ

abbrev pub new_world : World
new_world = record { services = bare; child_num = 0 }

-- What a command other than "kill Manager" does; a kill does not lower the count of "Manager". The count
-- that "kill" prints is left open: 0.
unfoldable pub perform : Command → World → World
unfolding plant sprout prune names has
perform (spawn_of p c) w =
    if str_eq manager_name p
    then record { services = plant c w.services; child_num = w.child_num + 1 }
    else record w { services = sprout p c w.services }
perform (exchange_of p c) w = w
perform (kill_of t) w =
    if has t (names w.services) then record w { services = prune t w.services } else w

-- What a command prints: that "Manager" and the services up to the one that is looked for have
-- received it, and the result.
unfoldable pub lines_of : Command → Forest → List Line
unfolding names has up_to
lines_of (spawn_of p c) f =
    received manager_name (spawn_message p c)
    ∷ (if str_eq manager_name p
        then []
        else map (λ n. received n (spawn_message p c)) (up_to p (names f))
          ++ (if has p (names f) then [] else not_exist p ∷ []))
lines_of (exchange_of p c) f =
    received manager_name (exchange_message p c)
    ∷ (map (λ n. received n (exchange_message p c)) (up_to c (names f)) ++ exchanged p c ∷ [])
lines_of (kill_of t) f =
    received manager_name (kill_message t)
    ∷ (map (λ n. received n (kill_message t)) (up_to t (names f))
        ++ (if has t (names f) then killed t 0 else not_exist t) ∷ [])

abbrev pub is_end : Command → Bool
is_end (kill_of t) = str_eq t manager_name
is_end _ = false

-- The commands up to "kill Manager".
unfoldable pub serve_all : List Command → World → Session
unfolding perform lines_of
serve_all [] w = starved []
serve_all (c ∷ cs) w =
    let rest = serve_all cs (perform c w) in
    if is_end c
    then returned
        (received manager_name (kill_message manager_name) ∷ killed manager_name w.child_num ∷ [])
    else after_lines (lines_of c w.services) rest

-- A command whose words have no spaces, that makes no second "Manager", and that kills no service more
-- than two levels below the first.
unfoldable pub is_fair : Command → Forest → Bool
unfolding level
is_fair (spawn_of p c) f = no_space p && no_space c && not (str_eq manager_name c)
is_fair (exchange_of p c) f = no_space p && no_space c
is_fair (kill_of t) f = no_space t && leb (level t f) 2

-- Words that fit with their NUL into the arrays of the code, of which that of a name, 16 bytes, is the
-- smallest.
unfoldable pub all_short : List Bytes → Bool
all_short [] = true
all_short (w ∷ ws) = let rest = all_short ws in ltb (length w) 16 && rest

unfoldable pub all_fair : List Command → World → Bool
unfolding is_fair perform
all_fair [] w = true
all_fair (c ∷ cs) w =
    let rest = all_fair cs (perform c w) in is_fair c w.services && (is_end c || rest)
