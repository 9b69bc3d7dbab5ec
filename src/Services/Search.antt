-- ===== src/Services/Search.antt =====
-- What "find" and "exchange" of HW2/service.c answer and print, by the services that can be reached.
use ntu_systems_programming.Prelude.{
  arith, ◌≡◌, refl, ap, ◌∙◌, ℕ, some, Bool, true, false, ◌||◌, List, [], ◌∷◌, ◌++◌, map,
  if◌then◌else◌,
}
use mathlib.Core.List.{map-append}
use ntu_systems_programming.Prelude.Text.{Bytes, str_eq}
use ntu_systems_programming.Services.Types.{
  Children, no_child, child, Line, received, kill_message, want, another, Manager, exchanged,
  not_exist, manager_name, find_message, exchange_message,
}
use ntu_systems_programming.Services.Messages.{no_space, message_words}
use ntu_systems_programming.Services.Manager.{exchange_command, kill_command}
use ntu_systems_programming.Services.Handlers.{find, exchange}

-- The services in the order in which a message visits them: those that have not been marked as
-- killed, and above which none has.
unfoldable pub live : Children → List Bytes
live no_child = []
live (child c own rest) =
    let below = live own in
    let beside = live rest in if c.have_killed then beside else c.name ∷ (below ++ beside)

unfoldable pub has : Bytes → List Bytes → Bool
has w [] = false
has w (n ∷ ns) = str_eq n w || has w ns

-- The names up to the first that is `w`.
unfoldable pub up_to : Bytes → List Bytes → List Bytes
up_to w [] = []
up_to w (n ∷ ns) = let more = up_to w ns in n ∷ (if str_eq n w then [] else more)

pub has-append : (w : Bytes) (xs ys : List Bytes) → has w (xs ++ ys) ≡ has w xs || has w ys
unfolding has
has-append w [] ys = refl
has-append w (x ∷ xs) ys = ground (arith, has-append w xs ys)

up_to-append :
    (w : Bytes) (xs ys : List Bytes)
    → up_to w (xs ++ ys) ≡ (if has w xs then up_to w xs else up_to w xs ++ up_to w ys)
unfolding has up_to
up_to-append w [] ys = refl
up_to-append w (x ∷ xs) ys = ground (arith, up_to-append w xs ys)

find-answer : (buf : Bytes) (cs : Children) → (find buf cs).0 ≡ has (want buf) (live cs)
unfolding find live has
find-answer buf no_child = refl
find-answer buf (child c own rest) =
    ground (
      arith,
      find-answer buf own,
      find-answer buf rest,
      has-append (want buf) (live own) (live rest),
    )

-- A line for each service that a message visits.
module _ (line : Bytes → Line) where
  unfoldable pub visits : Bytes → List Bytes → List Line
  visits w ns = map line (up_to w ns)

  pub visits-append :
      (w : Bytes) (xs ys : List Bytes)
      → visits w (xs ++ ys) ≡ (if has w xs then visits w xs else visits w xs ++ visits w ys)
  unfolding visits
  visits-append w xs ys =
      ground (arith, up_to-append w xs ys, map-append line (up_to w xs) (up_to w ys))

find-lines :
    (buf : Bytes) (cs : Children)
    → (find buf cs).1 ≡ map (λ n. received n (kill_message (want buf))) (up_to (want buf) (live cs))
unfolding find live has up_to visits
find-lines buf no_child = refl
find-lines buf (child c own rest) = ground (
  arith,
  find-answer buf own,
  find-lines buf own,
  find-lines buf rest,
  visits-append (λ n. received n (kill_message (want buf))) (want buf) (live own) (live rest),
)

exchange-answer : (buf : Bytes) (cs : Children) → (exchange buf cs).0 ≡ has (another buf) (live cs)
unfolding exchange live has
exchange-answer buf no_child = refl
exchange-answer buf (child c own rest) = ground (
  arith,
  exchange-answer buf own,
  exchange-answer buf rest,
  has-append (another buf) (live own) (live rest),
)

exchange-lines :
    (buf : Bytes) (cs : Children)
    → (exchange buf cs).1 ≡ visits (λ n. received n buf) (another buf) (live cs)
unfolding exchange live has up_to visits
exchange-lines buf no_child = refl
exchange-lines buf (child c own rest) = ground (
  arith,
  exchange-answer buf own,
  exchange-lines buf own,
  exchange-lines buf rest,
  visits-append (λ n. received n buf) (another buf) (live own) (live rest),
)

-- For a name without spaces, "find" is answered with "yes" exactly if one of the services that can
-- be reached has the name, and the services up to the first such one print a line.
pub find_lem :
    (target : Bytes) (cs : Children)
    → no_space target ≡ true
    → ((find (find_message target) cs).0 ≡ has target (live cs))
      × ((find (find_message target) cs).1
          ≡ map (λ n. received n (kill_message target)) (up_to target (live cs)))
unfolding visits
find_lem target cs h =
    let e = (message_words target [] h refl).4 in
    (
      find-answer (find_message target) cs ∙ ap (λ w. has w (live cs)) e,
      find-lines (find_message target) cs
          ∙ ap (λ w. map (λ n. received n (kill_message w)) (up_to w (live cs))) e,
    )

pub up_to-absent : (w : Bytes) (ns : List Bytes) → has w ns ≡ false → up_to w ns ≡ ns
unfolding has up_to
up_to-absent w [] h = refl
up_to-absent w (n ∷ ns) h = ground (arith, up_to-absent w ns)

-- For names without spaces, "exchange" says that the two services have exchanged their secrets,
-- whether or not there are such services; the services up to the first with the second name, or all
-- if there is none, print a line.
pub exchange_command_lem :
    (parent_name child_name : Bytes) (m : Manager)
    → no_space parent_name ≡ true
    → no_space child_name ≡ true
    → exchange_command parent_name child_name m
      ≡ received manager_name (exchange_message parent_name child_name)
        ∷ (map
              (λ n. received n (exchange_message parent_name child_name))
              (up_to child_name (live m.children))
            ++ exchanged parent_name child_name ∷ [])
unfolding exchange_command visits
exchange_command_lem parent_name child_name m h g =
    rw
      (
        exchange-lines (exchange_message parent_name child_name) m.children,
        (message_words parent_name child_name h g).2,
      )
      refl

-- "kill" of a name without spaces that no service that can be reached has: every service that can be
-- reached prints a line, the manager says that there is no such service, and nothing changes.
pub kill_absent :
    (left : ℕ) (target : Bytes) (m : Manager)
    → no_space target ≡ true
    → has target (live m.children) ≡ false
    → kill_command left target m
      ≡ some (
        m,
        received manager_name (kill_message target)
            ∷ (map (λ n. received n (kill_message target)) (live m.children)
                ++ not_exist target ∷ []),
      )
unfolding kill_command
kill_absent left target m h g =
    rw
      (
        (find_lem target m.children h).0,
        g,
        (find_lem target m.children h).1,
        up_to-absent target (live m.children) g,
      )
      refl
