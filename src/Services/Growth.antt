-- ===== src/Services/Growth.antt =====
-- What "spawn" of HW2/service.c does to the tree of services.
use ntu_systems_programming.Prelude.{
  arith, ℕ, ◌+◌, ◌≡◌, refl, ap, ◌∙◌, true, false, List, [], ◌∷◌, ◌++◌, map, ◌&&◌, if◌then◌else◌,
}
use ntu_systems_programming.Prelude.Text.{Bytes, str_eq}
use ntu_systems_programming.Services.Types.{
  Children, no_child, child, received, want, another, Manager, not_exist, manager_name,
  spawn_message,
}
use ntu_systems_programming.Services.Messages.{no_space, message_words}
use ntu_systems_programming.Services.Manager.{spawn_command}
use ntu_systems_programming.Services.Handlers.{spawn, create_service}
use ntu_systems_programming.Services.Search.{live, has, up_to, visits, visits-append, has-append}

-- How many of the services have the name.
unfoldable pub named : Bytes → List Bytes → ℕ
named x [] = 0
named x (n ∷ ns) = (if str_eq n x then 1 else 0) + named x ns

named-append : (x : Bytes) (xs ys : List Bytes) → named x (xs ++ ys) ≡ named x xs + named x ys
unfolding named
named-append x [] ys = omega arith
named-append x (y ∷ xs) ys = omega (arith, named-append x xs ys)

create_service-named :
    (x n : Bytes) (num : ℕ) (cs : Children)
    → named x (live (create_service n num cs)) ≡ named x (live cs) + (if str_eq n x then 1 else 0)
unfolding create_service live named
create_service-named x n num no_child = omega arith
create_service-named x n num (child c own rest) = ground (
  arith,
  create_service-named x n num rest,
  named-append x (live own) (live rest),
  named-append x (live own) (live (create_service n num rest)),
)

pub spawn-yes :
    (buf : Bytes) (num : ℕ) (cs : Children) → (spawn 0 buf num cs).yes ≡ has (want buf) (live cs)
unfolding spawn live has
spawn-yes buf num no_child = refl
spawn-yes buf num (child c own rest) = ground (
  arith,
  spawn-yes buf num own,
  spawn-yes buf num rest,
  has-append (want buf) (live own) (live rest),
)

spawn-lines :
    (buf : Bytes) (num : ℕ) (cs : Children)
    → (spawn 0 buf num cs).lines ≡ visits (λ n. received n buf) (want buf) (live cs)
unfolding spawn live has up_to visits
spawn-lines buf num no_child = refl
spawn-lines buf num (child c own rest) = ground (
  arith,
  spawn-yes buf num own,
  spawn-lines buf num own,
  spawn-lines buf num rest,
  visits-append (λ n. received n buf) (want buf) (live own) (live rest),
)

pub spawn_absent :
    (buf : Bytes) (num : ℕ) (cs : Children)
    → (spawn 0 buf num cs).yes ≡ false
    → (spawn 0 buf num cs).children ≡ cs
unfolding spawn
spawn_absent buf num no_child h = refl
spawn_absent buf num (child c own rest) h =
    ground (arith, spawn_absent buf num own, spawn_absent buf num rest)

spawn-named :
    (x buf : Bytes) (num : ℕ) (cs : Children)
    → (spawn 0 buf num cs).yes ≡ true
    → named x (live (spawn 0 buf num cs).children)
      ≡ named x (live cs) + (if str_eq (another buf) x then 1 else 0)
unfolding spawn live named
spawn-named x buf num no_child h = absurd (ground arith)
spawn-named x buf num (child c own rest) h = ground (
  arith,
  spawn-yes buf num own,
  spawn-named x buf num own,
  spawn-named x buf num rest,
  spawn_absent buf num own,
  create_service-named x (another buf) num own,
  named-append x (live own) (live rest),
  named-append x (live (create_service (another buf) num own)) (live rest),
  named-append x (live (spawn 0 buf num own).children) (live rest),
  named-append x (live own) (live (spawn 0 buf num rest).children),
)

-- "spawn" under another service than "Manager", with names without spaces and a NUL behind the
-- answer in the manager's buffer: the services up to the first with the parent's name print a line;
-- there is one service more with the child's name, and as many with any other. If no service has the
-- parent's name, all print a line, the manager says so, and there is none more.
pub spawn_command_lem :
    (num : ℕ) (p c : Bytes) (m : Manager)
    → no_space p ≡ true
    → no_space c ≡ true
    → str_eq manager_name p ≡ false
    → ((spawn_command 0 num p c m).1
        ≡ received manager_name (spawn_message p c)
          ∷ (map (λ n. received n (spawn_message p c)) (up_to p (live m.children))
              ++ (if has p (live m.children) then [] else not_exist p ∷ [])))
      × ((x : Bytes)
          → named x (live (spawn_command 0 num p c m).0.children)
            ≡ named x (live m.children) + (if has p (live m.children) && str_eq c x then 1 else 0))
unfolding spawn_command visits
spawn_command_lem num p c m h g e =
    let words = message_words p c h g in
    let buf = spawn_message p c in
    let yes = spawn-yes buf num m.children ∙ ap (λ w. has w (live m.children)) words.0 in
    (
      rw (e, yes, spawn-lines buf num m.children, words.0) refl,
      λ x. ground (
        arith,
        e,
        yes,
        words.1,
        spawn-named x buf num m.children,
        spawn_absent buf num m.children,
      ),
    )
