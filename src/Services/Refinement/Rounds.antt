-- ===== src/Services/Refinement/Rounds.antt =====
-- A round of the manager in HW2/service.c against a command on a forest of names.
use ntu_systems_programming.Prelude.{
  arith, ℕ, ◌+◌, ◌≡◌, refl, ap, ◌∙◌, sym, true, false, List, [], ◌∷◌, ◌++◌, map, some, inl, inr,
  Bool-cases, Option-cases, if◌then◌else◌,
}
use mathlib.Core.List.{map-append}
use ntu_systems_programming.Prelude.Text.{Bytes, str_eq}
use ntu_systems_programming.Services.Types.{
  Children, no_child, child, Manager, Line, received, not_exist, killed, spawn_message,
  kill_message, manager_name,
}
use ntu_systems_programming.Services.Handlers.{create_service, spawn, all_exit}
use ntu_systems_programming.Services.Manager.{
  spawn_command, kill_command, kill_manager, waits_return, zombies, marks_gone,
}
use ntu_systems_programming.Services.Messages.{message_words}
use ntu_systems_programming.Services.Search.{
  live, has, up_to, find_lem, exchange_command_lem, kill_absent, up_to-absent,
}
use ntu_systems_programming.Services.Growth.{spawn_command_lem}
use ntu_systems_programming.Services.Kills.Pruning.{kill-Pruned}
use ntu_systems_programming.Services.Forests.{
  forest, names-forest, create_service-plant, create_service-all_exit, spawn-sprout, spawn-all_exit,
}
use ntu_systems_programming.Services.Loop.{
  Command, spawn_of, exchange_of, kill_of, RoundEnd, goes_on, leaves, manager_round,
}
use ntu_systems_programming.Services.Spec.{World, names, prune, perform, lines_of, is_end, is_fair}

-- The manager shows the world: its services are those that can be reached, and every process can exit.
pub record Shows (m : Manager) (w : World) : Type 0 where
  pub services : forest m.children ≡ w.services
  pub count : m.child_num ≡ w.child_num
  pub exits : all_exit m.children ≡ true

-- A line without the count of "kill", which nothing sets, except that of "kill Manager".
abbrev pub unsaid : Line → Line
unsaid (killed t n) = killed t (if str_eq t manager_name then n else 0)
unsaid l = l

unsaid-last :
    (t : Bytes) (n k : ℕ)
    → str_eq t manager_name ≡ false
    → (xs : List Line) → map unsaid (xs ++ killed t n ∷ []) ≡ map unsaid (xs ++ killed t k ∷ [])
unsaid-last t n k e xs =
    rw (map-append unsaid xs (killed t n ∷ []), map-append unsaid xs (killed t k ∷ []), e) refl

all_exit-waits_return : (n : ℕ) (cs : Children) → all_exit cs ≡ true → waits_return n cs ≡ true
unfolding all_exit waits_return
all_exit-waits_return n no_child h = refl
all_exit-waits_return n (child c own rest) h = ground (arith, h, all_exit-waits_return n rest)

-- A round that does what a command does on the world.
pub record Serves (c : Command) (w : World) (r : RoundEnd) : Type 0 where
  pub after : Manager
  pub lines : List Line
  pub round : r ≡ goes_on after lines
  pub shows : Shows after (perform c w)
  pub said : map unsaid lines ≡ map unsaid (lines_of c w.services)

module _ (num : ℕ) (m : Manager) (w : World) (v : Shows m w) where
  names-shown : names w.services ≡ live m.children
  names-shown = ap names (sym v.services) ∙ names-forest m.children

  spawn_lines :
      (p c : Bytes)
      → is_fair (spawn_of p c) w.services ≡ true
      → str_eq manager_name p ≡ false
      → (spawn_command 0 num p c m).1 ≡ lines_of (spawn_of p c) w.services
  unfolding is_fair lines_of
  spawn_lines p c f e =
      rw (e, names-shown) (spawn_command_lem num p c m (ground (arith, f)) (ground (arith, f)) e).0

  spawn-Serves :
      (p c : Bytes)
      → is_fair (spawn_of p c) w.services ≡ true
      → Serves (spawn_of p c) w (manager_round 0 num (spawn_of p c) m)
  unfolding is_fair manager_round spawn_command perform lines_of
  spawn-Serves p c f =
      let words = message_words p c (ground (arith, f)) (ground (arith, f)) in
      let told = spawn-sprout (spawn_message p c) num m.children in
      elim (Bool-cases (str_eq manager_name p)) [
        | inl e ↦ record {
          after = record {
            child_num = m.child_num + 1;
            children = create_service c num m.children;
          };
          lines = received manager_name (spawn_message p c) ∷ [];
          round = rw e refl;
          shows = record {
            services = rw (e, create_service-plant c num m.children, v.services) refl;
            count = rw (e, v.count) refl;
            exits = create_service-all_exit c num m.children ∙ v.exits;
          };
          said = rw e refl;
        }
        | inr e ↦ record {
          after = record m { children = (spawn 0 (spawn_message p c) num m.children).children };
          lines = (spawn_command 0 num p c m).1;
          round = rw e refl;
          shows = record {
            services = rw (e, told, words.0, words.1, v.services) refl;
            count = rw (e, v.count) refl;
            exits = spawn-all_exit (spawn_message p c) num m.children v.exits;
          };
          said = ap (map unsaid) (spawn_lines p c f e);
        }
      ]

  exchange-Serves :
      (p c : Bytes)
      → is_fair (exchange_of p c) w.services ≡ true
      → Serves (exchange_of p c) w (manager_round 0 num (exchange_of p c) m)
  unfolding is_fair manager_round perform lines_of
  exchange-Serves p c f = record {
    after = m;
    lines = _;
    round = refl;
    shows = v;
    said =
        rw names-shown
          (ap (map unsaid) (exchange_command_lem p c m (ground (arith, f)) (ground (arith, f))));
  }

  kill_found :
      (t : Bytes)
      → is_fair (kill_of t) w.services ≡ true
      → has t (live m.children) ≡ true
      → (cs : Children) × (n : ℕ) × (kill_command 0 t m
          ≡ some (
            record m { children = cs },
            received manager_name (kill_message t)
                ∷ (map (λ x. received x (kill_message t)) (up_to t (live m.children))
                    ++ killed t n ∷ []),
          ))
        × (forest cs ≡ prune t w.services)
        × (all_exit cs ≡ true)
  unfolding is_fair kill_command
  kill_found t f p =
      let word = (message_words t [] (ground (arith, f)) refl).3 in
      let found = find_lem t m.children (ground (arith, f)) in
      let (u, e, d) =
        kill-Pruned (marks_gone 0) (kill_message t) m.children refl v.exits
          (ap (λ x. has x (live m.children)) word ∙ p)
          (rw (word, v.services) (ground (arith, f))) in
      elim (Option-cases u.found) [
        | inl g ↦ absurd (ground (arith, g, d.answer))
        | inr (s, g) ↦ (
          u.children,
          s.child_num,
          rw (found.0, p, e, g, found.1) refl,
          rw (d.left, word, v.services) refl,
          d.exits,
        )
      ]

  kill-Serves :
      (t : Bytes)
      → is_fair (kill_of t) w.services ≡ true
      → str_eq t manager_name ≡ false
      → Serves (kill_of t) w (manager_round 0 num (kill_of t) m)
  unfolding is_fair manager_round perform lines_of
  kill-Serves t f e = elim (Bool-cases (has t (live m.children))) [
    | inl p ↦
        let (cs, n, r, d, x) = kill_found t f p in
        record {
          after = record m { children = cs };
          lines =
              received manager_name (kill_message t)
              ∷ (map (λ x. received x (kill_message t)) (up_to t (live m.children))
                  ++ killed t n ∷ []);
          round = rw (e, r) refl;
          shows = record {
            services = rw (names-shown, p, d) refl;
            count = rw (names-shown, p, v.count) refl;
            exits = x;
          };
          said =
              rw (names-shown, p)
                (unsaid-last t n 0 e (
                  received manager_name (kill_message t)
                  ∷ map (λ x. received x (kill_message t)) (up_to t (live m.children))));
        }
    | inr p ↦ record {
      after = m;
      lines =
          received manager_name (kill_message t)
          ∷ (map (λ n. received n (kill_message t)) (live m.children) ++ not_exist t ∷ []);
      round = rw (e, kill_absent 0 t m (ground (arith, f)) p) refl;
      shows = rw (names-shown, p) v;
      said = rw (names-shown, p, up_to-absent t (live m.children) p) refl;
    }
  ]

  -- A command other than "kill Manager".
  pub round-Serves :
      (c : Command)
      → is_fair c w.services ≡ true
      → is_end c ≡ false
      → Serves c w (manager_round 0 num c m)
  round-Serves (spawn_of p c) f e = spawn-Serves p c f
  round-Serves (exchange_of p c) f e = exchange-Serves p c f
  round-Serves (kill_of t) f e = kill-Serves t f e

  pub end_leaves :
      (c : Command)
      → is_end c ≡ true
      → manager_round 0 num c m
        ≡ leaves (
            received manager_name (kill_message manager_name)
            ∷ killed manager_name w.child_num
            ∷ [])
  unfolding manager_round kill_manager
  end_leaves (spawn_of p c) e = absurd (ground arith)
  end_leaves (exchange_of p c) e = absurd (ground arith)
  end_leaves (kill_of t) e =
      rw (e, all_exit-waits_return (zombies m.children) m.children v.exits, v.count) refl
