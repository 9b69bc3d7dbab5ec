-- ===== src/Services/Kills.antt =====
-- What "kill" of HW2/service.c does to the tree of services.
pub mod Stranded
pub mod Pruning
use ntu_systems_programming.Prelude.{
  arith, ℕ, ◌≡◌, refl, ap, ◌∙◌, Bool, true, false, ◌||◌, List, [], ◌∷◌, ◌++◌, Option, some, none,
  ◌⊎◌, if◌then◌else◌, map, inl, inr, Bool-cases, Option-cases,
}
use ntu_systems_programming.Prelude.Text.{Bytes, str_eq}
use ntu_systems_programming.Services.Types.{
  Service, Children, no_child, child, want, kill_message, Manager, received, killed, manager_name,
}
use ntu_systems_programming.Services.Manager.{kill_command, marks_gone}
use ntu_systems_programming.Services.Messages.{no_space, message_words}
use ntu_systems_programming.Services.Handlers.{
  kill, all_exit, exit_all, Told, Answer, here, below_here,
}
use ntu_systems_programming.Services.Search.{live, has, has-append, up_to, find_lem}

-- What can be reached after "kill" has passed through a service's own list: the child on the way to
-- the first service with the name is gone, with all that is below it.
unfoldable pub spared : Bytes → Children → List Bytes
unfolding live has
spared w no_child = []
spared w (child c own rest) =
    let beside = spared w rest in
    if c.have_killed
    then beside
    else if str_eq c.name w || has w (live own)
    then live rest
    else c.name ∷ (live own ++ beside)

abbrev pub is_found : Option Service → Bool
is_found none = false
is_found (some _) = true

-- What "kill" leaves, if no wait blocks.
pub record Passed (marks : Answer → Bool) (buf : Bytes) (cs : Children) (t : Told) : Type 0 where
  pub answer : is_found t.found ≡ has (want buf) (live cs)
  pub left : ((a : Answer) → marks a ≡ true) → live t.children ≡ spared (want buf) cs
  pub unmoved : is_found t.found ≡ false → t.children ≡ cs

abbrev pub always : Answer → Bool
always _ = true

-- The branches of the loop, one for each answer of a child.
module _ (marks : Answer → Bool) (buf : Bytes) (c : Service) (own rest : Children) where
  kill-marked :
      {t : Told}
      → c.have_killed ≡ true
      → kill marks buf rest ≡ some t
      → kill marks buf (child c own rest) ≡ some (record t { children = child c own t.children })
  unfolding kill
  kill-marked h e = simp (h, e)

  kill-here :
      c.have_killed ≡ false
      → str_eq c.name (want buf) ≡ true
      → all_exit own ≡ true
      → kill marks buf (child c own rest)
        ≡ some (record {
          found = some (record c { exited = true });
          children =
              child
                (if marks here
                  then record c { have_killed = true; exited = true }
                  else record c { exited = true })
                (exit_all own)
                rest;
        })
  unfolding kill
  kill-here h n e = simp (h, n, e)

  kill-beside :
      {t u : Told}
      → c.have_killed ≡ false
      → str_eq c.name (want buf) ≡ false
      → kill always buf own ≡ some t
      → t.found ≡ none
      → kill marks buf rest ≡ some u
      → kill marks buf (child c own rest)
        ≡ some (record u { children = child c t.children u.children })
  unfolding kill
  kill-beside h n e f g = simp (h, n, e, f, g)

  kill-below :
      {t : Told} {s : Service}
      → c.have_killed ≡ false
      → str_eq c.name (want buf) ≡ false
      → kill always buf own ≡ some t
      → t.found ≡ some s
      → kill marks buf (child c own rest)
        ≡ some (record {
          found = some c;
          children =
              child
                (if marks below_here then record c { have_killed = true } else c)
                t.children
                rest;
        })
  unfolding kill
  kill-below h n e f = simp (h, n, e, f)

-- With every process in order, "kill" does not block, and this is what it leaves.
pub kill-Passed :
    (marks : Answer → Bool) (buf : Bytes) (cs : Children)
    → all_exit cs ≡ true
    → (t : Told) × (kill marks buf cs ≡ some t) × Passed marks buf cs t
unfolding kill all_exit live has spared
kill-Passed marks buf no_child h =
    (_, refl, record { answer = refl; left = λ q. refl; unmoved = λ _. refl })
kill-Passed marks buf (child c own rest) h =
    let (u, e, v) = kill-Passed marks buf rest (ground (arith, h)) in
    elim (Bool-cases c.have_killed) [
      | inl k ↦ (
        _,
        kill-marked marks buf c own rest k e,
        record {
          answer = ground (arith, k, v.answer);
          left = λ q. ground (arith, k, v.left q);
          unmoved = λ f. ap (λ l. child c own l) (v.unmoved f);
        },
      )
      | inr k ↦ elim (Bool-cases (str_eq c.name (want buf))) [
        | inl n ↦ (
          _,
          kill-here marks buf c own rest k n (ground (arith, h)),
          record {
            answer = ground (arith, k, n);
            left = λ q. ground (arith, k, n, q here);
            unmoved = λ f. absurd (ground (arith, f));
          },
        )
        | inr n ↦
            let (t, d, w) = kill-Passed always buf own (ground (arith, h)) in
            elim (Option-cases t.found) [
              | inl f ↦ (
                _,
                kill-beside marks buf c own rest k n d f e,
                record {
                  answer = ground (
                    arith,
                    k,
                    n,
                    f,
                    w.answer,
                    v.answer,
                    has-append (want buf) (live own) (live rest),
                  );
                  left = λ q. ground (arith, k, n, f, w.answer, w.unmoved, v.left q);
                  unmoved = λ g. ground (arith, f, w.unmoved, v.unmoved g);
                },
              )
              | inr (s, f) ↦ (
                _,
                kill-below marks buf c own rest k n d f,
                record {
                  answer =
                      ground
                        (arith, k, n, f, w.answer, has-append (want buf) (live own) (live rest));
                  left = λ q. ground (arith, k, n, f, w.answer, q below_here);
                  unmoved = λ g. absurd (ground (arith, g));
                },
              )
            ]
      ]
    ]

-- For a name without spaces, and with every process able to exit, "kill" passes through the list of a
-- service without blocking. It finds a service exactly if one that can be reached has the name; it
-- then leaves out the child on the way, with everything below it, and leaves the list as it is if
-- there is none.
pub kill_lem :
    (target : Bytes) (cs : Children)
    → no_space target ≡ true
    → all_exit cs ≡ true
    → (t : Told) × (kill always (kill_message target) cs ≡ some t)
      × (is_found t.found ≡ has target (live cs))
      × (live t.children ≡ spared target cs)
      × ((has target (live cs) ≡ true) ⊎ (t.children ≡ cs))
kill_lem target cs g h =
    let (t, e, v) = kill-Passed always (kill_message target) cs h in
    let w = (message_words target [] g refl).3 in
    (
      t,
      e,
      v.answer ∙ ap (λ x. has x (live cs)) w,
      v.left (λ a. refl) ∙ ap (λ x. spared x cs) w,
      elim (Bool-cases (has target (live cs))) [
        | inl e ↦ inl e
        | inr e ↦ inr (v.unmoved (v.answer ∙ ap (λ x. has x (live cs)) w ∙ e))
      ],
    )

-- "kill" of another service than "Manager", for a name without spaces that a service that can be
-- reached has, and with every process able to exit, whatever the manager's buffer holds: the command
-- returns, the services up to the first with the name print a line, the manager says that the service
-- is killed, and its own count of children is as it was, also when the service was one of them.
pub kill_command_lem :
    (left : ℕ) (target : Bytes) (m : Manager)
    → no_space target ≡ true
    → all_exit m.children ≡ true
    → has target (live m.children) ≡ true
    → (after : Manager) × (num : ℕ) × (kill_command left target m
        ≡ some (
          after,
          received manager_name (kill_message target)
              ∷ (map (λ n. received n (kill_message target)) (up_to target (live m.children))
                  ++ killed target num ∷ []),
        ))
      × (after.child_num ≡ m.child_num)
unfolding kill_command
kill_command_lem left target m g h p =
    let (t, e, v) = kill-Passed (marks_gone left) (kill_message target) m.children h in
    let w = (message_words target [] g refl).3 in
    let found = find_lem target m.children g in
    elim (Option-cases t.found) [
      | inl f ↦ absurd (ground (arith, f, v.answer, p, ap (λ x. has x (live m.children)) w))
      | inr (s, f) ↦ (
        record m { children = t.children },
        s.child_num,
        rw (found.0, p, e, f, found.1) refl,
        refl,
      )
    ]
