-- ===== src/Services/Kills/Pruning.antt =====
-- "kill" of HW2/service.c on the forest of services, near the manager.
use ntu_systems_programming.Prelude.{
  arith, ℕ, ◌+◌, ◌≤◌, ◌≡◌, refl, ap, ◌∙◌, Bool, true, false, some, inl, inr, Bool-cases,
  Option-cases,
}
use ntu_systems_programming.Prelude.Text.{Bytes, str_eq}
use ntu_systems_programming.Services.Types.{Service, Children, no_child, child, want}
use ntu_systems_programming.Services.Handlers.{all_exit, kill, Told, Answer, here, below_here}
use ntu_systems_programming.Services.Search.{live, has, has-append}
use ntu_systems_programming.Services.Spec.{names, prune, level}
use ntu_systems_programming.Services.Forests.{forest, names-forest, level_positive}
use ntu_systems_programming.Services.Kills.{
  is_found, always, kill-Passed, kill-marked, kill-here, kill-below, kill-beside,
}

-- What "kill" leaves of a list in which a service that can be reached has the name.
pub record Pruned (buf : Bytes) (cs : Children) (t : Told) : Type 0 where
  pub answer : is_found t.found ≡ true
  pub left : forest t.children ≡ prune (want buf) (forest cs)
  pub exits : all_exit t.children ≡ true

-- How deep the service may be: a service marks the child that says "yes" for another one.
abbrev pub reach : Bool → ℕ
reach false = 2
reach true = 1

reach_further : (b : Bool) (l : ℕ) → 1 ≤ l → l + 1 ≤ reach b → (b ≡ false) × (l ≤ 1)
reach_further true l h d = absurd (omega arith)
reach_further false l h d = (refl, omega arith)

-- "kill" goes through the list without blocking, and leaves it pruned.
abbrev pub Prunes : (Answer → Bool) → Bytes → Children → Type 0
Prunes marks buf cs = (t : Told) × (kill marks buf cs ≡ some t) × Pruned buf cs t

-- The branches of the loop, for a child in a list in which every process can exit.
module _ (marks : Answer → Bool) (buf : Bytes) (c : Service) (own rest : Children)
    (h : all_exit (child c own rest) ≡ true) where
  marked-Pruned : c.have_killed ≡ true → Prunes marks buf rest → Prunes marks buf (child c own rest)
  unfolding all_exit forest prune
  marked-Pruned k (u, e, v) = (
    _,
    kill-marked marks buf c own rest k e,
    record {
      answer = v.answer;
      left = ground (arith, k, v.left);
      exits = ground (arith, k, h, v.exits);
    },
  )

  here-Pruned :
      marks here ≡ true
      → c.have_killed ≡ false
      → str_eq c.name (want buf) ≡ true
      → Prunes marks buf (child c own rest)
  unfolding all_exit forest prune
  here-Pruned q k n = (
    _,
    kill-here marks buf c own rest k n (ground (arith, h, k)),
    record { answer = refl; left = ground (arith, k, n, q); exits = ground (arith, k, h, q) },
  )

  below-Pruned :
      c.have_killed ≡ false
      → str_eq c.name (want buf) ≡ false
      → has (want buf) (names (forest own)) ≡ true
      → marks below_here ≡ false
      → Prunes always buf own
      → Prunes marks buf (child c own rest)
  unfolding all_exit forest prune
  below-Pruned k n b m (t, e, v) = elim (Option-cases t.found) [
    | inl f ↦ absurd (ground (arith, f, v.answer))
    | inr (s, f) ↦ (
      _,
      kill-below marks buf c own rest k n e f,
      record {
        answer = refl;
        left = ground (arith, k, n, m, b, v.left);
        exits = ground (arith, k, h, m, v.exits);
      },
    )
  ]

  beside-Pruned :
      c.have_killed ≡ false
      → str_eq c.name (want buf) ≡ false
      → has (want buf) (live own) ≡ false
      → Prunes marks buf rest
      → Prunes marks buf (child c own rest)
  unfolding all_exit forest prune
  beside-Pruned k n b (u, e, v) =
      let absent : has (want buf) (names (forest own)) ≡ false =
        ground (arith, names-forest own, b) in
      let (t, d, w) = kill-Passed always buf own (ground (arith, h, k)) in
      elim (Option-cases t.found) [
        | inl f ↦ (
          _,
          kill-beside marks buf c own rest k n d f e,
          record {
            answer = v.answer;
            left = ground (arith, k, n, absent, w.unmoved (w.answer ∙ b), v.left);
            exits = ground (arith, k, h, w.unmoved (w.answer ∙ b), v.exits);
          },
        )
        | inr (s, f) ↦ absurd (ground (arith, f, w.answer, b))
      ]

-- "kill" of a service that can be reached, at the depth that `marks` allows.
pub kill-Pruned :
    (marks : Answer → Bool) (buf : Bytes) (cs : Children)
    → marks here ≡ true
    → all_exit cs ≡ true
    → has (want buf) (live cs) ≡ true
    → level (want buf) (forest cs) ≤ reach (marks below_here)
    → Prunes marks buf cs
unfolding all_exit live has forest level
kill-Pruned marks buf no_child q h p d = absurd (ground arith)
kill-Pruned marks buf (child c own rest) q h p d =
    let further = kill-Pruned marks buf rest q (ground (arith, h)) in
    elim (Bool-cases c.have_killed) [
      | inl k ↦
          marked-Pruned marks buf c own rest h k
            (further (ground (arith, k, p)) (ground (arith, k, d)))
      | inr k ↦ elim (Bool-cases (str_eq c.name (want buf))) [
        | inl n ↦ here-Pruned marks buf c own rest h q k n
        | inr n ↦ elim (Bool-cases (has (want buf) (live own))) [
          | inl b ↦
              let named = ap (has (want buf)) (names-forest own) ∙ b in
              let (m, l) =
                reach_further (marks below_here) (level (want buf) (forest own))
                  (level_positive (want buf) (forest own) named) (ground (arith, k, n, d, named)) in
              below-Pruned marks buf c own rest h k n named m
                (kill-Pruned always buf own refl (ground (arith, h, k)) b l)
          | inr b ↦
              let absent = ap (has (want buf)) (names-forest own) ∙ b in
              beside-Pruned marks buf c own rest h k n b (
                further (ground (arith, k, n, b, p, has-append (want buf) (live own) (live rest)))
                  (ground (arith, k, n, absent, d)))
        ]
      ]
    ]
