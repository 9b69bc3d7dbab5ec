-- ===== src/Services/Kills/Stranded.antt =====
-- What a "kill" that a service of HW2/service.c passes on does to that service.
use ntu_systems_programming.Prelude.{
  arith, ◌≡◌, refl, ap, ◌∙◌, Bool, true, false, [], ◌∷◌, some, none, inl, inr, Option-cases,
}
use ntu_systems_programming.Prelude.Text.{Bytes, str_eq}
use ntu_systems_programming.Services.Types.{Service, Children, no_child, child, kill_message}
use ntu_systems_programming.Services.Messages.{no_space, message_words}
use ntu_systems_programming.Services.Handlers.{kill, all_exit, Told, Answer}
use ntu_systems_programming.Services.Kills.{always}

str_eq_refl : (xs : Bytes) → str_eq xs xs ≡ true
str_eq_refl [] = refl
str_eq_refl (x ∷ xs) = ground (arith, str_eq_refl xs)

-- A child that passes on the "yes" of a service below it is marked, and has not exited.
kill-stranded :
    (buf : Bytes) (cs : Children) (t : Told) (s : Service)
    → kill always buf cs ≡ some t
    → t.found ≡ some s
    → s.exited ≡ false
    → all_exit t.children ≡ false
unfolding kill all_exit
kill-stranded buf no_child t s e f x = absurd (ground (arith, e, f))
kill-stranded buf (child c own rest) t s e f x = elim (Option-cases (kill always buf rest)) [
  | inl r ↦ ground (arith, r)
  | inr (u, r) ↦ ground (arith, r, kill-stranded buf rest u s r)
]

-- A service that passes on the "yes" of a service more than one level below it cannot be killed any
-- more: it marks the child on the way, which runs on, and then waits for that child for ever.
pub kill_passed_blocks :
    (marks : Answer → Bool) (target : Bytes) (c : Service) (own rest : Children) (t : Told)
    (s : Service)
    → no_space c.name ≡ true
    → c.have_killed ≡ false
    → kill always (kill_message target) own ≡ some t
    → t.found ≡ some s
    → s.exited ≡ false
    → kill marks (kill_message c.name) (child c t.children rest) ≡ none
unfolding kill
kill_passed_blocks marks target c own rest t s g k e f x =
    let w = (message_words c.name [] g refl).3 in
    let n = ap (str_eq c.name) w ∙ str_eq_refl c.name in
    simp (k, n, kill-stranded (kill_message target) own t s e f x)
