-- ===== src/Services/Forests.antt =====
-- The services of HW2/service.c that can be reached, as a forest, and what "spawn" and "kill" make of it.
use ntu_systems_programming.Prelude.{arith, ℕ, ◌≤◌, ◌≡◌, refl, true, if◌then◌else◌}
use ntu_systems_programming.Prelude.Text.{Bytes}
use ntu_systems_programming.Services.Types.{Children, no_child, child, want, another}
use ntu_systems_programming.Services.Handlers.{spawn, create_service, all_exit}
use ntu_systems_programming.Services.Search.{live, has, has-append}
use ntu_systems_programming.Services.Growth.{spawn-yes, spawn_absent}
use ntu_systems_programming.Services.Spec.{Forest, bare, tree, names, plant, sprout, level}

-- The list of a service without the children that are marked as killed.
unfoldable pub forest : Children → Forest
forest no_child = bare
forest (child c own rest) =
    let below = forest own in
    let beside = forest rest in if c.have_killed then beside else tree c.name below beside

pub names-forest : (cs : Children) → names (forest cs) ≡ live cs
unfolding names forest live
names-forest no_child = refl
names-forest (child c own rest) = ground (arith, names-forest own, names-forest rest)

pub create_service-plant :
    (n : Bytes) (num : ℕ) (cs : Children) → forest (create_service n num cs) ≡ plant n (forest cs)
unfolding forest create_service plant
create_service-plant n num no_child = refl
create_service-plant n num (child c own rest) = ground (arith, create_service-plant n num rest)

pub create_service-all_exit :
    (n : Bytes) (num : ℕ) (cs : Children) → all_exit (create_service n num cs) ≡ all_exit cs
unfolding create_service all_exit
create_service-all_exit n num no_child = refl
create_service-all_exit n num (child c own rest) =
    ground (arith, create_service-all_exit n num rest)

pub spawn-sprout :
    (buf : Bytes) (num : ℕ) (cs : Children)
    → forest (spawn 0 buf num cs).children ≡ sprout (want buf) (another buf) (forest cs)
unfolding forest spawn sprout
spawn-sprout buf num no_child = refl
spawn-sprout buf num (child c own rest) = ground (
  arith,
  spawn-sprout buf num own,
  spawn-sprout buf num rest,
  create_service-plant (another buf) num own,
  spawn-yes buf num own,
  spawn_absent buf num own,
  names-forest own,
)

pub spawn-all_exit :
    (buf : Bytes) (num : ℕ) (cs : Children)
    → all_exit cs ≡ true
    → all_exit (spawn 0 buf num cs).children ≡ true
unfolding spawn all_exit
spawn-all_exit buf num no_child h = refl
spawn-all_exit buf num (child c own rest) h = ground (
  arith,
  spawn-all_exit buf num own,
  spawn-all_exit buf num rest,
  create_service-all_exit (another buf) num own,
)

pub level_positive : (t : Bytes) (f : Forest) → has t (names f) ≡ true → 1 ≤ level t f
unfolding level names has
level_positive t bare h = absurd (ground arith)
level_positive t (tree n below beside) h = ground (
  arith,
  has-append t (names below) (names beside),
  level_positive t below,
  level_positive t beside,
)
