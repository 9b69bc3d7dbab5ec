-- ===== src/Services/Descriptors/Life.antt =====
-- The descriptors of a service of HW2/service.c and of its children over their lives.
use ntu_systems_programming.Prelude.{ℕ, ◌≡◌, ◌≢◌, Bool, some}
use ntu_systems_programming.Services.Descriptors.{
  End, reads, writes, Kernel, Created, connect_child,
}
use ntu_systems_programming.Services.Descriptors.Links.{StandardOpen, connect_child-HasPipes}

-- The table of a service that goes on to create services.
pub data Grown (K : Kernel) (t : K.Table) : K.Table → Type 0 where
  here : Grown K t t
  create :
      {u : K.Table} (n m : ℕ) (forks : Bool) (c : Created K)
      → Grown K t u
      → StandardOpen K u
      → connect_child K n m forks u ≡ some c
      → Grown K t c.parent

Grown-kept :
    {K : Kernel} {t u : K.Table}
    → Grown K t u
    → (k : ℕ) (e : End) → K.at t k ≡ some e
    → K.at u k ≡ some e
Grown-kept here k e h = h
Grown-kept {K} (create {u} n m forks c g std made) k e h =
    (connect_child-HasPipes K n m forks u c made std).kept k e (Grown-kept g k e h)

-- A service and its child talk over two pipes, whatever services each of them creates afterwards: the
-- child's descriptor 3 reads what the service writes to `write_fd`, and its descriptor 4 writes what
-- the service reads from `read_fd`; if standard input, output and error are open, and the calls of
-- the system succeed.
pub child_stays_linked :
    (K : Kernel) (n m : ℕ) (forks : Bool) (t : K.Table) (c : Created K) (parent child : K.Table)
    → StandardOpen K t
    → connect_child K n m forks t ≡ some c
    → Grown K c.parent parent
    → Grown K c.child child
    → (K.at child 3 ≡ some (reads n))
      × (K.at parent c.write_fd ≡ some (writes n))
      × (K.at child 4 ≡ some (writes m))
      × (K.at parent c.read_fd ≡ some (reads m))
child_stays_linked K n m forks t c parent child std made g h =
    let v = connect_child-HasPipes K n m forks t c made std in
    (
      Grown-kept h 3 (reads n) v.command.0,
      Grown-kept g c.write_fd (writes n) v.command.1,
      Grown-kept h 4 (writes m) v.answer.0,
      Grown-kept g c.read_fd (reads m) v.answer.1,
    )

-- A later child of a service holds, with the service, the end from which the service reads an earlier
-- child's answers, unless that descriptor is 3 or 4; if standard input, output and error are open, and
-- the calls of the system succeed.
pub later_child_inherits :
    (K : Kernel) (n m n' m' : ℕ) (f f' : Bool) (t u : K.Table) (c d : Created K)
    → StandardOpen K t
    → StandardOpen K u
    → connect_child K n m f t ≡ some c
    → Grown K c.parent u
    → connect_child K n' m' f' u ≡ some d
    → c.read_fd ≢ 3
    → c.read_fd ≢ 4
    → (K.at d.child c.read_fd ≡ some (reads m)) × (K.at d.parent c.read_fd ≡ some (reads m))
later_child_inherits K n m n' m' f f' t u c d std std' made g made' p q =
    let v = connect_child-HasPipes K n m f t c made std in
    let w = connect_child-HasPipes K n' m' f' u d made' std' in
    let own = Grown-kept g c.read_fd (reads m) v.answer.1 in
    (w.inherited c.read_fd (reads m) p q own, w.kept c.read_fd (reads m) own)
