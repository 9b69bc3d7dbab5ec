-- ===== src/Services/Descriptors/Tests.antt =====
-- The descriptors of HW2/service.c with tables of 64 entries.
use mathlib.Core.Path.{subst}
use ntu_systems_programming.Prelude.{
  arith, ℕ, zero, suc, ◌+◌, ◌≤◌, ◌≡◌, ◌≢◌, refl, true, Option, none, some, update, update_apart,
  update_here, ltb, if◌then◌else◌, Option-cases, inl, inr, ℕ_discrete, sym, ap, ◌∙◌,
}
use ntu_systems_programming.Services.Descriptors.{
  End, reads, writes, other, Piped, Kernel, Created, connect_child, child_table, parent_table,
}
use ntu_systems_programming.Services.Descriptors.Links.{StandardOpen, connect_child-HasPipes}
use ntu_systems_programming.Services.Descriptors.Life.{
  here, create, child_stays_linked, later_child_inherits,
}

abbrev FdTable : Type 0
FdTable = ℕ → Option End

-- The lowest free descriptor from `i` on, among the next `fuel`.
lowest : ℕ → ℕ → FdTable → Option ℕ
lowest zero i t = none
lowest (suc fuel) i t =
    let rest = lowest fuel (i + 1) t in elim (t i) [ none ↦ some i | some _ ↦ rest ]

record LeastFree (i : ℕ) (t : FdTable) (r : ℕ) : Type 0 where
  free : t r ≡ none
  least : (k : ℕ) → i ≤ k → t k ≡ none → r ≤ k

lowest-LeastFree : (fuel i : ℕ) (t : FdTable) (r : ℕ) → lowest fuel i t ≡ some r → LeastFree i t r
unfolding lowest
lowest-LeastFree zero i t r e = absurd (ground (arith, e))
lowest-LeastFree (suc fuel) i t r e = elim (Option-cases (t i)) [
  | inl f ↦ record { free = ground (arith, e, f); least = λ k p q. ground (arith, e, f) }
  | inr (x, f) ↦
      let v = lowest-LeastFree fuel (i + 1) t r (ground (arith, e, f)) in
      record {
        free = v.free;
        least = λ k p q. elim (ℕ_discrete i k) [
          | yes d ↦ let clash : some x ≡ none = sym f ∙ ap t d ∙ q in absurd (ground (arith, clash))
          | no d ↦ v.least k (omega arith) q
        ];
      }
]

made : ℕ → FdTable → ℕ → ℕ → Piped FdTable
made n t r w = record {
  read_end = r;
  write_end = w;
  table = update (update t r (some (reads n))) w (some (writes n));
}

make_pipe : FdTable → ℕ → Option (Piped FdTable)
unfolding lowest made
make_pipe t n = elim (lowest 64 0 t) [
  | none ↦ none
  | some r ↦ elim (lowest 64 0 (update t r (some (reads n)))) [
    | none ↦ none
    | some w ↦ some (made n t r w)
  ]
]

-- What a pipe that is made has taken.
record PipeTaken (t : FdTable) (n : ℕ) (p : Piped FdTable) : Type 0 where
  read_free : LeastFree 0 t p.read_end
  write_free : LeastFree 0 (update t p.read_end (some (reads n))) p.write_end
  table : p.table ≡ update (update t p.read_end (some (reads n))) p.write_end (some (writes n))

make_pipe-PipeTaken :
    (t : FdTable) (n : ℕ) (p : Piped FdTable) → make_pipe t n ≡ some p → PipeTaken t n p
unfolding make_pipe
make_pipe-PipeTaken t n p e = elim (Option-cases (lowest 64 0 t)) [
  | inl f ↦ absurd (ground (arith, e, f))
  | inr (r, f) ↦ elim (Option-cases (lowest 64 0 (update t r (some (reads n))))) [
    | inl g ↦ absurd (ground (arith, e, f, g))
    | inr (w, g) ↦
        let value : make_pipe t n ≡ some (made n t r w) = rw (make_pipe, f, g) refl in
        subst (PipeTaken t n) (cc (sym value ∙ e)) (record {
          read_free = lowest-LeastFree 64 0 t r f;
          write_free = lowest-LeastFree 64 0 (update t r (some (reads n))) w g;
          table = refl;
        })
  ]
]

module _ (t : FdTable) (n : ℕ) (p : Piped FdTable) (e : make_pipe t n ≡ some p) where
  ends_differ : p.write_end ≢ p.read_end
  ends_differ q =
      let v = make_pipe-PipeTaken t n p e in
      let clash : some (reads n) ≡ none =
        sym (update_here t p.read_end (some (reads n)))
        ∙ ap (update t p.read_end (some (reads n))) (sym q)
        ∙ v.write_free.free in
      ground (arith, clash)

  made_ends :
      (p.table p.read_end ≡ some (reads n))
      × (p.table p.write_end ≡ some (writes n))
      × (t p.read_end ≡ none)
      × (t p.write_end ≡ none)
  made_ends =
      let v = make_pipe-PipeTaken t n p e in
      let one = update t p.read_end (some (reads n)) in
      (
        ap (λ u. u p.read_end) v.table
            ∙ update_apart one p.write_end (some (writes n)) p.read_end ends_differ
            ∙ update_here t p.read_end (some (reads n)),
        ap (λ u. u p.write_end) v.table ∙ update_here one p.write_end (some (writes n)),
        v.read_free.free,
        sym (update_apart t p.read_end (some (reads n)) p.write_end (λ q. ends_differ (sym q)))
            ∙ v.write_free.free,
      )

  made_lowest : (k : ℕ) → t k ≡ none → p.read_end ≤ k
  made_lowest k h = (make_pipe-PipeTaken t n p e).read_free.least k (omega arith) h

  made_others : (k : ℕ) → k ≢ p.read_end → k ≢ p.write_end → p.table k ≡ t k
  made_others k a b =
      let v = make_pipe-PipeTaken t n p e in
      ap (λ u. u k) v.table
      ∙ update_apart (update t p.read_end (some (reads n))) p.write_end (some (writes n)) k
          (λ q. b (sym q))
      ∙ update_apart t p.read_end (some (reads n)) k (λ q. a (sym q))

abbrev kernel : Kernel
kernel = record {
  Table = FdTable;
  at = λ t k. t k;
  pipe = make_pipe;
  close = λ t fd. update t fd none;
  dup2 = λ t old new. update t new (t old);
  pipe_ends = made_ends;
  pipe_lowest = made_lowest;
  pipe_others = made_others;
  close_others = λ t fd k d. update_apart t fd none k (λ q. d (sym q));
  dup2_copies = λ t old new. update_here t new (t old);
  dup2_others = λ t old new k d. update_apart t new (t old) k (λ q. d (sym q));
}

-- The manager's table when it starts, and what it creates.
abbrev fresh_table : FdTable
fresh_table k = if ltb k 3 then some (other k) else none

fresh-StandardOpen : StandardOpen kernel fresh_table
fresh-StandardOpen k h e = ground arith

-- The first two children: commands through pipes 0 and 2, answers through 1 and 3.
abbrev command1 : Piped FdTable
unfolding made
command1 = made 0 fresh_table 3 4

abbrev answer1 : Piped FdTable
unfolding made
answer1 = made 1 command1.table 5 6

abbrev first : Created kernel
first = record {
  parent = parent_table kernel command1 answer1;
  child = child_table kernel command1 answer1;
  read_fd = 5;
  write_fd = 4;
}

abbrev command2 : Piped FdTable
unfolding made
command2 = made 2 first.parent 3 6

abbrev answer2 : Piped FdTable
unfolding made
answer2 = made 3 command2.table 7 8

abbrev second : Created kernel
second = record {
  parent = parent_table kernel command2 answer2;
  child = child_table kernel command2 answer2;
  read_fd = 7;
  write_fd = 6;
}

first_created : connect_child kernel 0 1 true fresh_table ≡ some first
unfolding connect_child make_pipe
first_created = refl

second_created : connect_child kernel 2 3 true first.parent ≡ some second
unfolding connect_child make_pipe
second_created = refl

parent-StandardOpen : StandardOpen kernel first.parent
parent-StandardOpen k h e =
    let open_at_start : fresh_table k ≡ some (other k) = ground (arith, h) in
    let links =
      connect_child-HasPipes kernel 0 1 true fresh_table first first_created fresh-StandardOpen in
    let clash : some (other k) ≡ none = sym (links.kept k (other k) open_at_start) ∙ e in
    ground (arith, clash)

child_stays_linked_example :
    (first.child 3 ≡ some (reads 0))
    × (second.parent 4 ≡ some (writes 0))
    × (first.child 4 ≡ some (writes 1))
    × (second.parent 5 ≡ some (reads 1))
unfolding made
child_stays_linked_example =
    child_stays_linked kernel 0 1 true fresh_table first second.parent first.child
      fresh-StandardOpen first_created
      (create 2 3 true second here parent-StandardOpen second_created) here

later_child_inherits_example :
    (second.child 5 ≡ some (reads 1)) × (second.parent 5 ≡ some (reads 1))
unfolding made
later_child_inherits_example =
    later_child_inherits kernel 0 1 2 3 true true fresh_table first.parent first second
      fresh-StandardOpen parent-StandardOpen first_created here second_created (omega arith)
      (omega arith)
