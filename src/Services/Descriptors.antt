-- ===== src/Services/Descriptors.antt =====
-- The pipes of `create_service` in HW2/service.c: the descriptors of the service and of its new child.
-- The calls of the system are a parameter, with what their manual says.
pub mod Links
pub mod Life
mod Tests
use ntu_systems_programming.Prelude.{ℕ, ◌≤◌, ◌≡◌, ◌≢◌, Bool, Option, none, some, if◌then◌else◌}

-- What a descriptor stands for: an end of a pipe, or another open file.
pub data End : Type 0 where
  reads writes other : ℕ → End

-- `pipe` on a table: the two descriptors, and the table with them.
pub record Piped (Table : Type 0) : Type 0 where
  pub read_end : ℕ
  pub write_end : ℕ
  pub table : Table

-- The table of a process. `pipe` makes the pipe with the number that it is given, or fails, and takes the
-- lowest free descriptor first.
pub record Kernel : Type 1 where
  pub Table : Type 0
  pub at : Table → ℕ → Option End
  pub pipe : Table → ℕ → Option (Piped Table)
  pub close : Table → ℕ → Table
  pub dup2 : Table → ℕ → ℕ → Table
  pub pipe_ends :
      (t : Table) (n : ℕ) (p : Piped Table)
      → pipe t n ≡ some p
      → (at p.table p.read_end ≡ some (reads n))
        × (at p.table p.write_end ≡ some (writes n))
        × (at t p.read_end ≡ none)
        × (at t p.write_end ≡ none)
  pub pipe_lowest :
      (t : Table) (n : ℕ) (p : Piped Table)
      → pipe t n ≡ some p
      → (k : ℕ) → at t k ≡ none
      → p.read_end ≤ k
  pub pipe_others :
      (t : Table) (n : ℕ) (p : Piped Table)
      → pipe t n ≡ some p
      → (k : ℕ) → k ≢ p.read_end
      → k ≢ p.write_end
      → at p.table k ≡ at t k
  pub close_others : (t : Table) (fd k : ℕ) → k ≢ fd → at (close t fd) k ≡ at t k
  pub dup2_copies : (t : Table) (old new : ℕ) → at (dup2 t old new) new ≡ at t old
  pub dup2_others : (t : Table) (old new k : ℕ) → k ≢ new → at (dup2 t old new) k ≡ at t k

module _ (K : Kernel) where
  -- The parent and the child behind `fork`, and what the parent keeps of the child.
  pub record Created : Type 0 where
    pub parent : K.Table
    pub child : K.Table
    pub read_fd : ℕ
    pub write_fd : ℕ

  -- What the child does before `execlp`; `fork` has copied the table.
  abbrev pub child_table : Piped K.Table → Piped K.Table → K.Table
  child_table command answer =
      let closed = K.close (K.close answer.table command.write_end) answer.read_end in
      K.dup2 (K.dup2 closed command.read_end 3) answer.write_end 4

  abbrev pub parent_table : Piped K.Table → Piped K.Table → K.Table
  parent_table command answer = K.close (K.close answer.table answer.write_end) command.read_end

  -- `create_service` from `pipe(fd1)` on: `n` and `m` are the new pipes, and `forks` says whether `fork`
  -- succeeds. `none` is `exit(EXIT_FAILURE)`.
  unfoldable pub connect_child : ℕ → ℕ → Bool → K.Table → Option Created
  connect_child n m forks t = elim (K.pipe t n) [
    | none ↦ none
    | some command ↦ elim (K.pipe command.table m) [
      | none ↦ none
      | some answer ↦
          if forks
          then some (record {
            parent = parent_table command answer;
            child = child_table command answer;
            read_fd = answer.read_end;
            write_fd = command.write_end;
          })
          else none
    ]
  ]
