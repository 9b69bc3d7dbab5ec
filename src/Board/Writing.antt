-- ===== src/Board/Writing.antt =====
-- What a post does to the file and the memory of the server of HW1.
use ntu_systems_programming.Prelude.{
  ℕ, ◌+◌, ◌*◌, ◌<◌, ◌≤◌, ◌≡◌, ◌≢◌, ◌⊎◌, ◌∙◌, Bool, false, arith, ℕ_discrete,
}
use ntu_systems_programming.Prelude.Text.{Memory}
use ntu_systems_programming.Board.Server.{
  Server, record_num, record_size, content_offset, write_record, read_all, from_of, content_of,
}
use ntu_systems_programming.Board.Slot.{AreEnded, IsEnded, strings_kept, InSync}

-- The record `m` is written to slot `pos`, and the file is read again.
module _ (s : Server) (v : InSync s) (pos : ℕ) (within : pos < record_num) (m : Memory)
    (lk : ℕ → Bool) (ln : ℕ) where
  abbrev pub written : Server
  written = read_all (record (write_record pos m s) { locked = lk; last_next = ln })

  written-slot : (k : ℕ) → k < record_size → written.all (record_size * pos + k) ≡ m k
  unfolding read_all write_record
  written-slot k p = ground (arith, v.small)

  written-others :
      (k : ℕ)
      → k < 250
      → (k < record_size * pos) ⊎ (record_size * pos + record_size ≤ k)
      → written.all k ≡ s.all k
  unfolding read_all write_record
  written-others k p w = ground (arith, v.small, v.synced k, v.past k)

  pub written_others :
      (p : ℕ)
      → p < record_num
      → p ≢ pos
      → (from_of written p ≡ from_of s p) × (content_of written p ≡ content_of s p)
  written_others p q ne =
      strings_kept s written p q v.ended (λ k a b. written-others k (omega arith) (omega arith))

  written-ended : IsEnded m 0 5 → IsEnded m content_offset 20 → AreEnded written
  written-ended (i, a, b) (j, c, d) p q = elim (ℕ_discrete p pos) [
    | yes e ↦ (
      (i, a, ground (arith, e, b, written-slot (0 + i) (omega arith))),
      (j, c, ground (arith, e, d, written-slot (content_offset + j) (omega arith))),
    )
    | no ne ↦
        let ((i', a', b'), (j', c', d')) = v.ended p q in
        (
          (i', a', written-others (record_size * p + i') (omega arith) (omega arith) ∙ b'),
          (
            j',
            c',
            written-others (record_size * p + content_offset + j') (omega arith) (omega arith) ∙ d',
          ),
        )
  ]

  pub written-InSync :
      ((p : ℕ) → lk p ≡ false) → IsEnded m 0 5 → IsEnded m content_offset 20 → InSync written
  unfolding read_all write_record
  written-InSync free a b = record {
    idle = free;
    synced = λ k p. ground (arith, v.small, v.synced k, v.past k);
    past = λ k p. ground (arith, v.small, v.past k);
    small = ground (arith, v.small);
    whole = ground (arith, v.small);
    ended = written-ended a b;
  }
