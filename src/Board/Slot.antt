-- ===== src/Board/Slot.antt =====
-- The records of HW1 as strings, and what is read of them after a write to another slot.
use ntu_systems_programming.Prelude.{
  ℕ, zero, suc, ◌+◌, ◌-◌, ◌*◌, ◌<◌, ◌≤◌, ◌≡◌, ap, false, [], ◌∷◌, arith, length,
}
use ntu_systems_programming.Prelude.Text.{Bytes, Memory, string_at}
use ntu_systems_programming.Board.Server.{
  Server, record_num, record_size, content_offset, from_of, content_of, read_all,
}
use ntu_systems_programming.Board.Storage.{Holds}

-- The string at `a` is over before `k` bytes.
abbrev pub IsEnded : Memory → ℕ → ℕ → Type 0
IsEnded m a k = (i : ℕ) × (i < k) × (m (a + i) ≡ 0)

Holds-end : (m : Memory) (a : ℕ) (xs : Bytes) → Holds m a xs → m (a + length xs) ≡ 0
Holds-end m a [] h = ground (arith, ap m (zero_right a))
  where
    zero_right : (n : ℕ) → n + 0 ≡ n
    zero_right n = omega arith
Holds-end m a (c ∷ cs) (e, n, h) =
    ground (arith, Holds-end m (a + 1) cs h, ap m (step a (length cs)))
  where
    step : (n k : ℕ) → n + suc k ≡ n + 1 + k
    step n k = omega arith

pub Holds-IsEnded :
    (m : Memory) (a k : ℕ) (xs : Bytes) → length xs < k → Holds m a xs → IsEnded m a k
Holds-IsEnded m a k xs p h = (length xs, p, Holds-end m a xs h)

string_at-local :
    (fuel : ℕ) (m m' : Memory) (a i : ℕ)
    → i < fuel
    → m (a + i) ≡ 0
    → ((k : ℕ) → k ≤ i → m' (a + k) ≡ m (a + k))
    → string_at fuel m' a ≡ string_at fuel m a
unfolding string_at
string_at-local zero m m' a i p z same = absurd (omega arith)
string_at-local (suc fuel) m m' a zero p z same = ground (arith, same 0)
string_at-local (suc fuel) m m' a (suc i) p z same = ground (
  arith,
  same 0,
  string_at-local fuel m m' (a + 1) i (omega arith) (ground arith)
      (λ k q. ground (arith, same (suc k))),
)

-- Every record holds two strings.
abbrev pub AreEnded : Server → Type 0
AreEnded s =
    (p : ℕ)
    → p < record_num
    → IsEnded s.all (record_size * p) 5 × IsEnded s.all (record_size * p + content_offset) 20

-- Where the bytes of a slot are the same, its strings are.
pub strings_kept :
    (s t : Server) (p : ℕ)
    → p < record_num
    → AreEnded s
    → ((k : ℕ) → record_size * p ≤ k → k < record_size * p + record_size → t.all k ≡ s.all k)
    → (from_of t p ≡ from_of s p) × (content_of t p ≡ content_of s p)
strings_kept s t p q v same =
    let ((i, a, b), (j, c, d)) = v p q in
    (
      string_at-local (250 - record_size * p) s.all t.all (record_size * p) i (omega arith) b
          (λ k r. same (record_size * p + k) (omega arith) (omega arith)),
      string_at-local (250 - (record_size * p + content_offset)) s.all t.all
          (record_size * p + content_offset) j (omega arith) d
          (λ k r. same (record_size * p + content_offset + k) (omega arith) (omega arith)),
    )

-- The file and what has been read of it, at the head of a request's handler; no slot is locked by
-- this process.
pub record InSync (s : Server) : Type 0 where
  pub idle : (p : ℕ) → s.locked p ≡ false
  pub synced : (k : ℕ) → k < 250 → s.all k ≡ s.db k
  pub past : (k : ℕ) → s.db_size ≤ k → s.db k ≡ 0
  pub small : s.db_size ≤ 250
  pub whole : s.offset ≡ s.db_size
  pub ended : AreEnded s

-- A request that writes nothing: the next read fetches nothing.
pub read_nothing : (s : Server) → InSync s → (k : ℕ) → (read_all s).all k ≡ s.all k
unfolding read_all
read_nothing s v k = ground (arith, v.whole)
