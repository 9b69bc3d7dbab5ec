-- ===== src/Board/Slots.antt =====
-- Which slot a post of HW1/server.c gets, and what the locks say.
use ntu_systems_programming.Prelude.{
  ℕ, zero, suc, ◌+◌, ◌-◌, ◌%◌, ◌^◌, ltb, ◌<◌, ◌≤◌, ◌≡◌, ◌↔◌, ◌⊎◌, inl, inr, refl, Bool, true, false,
  Option, none, some, arith, Bool-cases, Option-cases, not, ◌&&◌, update,
}
use mathlib.Core.Path.{subst}
use ntu_systems_programming.Board.Server.{
  Server, record_num, is_busy, num_of_locked, check, yes_reply, no_reply, find_slot, search, claim,
}

-- What the search of `n` slots from `i` on finds: the first that is not busy, or that all are busy.
abbrev Search : ℕ → ℕ → (ℕ → Bool) → Server → Option ℕ → Type 0
Search n i is_locked s (some k) =
    (i ≤ k)
    × (k < i + n)
    × (is_busy is_locked s (k % record_num) ≡ false)
    × ((m : ℕ) → i ≤ m → m < k → is_busy is_locked s (m % record_num) ≡ true)
Search n i is_locked s none =
    (m : ℕ) → i ≤ m → m < i + n → is_busy is_locked s (m % record_num) ≡ true

Search-busy :
    (n i : ℕ) (is_locked : ℕ → Bool) (s : Server) (r : Option ℕ)
    → is_busy is_locked s (i % record_num) ≡ true
    → Search n (i + 1) is_locked s r
    → Search (suc n) i is_locked s r
Search-busy n i l s none b h = λ m p q. ground (arith, h m)
Search-busy n i l s (some k) b (p, q, f, h) =
    (omega arith, omega arith, f, λ m u v. ground (arith, h m))

find_slot-Search :
    (n i : ℕ) (is_locked : ℕ → Bool) (s : Server)
    → Search n i is_locked s (find_slot n i is_locked s)
unfolding find_slot
find_slot-Search zero i l s = λ m p q. absurd (omega arith)
find_slot-Search (suc n) i l s =
    elim (Bool-cases (not (l (i % record_num)) && not (s.locked (i % record_num)))) [
      | inl free ↦ rw free (omega arith, omega arith, ground arith, λ m p q. absurd (omega arith))
      | inr busy ↦ rw busy (
          Search-busy n i l s (find_slot n (i + 1) l s) (ground arith)
            (find_slot-Search n (i + 1) l s))
    ]

-- Ten slots in a row, whichever the first, are all the slots.
around : (i p : ℕ) → p < 10 → (m : ℕ) × (i ≤ m) × (m < i + 10) × (m % 10 ≡ p)
around i p h = (i + (p + 10 - i % 10) % 10, omega arith, omega arith, omega arith)

search-none :
    (l : ℕ → Bool) (s : Server)
    → search l s ≡ none
    → (find_slot record_num s.last_next l s ≡ none) ⊎ (2 ^ 31 ≤ s.last_next + record_num)
unfolding search
search-none l s e = elim (Bool-cases (ltb (s.last_next + record_num) (2 ^ 31))) [
  | inl h ↦ inl (rw h at e)
  | inr h ↦ inr (ground (arith, h))
]

search-some :
    (l : ℕ → Bool) (s : Server) (k : ℕ)
    → search l s ≡ some k
    → find_slot record_num s.last_next l s ≡ some k
unfolding search
search-some l s k e = ground (arith, e)

-- A post goes to a slot that is not busy, the first one from behind the slot of the last post; the
-- slot is locked, and the next search begins behind it. If all the slots are busy nothing is locked,
-- and the post goes to slot 0; so too if the limit of the search is no `int`.
pub claim_lem :
    (is_locked : ℕ → Bool) (s : Server)
    → let (pos, s') = claim is_locked s in
      ((k : ℕ) × (s.last_next ≤ k)
        × (k < s.last_next + record_num)
        × (pos ≡ k % record_num)
        × (is_busy is_locked s pos ≡ false)
        × ((m : ℕ) → s.last_next ≤ m → m < k → is_busy is_locked s (m % record_num) ≡ true)
        × (s' ≡ record s { locked = update s.locked pos true; last_next = k + 1 }))
      ⊎ (((p : ℕ) → p < record_num → is_busy is_locked s p ≡ true)
          ⊎ (2 ^ 31 ≤ s.last_next + record_num))
        × (pos ≡ 0)
        × (s' ≡ s)
unfolding claim
claim_lem l s = elim (Option-cases (search l s)) [
  | inl none_found ↦ elim (search-none l s none_found) [
    | inr past ↦ rw (none_found, claim, none_found) (inr (inr past, refl, refl))
    | inl e ↦
        let h : Search record_num s.last_next l s none =
          subst (Search record_num s.last_next l s) e
            (find_slot-Search record_num s.last_next l s) in
        rw (none_found, claim, none_found)
          (inr (
            inl (λ p q.
                let (m, u, v, w) = around s.last_next p q in
                subst (λ r. is_busy l s r ≡ true) w (h m u v)),
            refl,
            refl,
          ))
  ]
  | inr (k, found) ↦
      let e : find_slot record_num s.last_next l s ≡ some k = search-some l s k found in
      let (p, q, f, h) : Search record_num s.last_next l s (some k) =
        subst (Search record_num s.last_next l s) e (find_slot-Search record_num s.last_next l s) in
      rw (found, claim) (inl (k, p, q, refl, f, h, refl))
]

pub num_of_locked-le : (n : ℕ) (is_locked : ℕ → Bool) (s : Server) → num_of_locked n is_locked s ≤ n
unfolding num_of_locked
num_of_locked-le zero l s = omega arith
num_of_locked-le (suc n) l s = ground (arith, num_of_locked-le n l s)

num_of_locked-all :
    (n : ℕ) (is_locked : ℕ → Bool) (s : Server)
    → (num_of_locked n is_locked s ≡ n) ↔ ((p : ℕ) → p < n → is_busy is_locked s p ≡ true)
unfolding num_of_locked
num_of_locked-all zero l s = (λ e p h. absurd (omega arith), λ h. refl)
num_of_locked-all (suc n) l s = (
  λ e p h. ground (
    arith,
    num_of_locked-le n l s,
    (num_of_locked-all n l s).0 (ground (arith, num_of_locked-le n l s)) p,
  ),
  λ h. ground (arith, (num_of_locked-all n l s).1 (λ p q. h p (omega arith)), h n),
)

-- The reply to "check" is "yes" exactly when every slot is busy, and "no" otherwise.
pub check_lem :
    (is_locked : ℕ → Bool) (s : Server)
    → ((check is_locked s ≡ yes_reply) ↔ ((p : ℕ) → p < record_num → is_busy is_locked s p ≡ true))
      × ((check is_locked s ≡ yes_reply) ⊎ (check is_locked s ≡ no_reply))
unfolding check
check_lem l s = (
  (
    λ e. (num_of_locked-all record_num l s).0 (ground arith),
    λ h. ground (arith, (num_of_locked-all record_num l s).1 h),
  ),
  ground arith,
)
