-- ===== src/Board/Views.antt =====
-- The server of HW1 seen as the board of `Spec`: what it shows, and which slot it takes.
use ntu_systems_programming.Prelude.{
  ℕ, zero, suc, ◌+◌, ◌%◌, ◌^◌, ltb, ◌<◌, ◌≤◌, ◌≡◌, refl, ap, ◌∙◌, Bool, true, false, none, some,
  ◌∷◌, ◌==◌, arith, update, if◌then◌else◌,
}
use ntu_systems_programming.Board.Server.{
  Server, record_num, num_of_locked, check, find_slot, search, claim, yes_reply, no_reply,
  pull as pull_reply,
}
use ntu_systems_programming.Board.Display.{wire, view, shown, pull_from-wire}
use ntu_systems_programming.Board.Slots.{num_of_locked-le}
use ntu_systems_programming.Board.Spec.{Board, first_free, free_slot, listing, all_locked}
use ntu_systems_programming.Board.Slot.{InSync}

-- The server at the head of the handlers of a round, behind the read, and the posts of the board.
pub record Shows (s : Server) (b : Board) : Type 0 where
  pub sync : InSync s
  pub posts : (p : ℕ) → p < record_num → view s p ≡ b.posts p
  pub cursor : s.last_next ≡ b.cursor

find_slot-first_free :
    (n i : ℕ) (l : ℕ → Bool) (s : Server)
    → ((p : ℕ) → s.locked p ≡ false)
    → find_slot n i l s ≡ first_free n i l
unfolding find_slot first_free
find_slot-first_free zero i l s h = refl
find_slot-first_free (suc n) i l s h =
    ground (arith, h (i % record_num), find_slot-first_free n (i + 1) l s h)

search-free_slot :
    (l : ℕ → Bool) (s : Server)
    → ((p : ℕ) → s.locked p ≡ false)
    → search l s ≡ free_slot s.last_next l
unfolding search free_slot
search-free_slot l s h =
    ap (λ o. if ltb (s.last_next + record_num) (2 ^ 31) then o else none)
      (find_slot-first_free record_num s.last_next l s h)

pub claim_free :
    (l : ℕ → Bool) (s : Server) (i : ℕ)
    → ((p : ℕ) → s.locked p ≡ false)
    → free_slot s.last_next l ≡ some i
    → claim l s ≡ (
      i % record_num,
      record s { locked = update s.locked (i % record_num) true; last_next = i + 1 },
    )
unfolding claim
claim_free l s i h e = rw (search-free_slot l s h ∙ e, claim) refl

pub claim_full :
    (l : ℕ → Bool) (s : Server)
    → ((p : ℕ) → s.locked p ≡ false)
    → free_slot s.last_next l ≡ none
    → claim l s ≡ (0, s)
unfolding claim
claim_full l s h e =
    let none_free = search-free_slot l s h ∙ e in rw (none_free, claim, none_free) refl

-- The reply to "check".
num_of_locked-all_locked :
    (n : ℕ) (l : ℕ → Bool) (s : Server)
    → ((p : ℕ) → s.locked p ≡ false)
    → (num_of_locked n l s == n) ≡ all_locked n l
unfolding num_of_locked all_locked
num_of_locked-all_locked zero l s h = refl
num_of_locked-all_locked (suc n) l s h =
    ground (arith, h n, num_of_locked-le n l s, num_of_locked-all_locked n l s h)

module _ (l : ℕ → Bool) (s : Server) (b : Board) (idle : (p : ℕ) → s.locked p ≡ false)
    (same : (p : ℕ) → p < record_num → view s p ≡ b.shown p) where
  shown-listing : (n i : ℕ) → i + n ≤ record_num → shown n i l s ≡ listing n i l b
  unfolding listing
  shown-listing zero i h = refl
  shown-listing (suc n) i h =
      ground (arith, idle i, same i (omega arith), shown-listing n (i + 1) (omega arith))

  pub pull-listing : pull_reply l s ≡ 39 ∷ wire (listing record_num 0 l b)
  unfolding pull_reply
  pull-listing =
      ap (λ bs. 39 ∷ bs)
        (pull_from-wire record_num 0 l s (omega arith)
          ∙ ap wire (shown-listing record_num 0 (omega arith)))

-- The reply to "check", with no slot locked by this process.
pub check-all_locked :
    (l : ℕ → Bool) (s : Server)
    → ((p : ℕ) → s.locked p ≡ false)
    → check l s ≡ (if all_locked record_num l then yes_reply else no_reply)
unfolding check
check-all_locked l s h = rw (num_of_locked-all_locked record_num l s h) refl
