-- ===== src/Board/Refinement/Middle.antt =====
-- The server of HW1 in the middle of a round of its loop: it has read the file at the head of the round,
-- and requests of the round may have written it since.
use mathlib.Core.Path.{fun_ext}
use ntu_systems_programming.Prelude.{
  ℕ, ◌+◌, ◌%◌, ◌<◌, ◌≤◌, ◌≡◌, inl, inr, refl, sym, ap, ◌∙◌, Bool, true, false, Option, none, some,
  zero, suc, arith, update, Option-cases, ltb, ◌^◌, if◌then◌else◌,
}
use ntu_systems_programming.Prelude.Text.{Bytes, Memory}
use ntu_systems_programming.Board.Server.{
  Server, record_num, find_slot, search, claim, fill, write_record, post, read_all,
}
use ntu_systems_programming.Board.Display.{view}
use ntu_systems_programming.Board.Spec.{Board, settle}
use ntu_systems_programming.Board.Views.{Shows}
use ntu_systems_programming.Board.Refinement.Posts.{Shows-read}

-- The next read will show the posts of the board; what has been read are the posts that readers see.
pub record Amid (s : Server) (b : Board) : Type 0 where
  pub settled : Shows (read_all s) b
  pub shown : (p : ℕ) → p < record_num → view s p ≡ b.shown p

pub Amid-settle :
    (ends_round : Bool) {s : Server} {b : Board}
    → Amid s b
    → Amid (if ends_round then read_all s else s) (settle ends_round b)
unfolding read_all
Amid-settle true {s} {b} v = record {
  settled = record {
    sync = (Shows-read (read_all s) b v.settled).sync;
    posts = (Shows-read (read_all s) b v.settled).posts;
    cursor = v.settled.cursor;
  };
  shown = v.settled.posts;
}
Amid-settle false v = v

-- What has been read does not matter to a post.
module _ (s : Server) (a : Memory) (o : ℕ) where
  abbrev other : Server
  other = record s { all = a; offset = o }

  find_slot-other : (n i : ℕ) (l : ℕ → Bool) → find_slot n i l other ≡ find_slot n i l s
  unfolding find_slot
  find_slot-other zero i l = refl
  find_slot-other (suc n) i l = ground (arith, find_slot-other n (i + 1) l)

  search-other : (l : ℕ → Bool) → search l other ≡ search l s
  unfolding search
  search-other l =
      ap (λ r. if ltb (s.last_next + record_num) (2 ^ 31) then r else none)
        (find_slot-other record_num s.last_next l)

-- The slot that a search gives to a post, and the write into it.
abbrev pick : Option ℕ → Server → ℕ × Server
pick none s = (0, s)
pick (some i) s =
    (i % record_num, record s { locked = update s.locked (i % record_num) true; last_next = i + 1 })

claim-pick : (l : ℕ → Bool) (s : Server) → claim l s ≡ pick (search l s) s
unfolding claim
claim-pick l s = elim (Option-cases (search l s)) [
  | inl e ↦ rw (claim, e, e) refl
  | inr (i, e) ↦ rw (claim, e) refl
]

abbrev store : Memory → ℕ × Server → Server
unfolding write_record
store m (pos, s) =
    let s' = write_record pos m s in record s' { locked = update s'.locked pos false }

post-pick :
    (l : ℕ → Bool) (buf : Bytes) (tmp : Memory) (j : ℕ) (s : Server)
    → post l buf tmp j s ≡ store (fill buf tmp j) (pick (search l s) s)
unfolding post store
post-pick l buf tmp j s = ap (store (fill buf tmp j)) (claim-pick l s)

store-other :
    (m : Memory) (r : Option ℕ) (s : Server) (a : Memory) (o : ℕ)
    → store m (pick r (other s a o)) ≡ record (store m (pick r s)) { all = a }
unfolding store write_record
store-other m none s a o = refl
store-other m (some i) s a o = refl

store_keeps :
    (m : Memory) (r : Option ℕ) (s : Server)
    → ((store m (pick r s)).all ≡ s.all) × (s.db_size ≤ (store m (pick r s)).db_size)
unfolding store write_record
store_keeps m none s = (refl, ground arith)
store_keeps m (some i) s = (refl, ground arith)

post-other :
    (s : Server) (a : Memory) (o : ℕ) (l : ℕ → Bool) (buf : Bytes) (tmp : Memory) (j : ℕ)
    → post l buf tmp j (other s a o) ≡ record (post l buf tmp j s) { all = a }
post-other s a o l buf tmp j =
    post-pick l buf tmp j (other s a o)
    ∙ ap (λ r. store (fill buf tmp j) (pick r (other s a o))) (search-other s a o l)
    ∙ store-other (fill buf tmp j) (search l s) s a o
    ∙ ap (λ (t : Server). record t { all = a }) (sym (post-pick l buf tmp j s))

module _ (l : ℕ → Bool) (buf : Bytes) (tmp : Memory) (j : ℕ) (s : Server) where
  pub all-post : (post l buf tmp j s).all ≡ s.all
  all-post =
      ap (λ (t : Server). t.all) (post-pick l buf tmp j s)
      ∙ (store_keeps (fill buf tmp j) (search l s) s).0

  db_size-post : s.db_size ≤ (post l buf tmp j s).db_size
  db_size-post =
      let e = ap (λ (t : Server). t.db_size) (post-pick l buf tmp j s) in
      omega (arith, e, (store_keeps (fill buf tmp j) (search l s) s).1)

  offset-post : (post l buf tmp j s).offset ≡ 0
  unfolding post write_record
  offset-post = refl

  -- A read before the post is made up for by the one behind it.
  pub read_all-post : read_all (post l buf tmp j (read_all s)) ≡ read_all (post l buf tmp j s)
  unfolding read_all
  read_all-post =
      ap read_all (post-other s (read_all s).all (read_all s).offset l buf tmp j)
      ∙ ap (λ m. record (read_all (post l buf tmp j s)) { all = m })
          (fun_ext (λ k. ground (arith, db_size-post, offset-post, ap (λ m. m k) all-post)))
