-- ===== src/Board/Refinement/Posts.antt =====
-- One request of HW1, and a post to the server against a post to the board of `Spec`.
use mathlib.Core.Path.{subst, fun_ext}
use ntu_systems_programming.Prelude.{
  ℕ, ◌+◌, ◌%◌, ◌<◌, ◌≡◌, inl, inr, refl, sym, ap, ◌∙◌, Bool, true, false, Option, none, some, List,
  [], ◌∷◌, arith, length, update, Option-cases, ℕ_discrete, if◌then◌else◌,
}
use ntu_systems_programming.Prelude.Text.{Bytes, Memory}
use ntu_systems_programming.Board.Server.{
  Server, record_num, content_offset, from_of, content_of, claim, fill, write_record, post,
  read_all, handle,
}
use ntu_systems_programming.Board.Client.{post_request}
use ntu_systems_programming.Board.Session.{pull_text, check_text}
use ntu_systems_programming.Board.Storage.{IsLine, post-read_all, handle-post_request, fill-Holds}
use ntu_systems_programming.Board.Spec.{Board, Request, publish, free_slot, answer}
use ntu_systems_programming.Board.Display.{visible, view}
use ntu_systems_programming.Board.Slot.{AreEnded, Holds-IsEnded, InSync, read_nothing}
use ntu_systems_programming.Board.Writing.{written, written_others, written-InSync}
use ntu_systems_programming.Board.Views.{Shows, claim_free, claim_full}

-- The text of a request, as the client sends it.
abbrev pub text_of : Request → Bytes
text_of Request.pull = pull_text
text_of Request.check = check_text
text_of (publish from content) = post_request from content

-- A request as the server meets it: `tmp` and `j` are not initialised. A round of `main` serves any number
-- of requests, and ends with some of them.
pub record Call : Type 0 where
  pub is_locked : ℕ → Bool
  pub request : Request
  pub ends_round : Bool
  pub tmp : Memory
  pub j : ℕ

-- One request, and the read at the head of the next round of `main`, if its round ends.
unfoldable pub serve : Call → Server → Server × Option Bytes
unfolding handle read_all
serve c s =
    let (s', reply) = handle c.is_locked (text_of c.request) c.tmp c.j s in
    (if c.ends_round then read_all s' else s', reply)

unfoldable pub replies : List Call → Server → List (Option Bytes)
unfolding serve
replies [] s = []
replies (c ∷ cs) s = let (s', reply) = serve c s in reply ∷ replies cs s'

-- The lines of a post fit into a record.
abbrev pub Fits : Request → Type 0
Fits (publish from content) =
    IsLine from × IsLine content × (length from < 5) × (length content < 20)
Fits _ = Unit {0}

-- After a request that writes nothing.
pub Shows-read : (s : Server) (b : Board) → Shows s b → Shows (read_all s) b
unfolding read_all
Shows-read s b v = record {
  sync = record {
    idle = v.sync.idle;
    synced = λ k p. read_nothing s v.sync k ∙ v.sync.synced k p;
    past = v.sync.past;
    small = v.sync.small;
    whole = ground (arith, v.sync.whole, v.sync.small);
    ended = subst (λ m. AreEnded (record s { all = m })) (sym same) v.sync.ended;
  };
  posts = λ p q. ap (λ m. view (record s { all = m }) p) same ∙ v.posts p q;
  cursor = v.cursor;
}
  where
    same : (read_all s).all ≡ s.all
    same = fun_ext (read_nothing s v.sync)

module _ (l : ℕ → Bool) (from content : Bytes) (tmp : Memory) (j : ℕ) (s : Server) (b : Board)
    (v : Shows s b) (fits : Fits (publish from content)) where
  abbrev call : Call
  call = record {
    is_locked = l;
    request = publish from content;
    ends_round = true;
    tmp = tmp;
    j = j;
  }

  abbrev stored : Memory
  stored = fill (post_request from content) tmp j

  -- The slot has the post, and the others are as they were.
  stored-Shows :
      (pos : ℕ) (within : pos < record_num) (lk : ℕ → Bool) (ln : ℕ)
      → (claim l s).0 ≡ pos
      → (serve call s).0 ≡ written s v.sync pos within stored lk ln
      → ((p : ℕ) → lk p ≡ false)
      → Shows
          (serve call s).0
          (record b { posts = update b.posts pos (visible from content); cursor = ln })
  unfolding serve read_all write_record
  stored-Shows pos within lk ln e w free =
      let (f, c, pf, pc) = fits in
      let (hf, hc) = fill-Holds from content tmp j f c pf in
      let (rf, rc, ro) = post-read_all l from content tmp j s f c pf pc in
      let kept = written_others s v.sync pos within stored lk ln in
      record {
        sync = subst InSync (sym w) (
            written-InSync s v.sync pos within stored lk ln free
              (Holds-IsEnded stored 0 5 from pf hf)
              (Holds-IsEnded stored content_offset 20 content pc hc));
        posts = λ p q. elim (ℕ_discrete p pos) [
          | yes here ↦
              (subst (λ k. view (serve call s).0 k ≡ visible from content) (e ∙ sym here)
                  (ap (λ x. visible x (content_of (serve call s).0 (claim l s).0)) rf
                    ∙ ap (λ y. visible from y) rc)
                ∙ ground (arith, here))
          | no there ↦
              (ap (λ t. view t p) w
                ∙ ap (λ x. visible x (content_of (written s v.sync pos within stored lk ln) p))
                    (kept p q there).0
                ∙ ap (λ y. visible (from_of s p) y) (kept p q there).1
                ∙ v.posts p q
                ∙ ground (arith, there))
        ];
        cursor = ap (λ (t : Server). t.last_next) w;
      }

  serve_free :
      (i : ℕ)
      → free_slot s.last_next l ≡ some i
      → (serve call s).0
        ≡ written s v.sync
            (i % record_num)
            (omega arith)
            stored
            (update (update s.locked (i % record_num) true) (i % record_num) false)
            (i + 1)
  unfolding serve post write_record read_all
  serve_free i e =
      rw (handle-post_request l from content tmp j s, post, claim_free l s i v.sync.idle e) refl

  serve_full :
      free_slot s.last_next l ≡ none
      → (serve call s).0
        ≡ written s v.sync 0 (omega arith) stored (update s.locked 0 false) s.last_next
  unfolding serve post write_record read_all
  serve_full e =
      rw (handle-post_request l from content tmp j s, post, claim_full l s v.sync.idle e) refl

  answer_free :
      (i : ℕ)
      → free_slot s.last_next l ≡ some i
      → (answer l (publish from content) b).0 ≡ record b {
        posts = update b.posts (i % record_num) (visible from content);
        cursor = i + 1;
      }
  unfolding answer
  answer_free i e = let e' = ap (λ k. free_slot k l) (sym v.cursor) ∙ e in rw (e', answer) refl

  answer_full :
      free_slot s.last_next l ≡ none
      → (answer l (publish from content) b).0
        ≡ record b { posts = update b.posts 0 (visible from content); cursor = s.last_next }
  unfolding answer
  answer_full e =
      let e' = ap (λ k. free_slot k l) (sym v.cursor) ∙ e in rw (e', answer, v.cursor) refl

  pub publish-Shows : Shows (serve call s).0 (answer l (publish from content) b).0
  publish-Shows = elim (Option-cases (free_slot s.last_next l)) [
    | inl e ↦ subst (Shows (serve call s).0) (sym (answer_full e)) (
        stored-Shows 0 (omega arith) _ _ (ap (λ r. r.0) (claim_full l s v.sync.idle e))
          (serve_full e) (λ p. ground (arith, v.sync.idle p)))
    | inr (i, e) ↦ subst (Shows (serve call s).0) (sym (answer_free i e)) (
        stored-Shows (i % record_num) (omega arith) _ _
          (ap (λ r. r.0) (claim_free l s i v.sync.idle e)) (serve_free i e)
          (λ p. ground (arith, v.sync.idle p)))
  ]
