-- ===== src/Board/Refinement.antt =====
-- The server of HW1 against the board of `Spec`, over a sequence of requests.
pub mod Posts
pub mod Middle
use mathlib.Core.Path.{subst}
use ntu_systems_programming.Prelude.{
  ℕ, ◌≡◌, inl, inr, refl, sym, ap, ◌∙◌, Bool, none, some, Option, List, [], ◌∷◌, map, Option-cases,
}
use ntu_systems_programming.Prelude.Text.{Bytes, Memory}
use ntu_systems_programming.Board.Server.{Server, post, read_all, message_of, handle}
use ntu_systems_programming.Board.Client.{post_request}
use ntu_systems_programming.Board.Storage.{handle-post_request}
use ntu_systems_programming.Board.Display.{view}
use ntu_systems_programming.Board.Spec.{
  Board, Request, publish, Event, settle, free_slot, answer, answers,
}
use ntu_systems_programming.Board.Slot.{InSync}
use ntu_systems_programming.Board.Views.{Shows, pull-listing, check-all_locked}
use ntu_systems_programming.Board.Refinement.Posts.{
  Call, serve, replies, Fits, Shows-read, publish-Shows,
}
use ntu_systems_programming.Board.Refinement.Middle.{Amid, Amid-settle, all-post, read_all-post}

module _ (l : ℕ → Bool) (from content : Bytes) (b : Board) where
  pub answer_silent : (answer l (publish from content) b).1 ≡ none
  unfolding answer
  answer_silent = elim (Option-cases (free_slot b.cursor l)) [
    | inl e ↦ rw (e, answer) refl
    | inr (i, e) ↦ rw (e, answer) refl
  ]

  -- A post is not shown before the next round.
  pub answer_hidden : (answer l (publish from content) b).0.shown ≡ b.shown
  unfolding answer
  answer_hidden = elim (Option-cases (free_slot b.cursor l)) [
    | inl e ↦ rw (e, answer) refl
    | inr (i, e) ↦ rw (e, answer) refl
  ]

  post-Amid :
      (tmp : Memory) (j : ℕ) (s : Server)
      → Amid s b
      → Fits (publish from content)
      → Amid (post l (post_request from content) tmp j s) (answer l (publish from content) b).0
  unfolding serve
  post-Amid tmp j s v fits = record {
    settled =
        subst (λ t. Shows t (answer l (publish from content) b).0)
          (ap (λ (r : Server × Option Bytes). read_all r.0)
              (handle-post_request l from content tmp j (read_all s))
            ∙ read_all-post l (post_request from content) tmp j s)
          (publish-Shows l from content tmp j (read_all s) b v.settled fits);
    shown = λ p q.
        ap (λ m. view (record s { all = m }) p) (all-post l (post_request from content) tmp j s)
        ∙ v.shown p q
        ∙ ap (λ f. f p) (sym answer_hidden);
  }

-- One request: the reply of the board, and a server that stands in the round as the board does.
pub serve-Amid :
    (r : Request) (l : ℕ → Bool) (ends : Bool) (tmp : Memory) (j : ℕ) (s : Server) (b : Board)
    → Amid s b
    → Fits r
    → let c : Call = record { is_locked = l; request = r; ends_round = ends; tmp = tmp; j = j } in
      Amid (serve c s).0 (settle ends (answer l r b).0) × ((serve c s).1 ≡ (answer l r b).1)
unfolding serve answer handle message_of
serve-Amid Request.pull l ends tmp j s b v f =
    (Amid-settle ends v, ap some (pull-listing l s b v.settled.sync.idle v.shown))
serve-Amid Request.check l ends tmp j s b v f =
    (Amid-settle ends v, ap some (check-all_locked l s v.settled.sync.idle))
serve-Amid (publish from content) l ends tmp j s b v f =
    let same = handle-post_request l from content tmp j s in
    (
      rw same (Amid-settle ends (post-Amid l from content b tmp j s v f)),
      ap (λ r. r.1) same ∙ sym (answer_silent l from content b),
    )

-- What the board sees of a call.
abbrev pub seen : Call → Event
seen c = (c.is_locked, c.request, c.ends_round)

abbrev pub AllFit : List Call → Type 0
AllFit [] = Unit {0}
AllFit (c ∷ cs) = Fits c.request × AllFit cs

replies-Amid :
    (cs : List Call) (s : Server) (b : Board)
    → Amid s b
    → AllFit cs
    → replies cs s ≡ answers (map seen cs) b
unfolding replies answers
replies-Amid [] s b v f = refl
replies-Amid (c ∷ cs) s b v (f, fs) =
    let (amid, same) = serve-Amid c.request c.is_locked c.ends_round c.tmp c.j s b v f in
    rw
      (
        same,
        replies-Amid cs (serve c s).0 (settle c.ends_round (answer c.is_locked c.request b).0) amid
            fs,
      )
      refl

-- The board that a server shows at the head of a round.
abbrev pub board_of : Server → Board
board_of s = record { posts = view s; shown = view s; cursor = s.last_next }

pub board_of-Amid : (s : Server) → InSync s → Amid s (board_of s)
board_of-Amid s v = record {
  settled = Shows-read s (board_of s) (record { sync = v; posts = λ p q. refl; cursor = refl });
  shown = λ p q. refl;
}

-- The server refines the board: it answers any sequence of pulls, checks and posts whose lines fit into
-- a record as the board that it shows would, however the requests are spread over the rounds of its
-- loop, which reads the file once a round: a pull gets the posts as they were when its round began. The
-- locks of other processes may differ at each request, and the uninitialised variables hold anything.
-- Before the first request the file must have been read, hold two strings in each record, and no slot be
-- locked by this process.
pub server_refines :
    (cs : List Call) (s : Server)
    → InSync s
    → AllFit cs
    → replies cs s ≡ answers (map seen cs) (board_of s)
server_refines cs s v f = replies-Amid cs s (board_of s) (board_of-Amid s v) f
