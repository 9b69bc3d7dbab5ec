-- ===== src/Board/Visit/Plain.antt =====
-- Stars on the board of HW1, and what a request of a client makes of it.
use ntu_systems_programming.Prelude.{
  ℕ, zero, suc, ◌+◌, ◌%◌, ◌≤◌, ◌≡◌, ◌⊎◌, ap, ◌∙◌, Bool, Option, none, some, List, [], ◌∷◌, true,
  false, if◌then◌else◌, map, arith, update, inl, inr, Bool-cases, Option-cases,
}
use ntu_systems_programming.Prelude.Text.{Bytes}
use ntu_systems_programming.Board.Server.{
  Server, record_num, yes_reply, no_reply, handle, message_of,
}
use ntu_systems_programming.Board.Client.{show}
use ntu_systems_programming.Board.Session.{pull_text, check_text, exit_text}
use ntu_systems_programming.Board.Display.{
  Post, IsPlain, ArePlain, visible, listed, transcript, show-wire,
}
use ntu_systems_programming.Board.Spec.{
  Board, Request, publish, settle, free_slot, listing, all_locked, answer,
}
use ntu_systems_programming.Board.Refinement.Posts.{Call, serve, Fits, text_of}
use ntu_systems_programming.Board.Refinement.{seen, serve-Amid}
use ntu_systems_programming.Board.Refinement.Middle.{Amid, Amid-settle}
use ntu_systems_programming.Board.Visit.{Site, after_calls, send}
use ntu_systems_programming.Board.Visit.Screen.{
  after_requests, PlainPost, IsPlainBoard, IsTame, AllTame,
}

visible-PlainPost :
    (from content : Bytes) → IsPlain from → IsPlain content → PlainPost (visible from content)
visible-PlainPost [] content f c = record {}
visible-PlainPost (x ∷ from) [] f c = record {}
visible-PlainPost (x ∷ from) (y ∷ content) f c = (f, c)

update-cases :
    (f : ℕ → Option Post) (i : ℕ) (o : Option Post) (p : ℕ)
    → (update f i o p ≡ o) ⊎ (update f i o p ≡ f p)
update-cases f i o p = ground arith

update-Plain :
    (b : Board) (i k : ℕ) (o : Option Post)
    → IsPlainBoard b
    → PlainPost o
    → IsPlainBoard (record { posts = update b.posts i o; shown = b.shown; cursor = k })
update-Plain b i k o v h p q = elim (update-cases b.posts i o p) [
  | inl e ↦ (rw e h, (v p q).1)
  | inr e ↦ (rw e (v p q).0, (v p q).1)
]

answer-Plain :
    (l : ℕ → Bool) (r : Request) (b : Board)
    → IsPlainBoard b
    → IsTame r
    → IsPlainBoard (answer l r b).0
unfolding answer
answer-Plain l Request.pull b v t = v
answer-Plain l Request.check b v t = v
answer-Plain l (publish from content) b v (fits, f, c) =
    elim (Option-cases (free_slot b.cursor l)) [
      | inl e ↦ rw (answer, e) (update-Plain b 0 b.cursor _ v (visible-PlainPost from content f c))
      | inr (i, e) ↦
          rw (answer, e)
            (update-Plain b (i % record_num) (i + 1) _ v (visible-PlainPost from content f c))
    ]

settle-Plain : (ends : Bool) (b : Board) → IsPlainBoard b → IsPlainBoard (settle ends b)
settle-Plain true b v p q = ((v p q).0, (v p q).0)
settle-Plain false b v p q = v p q

listed-ArePlain :
    (o : Option Post) (ps : List Post) → PlainPost o → ArePlain ps → ArePlain (listed o ps)
listed-ArePlain none ps h r = r
listed-ArePlain (some p) ps (f, c) r = (f, c, r)

listing-ArePlain :
    (n i : ℕ) (l : ℕ → Bool) (b : Board)
    → IsPlainBoard b
    → i + n ≤ record_num
    → ArePlain (listing n i l b)
unfolding listing
listing-ArePlain zero i l b v h = record {}
listing-ArePlain (suc n) i l b v h =
    let rest = listing-ArePlain n (i + 1) l b v (omega arith) in
    elim (Bool-cases (l i)) [
      | inl e ↦ rw e rest
      | inr e ↦ rw e (listed-ArePlain (b.shown i) _ (v i (omega arith)).1 rest)
    ]

IsTame-Fits : (r : Request) → IsTame r → Fits r
IsTame-Fits Request.pull t = t
IsTame-Fits Request.check t = t
IsTame-Fits (publish from content) (fits, f, c) = fits

-- A server within a round, and a board without stars.
abbrev pub ShowsPlain : Server → Board → Type 0
ShowsPlain s b = Amid s b × IsPlainBoard b

pub after_calls-ShowsPlain :
    (cs : List Call) (s : Server) (b : Board)
    → ShowsPlain s b
    → AllTame cs
    → ShowsPlain (after_calls cs s) (after_requests (map seen cs) b)
unfolding after_calls after_requests
after_calls-ShowsPlain [] s b v t = v
after_calls-ShowsPlain (c ∷ cs) s b (v, h) (t, ts) =
    after_calls-ShowsPlain cs (serve c s).0 (settle c.ends_round (answer c.is_locked c.request b).0)
      (
        (serve-Amid c.request c.is_locked c.ends_round c.tmp c.j s b v (IsTame-Fits c.request t)).0,
        settle-Plain c.ends_round _ (answer-Plain c.is_locked c.request b h t),
      )
      ts

-- A request of this client.
module _ (m : Site) (s : Server) (b : Board) (v : ShowsPlain s b) where
  pub send-ShowsPlain :
      (r : Request)
      → IsTame r
      → ShowsPlain (send m (some (text_of r)) s).0 (settle m.ends_round (answer m.is_locked r b).0)
  unfolding send serve
  send-ShowsPlain r t = (
    (serve-Amid r m.is_locked m.ends_round m.tmp m.j s b v.0 (IsTame-Fits r t)).0,
    settle-Plain m.ends_round _ (answer-Plain m.is_locked r b v.1 t),
  )

  pub send-pull :
      show (send m (some pull_text) s).1 ≡ transcript (listing record_num 0 m.is_locked b)
  unfolding send serve answer handle message_of
  send-pull =
      ap (λ o. show (elim o [ none ↦ [] | some bytes ↦ bytes ]))
        ((serve-Amid Request.pull m.is_locked m.ends_round m.tmp m.j s b v.0 (record {})).1)
      ∙ show-wire _ (listing-ArePlain record_num 0 m.is_locked b v.1 (omega arith))

  pub send-check :
      (send m (some check_text) s).1
      ≡ (if all_locked record_num m.is_locked then yes_reply else no_reply)
  unfolding send serve answer handle message_of
  send-check =
      ap (λ o. elim o as (λ _. Bytes) [ none ↦ [] | some bytes ↦ bytes ])
        ((serve-Amid Request.check m.is_locked m.ends_round m.tmp m.j s b v.0 (record {})).1)

  pub send-exit : ShowsPlain (send m (some exit_text) s).0 (settle m.ends_round b)
  unfolding send handle message_of
  send-exit = (Amid-settle m.ends_round v.0, settle-Plain m.ends_round b v.1)
