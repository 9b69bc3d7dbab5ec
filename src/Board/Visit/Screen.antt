-- ===== src/Board/Visit/Screen.antt =====
-- What the user of a client of HW1 is to see, told from the board of `Spec`.
use ntu_systems_programming.Prelude.{
  ℕ, ◌<◌, Bool, true, false, Option, none, some, List, [], ◌∷◌, ◌++◌, if◌then◌else◌, map,
}
use ntu_systems_programming.Prelude.Text.{newline, str_eq}
use ntu_systems_programming.Board.Server.{record_num}
use ntu_systems_programming.Board.Client.{from_label, content_label}
use ntu_systems_programming.Board.Session.{
  pull_text, post_text, exit_text, Output, rule, limit_error, posts, labels,
}
use ntu_systems_programming.Board.Display.{Post, IsPlain, transcript}
use ntu_systems_programming.Board.Spec.{
  Board, Request, publish, Event, settle, listing, all_locked, answer,
}
use ntu_systems_programming.Board.Refinement.Posts.{Call, Fits}
use ntu_systems_programming.Board.Refinement.{seen}
use ntu_systems_programming.Board.Visit.{Site, Prompt}

-- The board after requests, some of which end a round of the server.
unfoldable pub after_requests : List Event → Board → Board
unfolding answer
after_requests [] b = b
after_requests ((is_locked, r, ends_round) ∷ es) b =
    after_requests es (settle ends_round (answer is_locked r b).0)

-- A round, as the user sees it: the board after it, what is shown, and whether there is another one.
unfoldable pub board_round : Prompt → Board → Board × List Output × Bool
unfolding after_requests listing all_locked answer
board_round p b =
    let b1 = after_requests (map seen p.before) b in
    let silent = after_requests (map seen p.between) b1 in
    let b2 = after_requests (map seen p.between) (settle p.first.ends_round b1) in
    let seen_posts = transcript (listing record_num 0 p.first.is_locked b1) in
    let published =
      settle p.second.ends_round (answer p.second.is_locked (publish p.from p.content) b2).0 in
    if str_eq p.ipt (pull_text ++ newline ∷ [])
    then (b2, rule ∷ posts seen_posts ∷ rule ∷ [], true)
    else if str_eq p.ipt (post_text ++ newline ∷ [])
    then (if all_locked record_num p.first.is_locked
        then (b2, limit_error ∷ [], true)
        else (published, labels from_label ∷ labels content_label ∷ [], true))
    else (if str_eq p.ipt (exit_text ++ newline ∷ []) then (b2, [], false) else (silent, [], true))

unfoldable pub screen : List Prompt → Board → List Output
unfolding board_round
screen [] b = []
screen (p ∷ ps) b =
    let (b', shown, more) = board_round p b in
    let rest = screen ps b' in shown ++ (if more then rest else [])

-- The same from the start: the posts, a rule, and the rounds.
unfoldable pub full_screen : Site → List Call → List Prompt → Board → List Output
unfolding after_requests listing screen
full_screen m before ps b =
    let b1 = after_requests (map seen before) b in
    posts (transcript (listing record_num 0 m.is_locked b1))
    ∷ rule
    ∷ screen ps (settle m.ends_round b1)

-- No star in a post.
abbrev pub PlainPost : Option Post → Type 0
PlainPost none = Unit {0}
PlainPost (some p) = IsPlain p.0 × IsPlain p.1

abbrev pub IsPlainBoard : Board → Type 0
IsPlainBoard b = (p : ℕ) → p < record_num → PlainPost (b.posts p) × PlainPost (b.shown p)

-- Lines that fit into a record and have no star.
abbrev pub IsTame : Request → Type 0
IsTame (publish from content) = Fits (publish from content) × IsPlain from × IsPlain content
IsTame _ = Unit {0}

abbrev pub AllTame : List Call → Type 0
AllTame [] = Unit {0}
AllTame (c ∷ cs) = IsTame c.request × AllTame cs

abbrev pub TamePrompts : List Prompt → Type 0
TamePrompts [] = Unit {0}
TamePrompts (p ∷ ps) =
    IsTame (publish p.from p.content) × AllTame p.before × AllTame p.between × TamePrompts ps
