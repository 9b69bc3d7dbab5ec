-- ===== src/Board/Spec.antt =====
-- What the board of HW1 promises: ten slots, each with a post or none, and a place where the next
-- search for a slot begins. A reader sees the posts as they were when the round of the server began. It
-- knows nothing of bytes, of the file or of the locks of a request.
use ntu_systems_programming.Prelude.{
  ℕ, zero, suc, ◌+◌, ◌%◌, ◌^◌, ltb, Bool, true, false, Option, none, some, List, [], ◌∷◌,
  if◌then◌else◌, update,
}
use ntu_systems_programming.Prelude.Text.{Bytes}
use ntu_systems_programming.Board.Server.{record_num, yes_reply, no_reply}
use ntu_systems_programming.Board.Display.{Post, wire, visible, listed}

pub record Board : Type 0 where
  pub posts : ℕ → Option Post
  pub shown : ℕ → Option Post
  pub cursor : ℕ

-- A request, and what its client is to get. Other processes' locks, `is_locked`, may differ from one
-- request to the next.
pub data Request : Type 0 where
  pull check : Request
  publish : Bytes → Bytes → Request

-- The first of `n` slots from `i` on that no other process has locked.
unfoldable pub first_free : ℕ → ℕ → (ℕ → Bool) → Option ℕ
first_free zero i is_locked = none
first_free (suc n) i is_locked =
    let rest = first_free n (i + 1) is_locked in if is_locked (i % record_num) then rest else some i

-- Where a post goes. A cursor that is no `int` any more, with ten slots ahead, finds none.
unfoldable pub free_slot : ℕ → (ℕ → Bool) → Option ℕ
unfolding first_free
free_slot cursor is_locked =
    let found = first_free record_num cursor is_locked in
    if ltb (cursor + record_num) (2 ^ 31) then found else none

-- The posts in the `n` slots from `i` on that nobody has locked.
unfoldable pub listing : ℕ → ℕ → (ℕ → Bool) → Board → List Post
listing zero i is_locked b = []
listing (suc n) i is_locked b =
    let rest = listing n (i + 1) is_locked b in
    if is_locked i then rest else listed (b.shown i) rest

unfoldable pub all_locked : ℕ → (ℕ → Bool) → Bool
all_locked zero is_locked = true
all_locked (suc n) is_locked =
    let rest = all_locked n is_locked in if is_locked n then rest else false

-- The board after a request, and the reply.
unfoldable pub answer : (ℕ → Bool) → Request → Board → Board × Option Bytes
unfolding free_slot listing all_locked
answer is_locked pull b = (b, some (39 ∷ wire (listing record_num 0 is_locked b)))
answer is_locked check b =
    (b, some (if all_locked record_num is_locked then yes_reply else no_reply))
answer is_locked (publish from content) b = elim (free_slot b.cursor is_locked) [
  | some i ↦ (
    record b { posts = update b.posts (i % record_num) (visible from content); cursor = i + 1 },
    none,
  )
  | none ↦ (record b { posts = update b.posts 0 (visible from content) }, none)
]

-- What the board gets: the locks, the request, and whether a round of the server ends behind it.
abbrev pub Event : Type 0
Event = (ℕ → Bool) × Request × Bool

-- With the next round the readers see the posts that there are.
abbrev pub settle : Bool → Board → Board
settle true b = record b { shown = b.posts }
settle false b = b

-- A sequence of requests, each with the locks of its time.
unfoldable pub answers : List Event → Board → List (Option Bytes)
unfolding answer
answers [] b = []
answers ((is_locked, r, ends_round) ∷ es) b =
    let (b', reply) = answer is_locked r b in reply ∷ answers es (settle ends_round b')
