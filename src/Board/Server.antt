-- ===== src/Board/Server.antt =====
-- The request handlers of HW1/server.c on the state that they share.
use ntu_systems_programming.Prelude.{
  ℕ, zero, suc, ◌+◌, ◌-◌, ◌*◌, ◌%◌, ◌^◌, Bool, true, false, not, ◌&&◌, ◌||◌, Option, none, some, [],
  ◌∷◌, ◌++◌, ltb, leb, ◌==◌, if◌then◌else◌, update, drop,
}
use ntu_systems_programming.Prelude.Text.{Bytes, Memory, newline, star, string_at, str_eq}

abbrev pub record_num : ℕ
record_num = 10

-- `sizeof(record)`: `From` at 0 and `Content` at 5.
abbrev pub record_size : ℕ
record_size = 25

abbrev pub content_offset : ℕ
content_offset = 5

-- `last_next` is `last + 1`, the form in which the code reads `last`, an `int` that starts at -1: `search`
-- finds no slot where it would pass 2 ^ 31. `db` is the file, zero past its size, and `offset` the
-- position of the descriptor.
pub record Server : Type 0 where
  pub all : Memory
  pub last_next : ℕ
  pub locked : ℕ → Bool
  pub db : Memory
  pub db_size : ℕ
  pub offset : ℕ

-- `read(DB, all, sizeof(record) * RECORD_NUM)` at the head of the loop of `main`.
unfoldable pub read_all : Server → Server
read_all s =
    let left = s.db_size - s.offset in
    let got = if ltb left (record_size * record_num) then left else record_size * record_num in
    record s {
      all = λ k. if ltb k got then s.db (s.offset + k) else s.all k;
      offset = s.offset + got;
    }

-- What the handlers test of slot `i`, by another process's lock (`is_locked`, which asks the system)
-- and by `locked[i]`.
abbrev pub is_busy : (ℕ → Bool) → Server → ℕ → Bool
is_busy is_locked s i = is_locked i || s.locked i

-- `for (i = 0; i < n; i++)` of `num_of_locked`.
unfoldable pub num_of_locked : ℕ → (ℕ → Bool) → Server → ℕ
num_of_locked zero is_locked s = 0
num_of_locked (suc n) is_locked s =
    num_of_locked n is_locked s + (if is_busy is_locked s n then 1 else 0)

abbrev pub yes_reply : Bytes
yes_reply = b'y' ∷ b'e' ∷ b's' ∷ []

abbrev pub no_reply : Bytes
no_reply = b'n' ∷ b'o' ∷ []

-- The handler of "check".
unfoldable pub check : (ℕ → Bool) → Server → Bytes
unfolding num_of_locked
check is_locked s =
    if num_of_locked record_num is_locked s == record_num then yes_reply else no_reply

-- `all[i].From` and `all[i].Content`; no read goes past the array.
abbrev pub from_of : Server → ℕ → Bytes
from_of s i = string_at (250 - record_size * i) s.all (record_size * i)

abbrev pub content_of : Server → ℕ → Bytes
content_of s i =
    string_at (250 - (record_size * i + content_offset)) s.all (record_size * i + content_offset)

abbrev pub is_shown : (ℕ → Bool) → Server → ℕ → Bool
is_shown is_locked s i =
    not (is_locked i)
    && not (s.all (record_size * i) == 0)
    && not (s.all (record_size * i + content_offset) == 0)
    && not (s.locked i)

-- `for (i …; i < RECORD_NUM; i++)` of the handler of "pull", by the rounds left.
unfoldable pub pull_from : ℕ → ℕ → (ℕ → Bool) → Server → Bytes
unfolding string_at
pull_from zero i is_locked s = []
pull_from (suc n) i is_locked s =
    (if is_shown is_locked s i then from_of s i ++ star ∷ (content_of s i ++ star ∷ []) else [])
    ++ pull_from n (i + 1) is_locked s

-- The reply to "pull": it begins with an apostrophe.
unfoldable pub pull : (ℕ → Bool) → Server → Bytes
unfolding pull_from
pull is_locked s = 39 ∷ pull_from record_num 0 is_locked s

-- The first slot, from `i % RECORD_NUM` on, that is not busy: the `i` of the loop.
unfoldable pub find_slot : ℕ → ℕ → (ℕ → Bool) → Server → Option ℕ
find_slot zero i is_locked s = none
find_slot (suc n) i is_locked s =
    let rest = find_slot n (i + 1) is_locked s in
    if not (is_locked (i % record_num)) && not (s.locked (i % record_num)) then some i else rest

-- A search of the handler of a post. Its limit is the `int` `last + RECORD_NUM + 1`: where that
-- overflows, it is taken to wrap to a negative number, and the loop ends at once.
unfoldable pub search : (ℕ → Bool) → Server → Option ℕ
unfolding find_slot
search is_locked s =
    let found = find_slot record_num s.last_next is_locked s in
    if ltb (s.last_next + record_num) (2 ^ 31) then found else none

-- The two searches of the handler of a post: `pos`, and the server with the slot locked.
unfoldable pub claim : (ℕ → Bool) → Server → ℕ × Server
unfolding search
claim is_locked s = elim (search is_locked s) [
  | some i ↦ (
    i % record_num,
    record s { locked = update s.locked (i % record_num) true; last_next = i + 1 },
  )
  | none ↦ elim (search is_locked s) [
    | some i ↦ (
      i % record_num,
      record s { locked = update s.locked (i % record_num) true; last_next = i + 1 },
    )
    | none ↦ (0, s)
  ]
]

-- A copying loop of the handler: the bytes up to a newline go to memory from `dst` on, and a NUL for
-- the newline; the rest of the text follows, if there was a newline.
unfoldable pub copy_line : Bytes → ℕ → Memory → Memory × Option Bytes
copy_line [] dst m = (m, none)
copy_line (c ∷ cs) dst m =
    if c == newline then (update m dst 0, some cs) else copy_line cs (dst + 1) (update m dst c)

-- The two loops that fill `tmp`; `tmp` and `j` are not initialised. With no newline in the text the
-- second loop starts behind that `j`.
unfoldable pub fill : Bytes → Memory → ℕ → Memory
unfolding copy_line
fill buf tmp j =
    let (m, rest) = copy_line buf 0 tmp in
    elim rest [
      | some cs ↦ (copy_line cs content_offset m).0
      | none ↦ (copy_line (drop (j + 1) buf) content_offset m).0
    ]

-- `lseek(DB, pos * sizeof(record), SEEK_SET)`, `write(DB, &tmp, sizeof(record))` and `lseek(DB, 0, …)`.
unfoldable pub write_record : ℕ → Memory → Server → Server
write_record pos tmp s = record s {
  db = λ k.
      if leb (pos * record_size) k && ltb k (pos * record_size + record_size)
      then tmp (k - pos * record_size)
      else s.db k;
  db_size =
      if ltb s.db_size (pos * record_size + record_size)
      then pos * record_size + record_size
      else s.db_size;
  offset = 0;
}

-- The handler of a post.
unfoldable pub post : (ℕ → Bool) → Bytes → Memory → ℕ → Server → Server
unfolding claim fill write_record
post is_locked buf tmp j s =
    let (pos, s') = claim is_locked s in
    let s'' = write_record pos (fill buf tmp j) s' in
    record s'' { locked = update s''.locked pos false }

-- What a request asks for.
pub data Message : Type 0 where
  pull_message check_message exit_message post_message : Message

-- The chain of `strcmp`.
unfoldable pub message_of : Bytes → Message
message_of buf =
    if str_eq buf (b'p' ∷ b'u' ∷ b'l' ∷ b'l' ∷ [])
    then pull_message
    else if str_eq buf (b'c' ∷ b'h' ∷ b'e' ∷ b'c' ∷ b'k' ∷ [])
    then check_message
    else if str_eq buf (b'e' ∷ b'x' ∷ b'i' ∷ b't' ∷ [])
    then exit_message
    else post_message

-- One request: the new state, and what is written to the client.
abbrev pub respond : Message → (ℕ → Bool) → Bytes → Memory → ℕ → Server → Server × Option Bytes
respond pull_message is_locked buf tmp j s = (s, some (pull is_locked s))
respond check_message is_locked buf tmp j s = (s, some (check is_locked s))
respond exit_message is_locked buf tmp j s = (s, none)
respond post_message is_locked buf tmp j s = (post is_locked buf tmp j s, none)

unfoldable pub handle : (ℕ → Bool) → Bytes → Memory → ℕ → Server → Server × Option Bytes
unfolding message_of
handle is_locked buf tmp j s = respond (message_of buf) is_locked buf tmp j s
