-- ===== src/Board/Tests.antt =====
-- The board of HW1 at concrete inputs.
use ntu_systems_programming.Prelude.{
  ℕ, ◌^◌, ◌-◌, some, none, ◌+◌, ◌*◌, ◌<◌, ◌≤◌, ◌≡◌, ◌⊎◌, refl, Bool, false, [], ◌∷◌, some, ◌==◌,
  arith,
}
use ntu_systems_programming.Prelude.Text.{Bytes, Memory, string_at}
use ntu_systems_programming.Board.Server.{
  Server, record_num, record_size, from_of, content_of, claim, find_slot, read_all, handle, pull,
  post,
}
use ntu_systems_programming.Board.Client.{port_of, post_request, show, count_stars}
use ntu_systems_programming.Board.Display.{transcript, shown, show-pull}
use ntu_systems_programming.Board.Storage.{post-read_all}

-- An empty file, with slot 3 locked by another process.
abbrev other_process : ℕ → Bool
other_process i = i == 3

abbrev empty : Server
empty = record {
  all = λ _. 0;
  last_next = 3;
  locked = λ _. false;
  db = λ _. 0;
  db_size = 0;
  offset = 0;
}

-- Memory that has not been initialised.
abbrev garbage : Memory
garbage k = 255

abbrev author : Bytes
author = b'a' ∷ b'b' ∷ b'c' ∷ b'd' ∷ []

abbrev line : Bytes
line = b'Z' ∷ b'.' ∷ []

-- The server after one post; the read at the head of the loop has fetched it.
abbrev posted : Server
posted = read_all (handle other_process (post_request author line) garbage 0 empty).0

claims_next_slot : (claim other_process empty).0 ≡ 4
unfolding claim find_slot
claims_next_slot = refl

post-read_all_example :
    (from_of posted (claim other_process empty).0 ≡ author)
    × (content_of posted (claim other_process empty).0 ≡ line)
    × ((k : ℕ)
        → (k < record_size * (claim other_process empty).0)
          ⊎ (record_size * (claim other_process empty).0 + record_size ≤ k)
        → posted.db k ≡ 0)
post-read_all_example =
    post-read_all other_process author line garbage 0 empty (omega arith) (omega arith)
      (omega arith) (omega arith)

show-pull_example :
    show (pull other_process posted) ≡ transcript (shown record_num 0 other_process posted)
unfolding handle post read_all post_request string_at count_stars
show-pull_example = show-pull other_process posted (refl, refl, tt)

shown-posted : shown record_num 0 other_process posted ≡ (author, line) ∷ []
unfolding handle post read_all post_request string_at
shown-posted = refl

-- `init_client` takes port 65536, which is port 0, and negative ports.
port_wraps :
    (port_of 8080 ≡ some 8080)
    × (port_of 65536 ≡ some 0)
    × (port_of (2 ^ 32 - 1) ≡ some 65535)
    × (port_of 65537 ≡ none)
port_wraps = (refl, refl, refl, refl)
