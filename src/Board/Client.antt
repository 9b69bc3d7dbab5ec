-- ===== src/Board/Client.antt =====
-- HW1/client.c: what the client sends, how it prints the reply to "pull", and its port.
use ntu_systems_programming.Prelude.{
  ℕ, ◌+◌, ◌-◌, ◌%◌, ◌^◌, Option, none, some, ◌&&◌, ◌||◌, [], ◌∷◌, ◌++◌, ltb, ◌==◌, if◌then◌else◌,
  drop,
}
use ntu_systems_programming.Prelude.Text.{Bytes, newline, star}

-- `printf("FROM: ")`
abbrev pub from_label : Bytes
from_label = b'F' ∷ b'R' ∷ b'O' ∷ b'M' ∷ b':' ∷ b' ' ∷ []

-- `printf("CONTENT:\n")`
abbrev pub content_label : Bytes
content_label = b'C' ∷ b'O' ∷ b'N' ∷ b'T' ∷ b'E' ∷ b'N' ∷ b'T' ∷ b':' ∷ newline ∷ []

-- `cnt`: the stars of the reply, from index 1 on.
unfoldable pub count_stars : Bytes → ℕ
count_stars [] = 0
count_stars (c ∷ cs) = (if c == star then 1 else 0) + count_stars cs

-- The printing loop, from some index on, with the values of `cnt` and `dir`.
unfoldable pub print_from : Bytes → ℕ → ℕ → Bytes
print_from [] cnt dir = []
print_from (c ∷ cs) cnt dir =
    let plain = c ∷ print_from cs cnt dir in
    let to_content = newline ∷ (content_label ++ print_from cs (cnt - 1) (dir + 1)) in
    let to_from = newline ∷ (from_label ++ print_from cs (cnt - 1) (dir + 1)) in
    let silent = print_from cs cnt dir in
    if ltb 0 cnt
    then (if c == star
        then (if dir % 2 == 0
            then to_content
            else if dir % 2 == 1 && ltb 1 cnt
            then to_from
            else silent)
        else plain)
    else []

-- What the client prints between its two rules for a reply to "pull".
unfoldable pub show : Bytes → Bytes
unfolding count_stars print_from
show buf =
    let cs = drop 1 buf in
    let cnt = count_stars cs in
    if ltb 0 cnt then from_label ++ (print_from cs cnt 0 ++ newline ∷ []) else []

-- The request that posts two lines; `fgets` leaves the newlines in them.
unfoldable pub post_request : Bytes → Bytes → Bytes
post_request from content = from ++ newline ∷ (content ++ newline ∷ [])

-- The port of `init_client`: `value` is what `atoi` returns, as a 32-bit pattern.
abbrev pub port_of : ℕ → Option ℕ
port_of value =
    if value == 0 || (ltb 65536 value && ltb value (2 ^ 31)) then none else some (value % 2 ^ 16)
