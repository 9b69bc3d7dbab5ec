-- ===== src/Services/Types.antt =====
-- The services of HW2/service.c, and the messages that they send.
use ntu_systems_programming.Prelude.{ℕ, ◌+◌, Bool, not, [], ◌∷◌, ◌++◌, ◌&&◌, ◌==◌, if◌then◌else◌}
use ntu_systems_programming.Prelude.Text.{Bytes}

-- What a service keeps of a child, and whether the child's process has exited. `name` stands for the
-- array of MAX_SERVICE_NAME_LEN bytes as far as the name fits with its NUL. `child_num` is the field of
-- `Node`: `create_service` does not set it, so it is what `malloc` left there.
pub record Service : Type 0 where
  pub name : Bytes
  pub have_killed : Bool
  pub child_num : ℕ
  pub exited : Bool

-- The list behind `root->next` of a service: a child, the list of that child, and the other children.
pub data Children : Type 0 where
  no_child : Children
  child : Service → Children → Children → Children

-- The process "Manager": `root->child_num` and `root->next`. The other services count their children
-- too, and never read the count.
pub record Manager : Type 0 where
  pub child_num : ℕ
  pub children : Children

-- A line of output.
pub data Line : Type 0 where
  received : Bytes → Bytes → Line
  not_exist : Bytes → Line
  killed : Bytes → ℕ → Line
  exchanged : Bytes → Bytes → Line

-- `sprintf(message, "spawn %s %s", …)` and the others.
abbrev pub spawn_message : Bytes → Bytes → Bytes
spawn_message parent_name child_name =
    b's' ∷ b'p' ∷ b'a' ∷ b'w' ∷ b'n' ∷ b' ' ∷ (parent_name ++ b' ' ∷ child_name)

abbrev pub exchange_message : Bytes → Bytes → Bytes
exchange_message parent_name child_name =
    b'e'
    ∷ b'x'
    ∷ b'c'
    ∷ b'h'
    ∷ b'a'
    ∷ b'n'
    ∷ b'g'
    ∷ b'e'
    ∷ b' '
    ∷ (parent_name ++ b' ' ∷ child_name)

abbrev pub kill_message : Bytes → Bytes
kill_message target = b'k' ∷ b'i' ∷ b'l' ∷ b'l' ∷ b' ' ∷ target

abbrev pub find_message : Bytes → Bytes
find_message target = b'f' ∷ b'i' ∷ b'n' ∷ b'd' ∷ b' ' ∷ target

abbrev pub manager_name : Bytes
manager_name = b'M' ∷ b'a' ∷ b'n' ∷ b'a' ∷ b'g' ∷ b'e' ∷ b'r' ∷ []

-- The loops that take a word out of `buf`: the bytes behind `k` spaces and before the next one.
unfoldable pub word_from : ℕ → ℕ → Bytes → Bytes
word_from k cnt_space [] = []
word_from k cnt_space (c ∷ cs) =
    let more = word_from k (if c == b' ' then cnt_space + 1 else cnt_space) cs in
    if cnt_space == k && not (c == b' ') then c ∷ more else more

abbrev pub want : Bytes → Bytes
want buf = word_from 1 0 buf

abbrev pub another : Bytes → Bytes
another buf = word_from 2 0 buf
