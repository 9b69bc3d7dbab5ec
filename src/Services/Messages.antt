-- ===== src/Services/Messages.antt =====
-- The words that the manager puts into a message, and that a service takes out of it.
use ntu_systems_programming.Prelude.{
  ℕ, ◌+◌, ◌<◌, ◌≡◌, refl, ◌∙◌, Bool, true, not, [], ◌∷◌, ◌++◌, ◌&&◌, ◌==◌, arith,
}
use ntu_systems_programming.Prelude.Text.{Bytes}
use ntu_systems_programming.Services.Types.{
  spawn_message, exchange_message, kill_message, find_message, word_from, want, another,
}

-- A word that `scanf("%s", …)` reads has no space.
abbrev pub no_space : Bytes → Bool
no_space [] = true
no_space (c ∷ cs) = not (c == b' ') && no_space cs

word_from-past : (k n : ℕ) (cs : Bytes) → k < n → word_from k n cs ≡ []
unfolding word_from
word_from-past k n [] h = refl
word_from-past k n (c ∷ cs) h =
    ground (arith, word_from-past k n cs h, word_from-past k (n + 1) cs (omega arith))

-- The word is the last one.
word_from-last : (k : ℕ) (w : Bytes) → no_space w ≡ true → word_from k k w ≡ w
unfolding word_from
word_from-last k [] h = refl
word_from-last k (c ∷ w) h = ground (arith, word_from-last k w)

-- A space follows the word.
word_from-here : (k : ℕ) (w cs : Bytes) → no_space w ≡ true → word_from k k (w ++ b' ' ∷ cs) ≡ w
unfolding word_from
word_from-here k [] cs h = ground (arith, word_from-past k (k + 1) cs (omega arith))
word_from-here k (c ∷ w) cs h = ground (arith, word_from-here k w cs)

-- Another word stands in front.
word_from-skip :
    (k n : ℕ) (w cs : Bytes)
    → n < k
    → no_space w ≡ true
    → word_from k n (w ++ b' ' ∷ cs) ≡ word_from k (n + 1) cs
unfolding word_from
word_from-skip k n [] cs p h = ground arith
word_from-skip k n (c ∷ w) cs p h = ground (arith, word_from-skip k n w cs p)

-- For names without spaces, the words that a service takes out of "spawn", "exchange", "kill" and
-- "find" messages are the names in them.
pub message_words :
    (p c : Bytes)
    → no_space p ≡ true
    → no_space c ≡ true
    → (want (spawn_message p c) ≡ p)
      × (another (spawn_message p c) ≡ c)
      × (another (exchange_message p c) ≡ c)
      × (want (kill_message p) ≡ p)
      × (want (find_message p) ≡ p)
unfolding word_from
message_words p c h g = (
  word_from-here 1 p c h,
  word_from-skip 2 1 p c (omega arith) h ∙ word_from-last 2 c g,
  word_from-skip 2 1 p c (omega arith) h ∙ word_from-last 2 c g,
  word_from-last 1 p h,
  word_from-last 1 p h,
)
