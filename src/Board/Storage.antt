-- ===== src/Board/Storage.antt =====
-- A post of HW1, from the client's request to the slot that it can be read from.
use ntu_systems_programming.Prelude.{
  ℕ, zero, suc, ◌+◌, ◌-◌, ◌*◌, ◌<◌, ◌≤◌, ◌≡◌, ◌≢◌, ◌⊎◌, inl, inr, refl, Bool, false, none, some, [],
  ◌∷◌, ◌++◌, arith, update, length, ap, ◌∙◌,
}
use ntu_systems_programming.Prelude.Text.{Bytes, Memory, newline, string_at, str_eq}
use ntu_systems_programming.Board.Server.{
  Server, record_num, record_size, content_offset, from_of, content_of, claim, copy_line, fill,
  write_record, post, read_all, message_of, post_message, handle,
}
use ntu_systems_programming.Board.Client.{post_request}
use ntu_systems_programming.Board.Slots.{claim_lem}

-- A string lies at an offset: its bytes, none of them NUL, and a NUL.
abbrev pub Holds : Memory → ℕ → Bytes → Type 0
Holds m a [] = m a ≡ 0
Holds m a (c ∷ cs) = (m a ≡ c) × (c ≢ 0) × Holds m (a + 1) cs

string_at-Holds :
    (fuel : ℕ) (m : Memory) (a : ℕ) (xs : Bytes)
    → length xs < fuel
    → Holds m a xs
    → string_at fuel m a ≡ xs
unfolding string_at
string_at-Holds zero m a xs p h = absurd (omega arith)
string_at-Holds (suc fuel) m a [] p h = ground arith
string_at-Holds (suc fuel) m a (c ∷ cs) p (e, n, h) =
    ground (arith, string_at-Holds fuel m (a + 1) cs)

-- A string is where its bytes have been copied to.
pub Holds-copy :
    (m m' : Memory) (a b : ℕ) (xs : Bytes)
    → ((k : ℕ) → k ≤ length xs → m' (b + k) ≡ m (a + k))
    → Holds m a xs
    → Holds m' b xs
Holds-copy m m' a b [] same h = ground (arith, same 0)
Holds-copy m m' a b (c ∷ cs) same (e, n, h) = (
  ground (arith, same 0),
  n,
  Holds-copy m m' (a + 1) (b + 1) cs (λ k p. ground (arith, same (suc k))) h,
)

-- A line of text: no newline and no NUL in it.
abbrev pub IsLine : Bytes → Type 0
IsLine [] = Unit
IsLine (c ∷ cs) = (c ≢ newline) × (c ≢ 0) × IsLine cs

-- Memory after a line and its NUL have been stored at `dst`.
abbrev put : Bytes → ℕ → Memory → Memory
put [] dst m = update m dst 0
put (c ∷ cs) dst m = put cs (dst + 1) (update m dst c)

copy_line-put :
    (xs rest : Bytes) (dst : ℕ) (m : Memory)
    → IsLine xs
    → copy_line (xs ++ newline ∷ rest) dst m ≡ (put xs dst m, some rest)
unfolding copy_line
copy_line-put [] rest dst m h = refl
copy_line-put (c ∷ cs) rest dst m (n, z, h) =
    ground (arith, copy_line-put cs rest (dst + 1) (update m dst c))

put-before : (xs : Bytes) (dst : ℕ) (m : Memory) (k : ℕ) → k < dst → put xs dst m k ≡ m k
put-before [] dst m k p = ground arith
put-before (c ∷ cs) dst m k p = ground (arith, put-before cs (dst + 1) (update m dst c) k)

put-Holds : (xs : Bytes) (dst : ℕ) (m : Memory) → IsLine xs → Holds (put xs dst m) dst xs
put-Holds [] dst m h = ground arith
put-Holds (c ∷ cs) dst m (n, z, h) = (
  ground (arith, put-before cs (dst + 1) (update m dst c) dst),
  z,
  put-Holds cs (dst + 1) (update m dst c) h,
)

fill-put :
    (from content : Bytes) (tmp : Memory) (j : ℕ)
    → IsLine from
    → IsLine content
    → fill (post_request from content) tmp j ≡ put content content_offset (put from 0 tmp)
unfolding fill post_request
fill-put from content tmp j hf hc = ground (
  arith,
  copy_line-put from (content ++ newline ∷ []) 0 tmp hf,
  copy_line-put content [] content_offset (put from 0 tmp) hc,
)

-- The handler's `tmp` holds the two lines of the request, if the first fits into its field.
pub fill-Holds :
    (from content : Bytes) (tmp : Memory) (j : ℕ)
    → IsLine from
    → IsLine content
    → length from < 5
    → Holds (fill (post_request from content) tmp j) 0 from
      × Holds (fill (post_request from content) tmp j) content_offset content
fill-Holds from content tmp j hf hc p = rw (fill-put from content tmp j hf hc) (
  Holds-copy (put from 0 tmp) (put content 5 (put from 0 tmp)) 0 0 from
      (λ k q. put-before content 5 (put from 0 tmp) (0 + k) (omega arith))
      (put-Holds from 0 tmp hf),
  put-Holds content 5 (put from 0 tmp) hc,
)

-- What the next round of `main` reads of the slot `pos`.
read_written :
    (pos : ℕ) (m : Memory) (s : Server) (locked : ℕ → Bool) (k : ℕ)
    → pos < record_num
    → k < record_size
    → (read_all (record (write_record pos m s) { locked = locked })).all (record_size * pos + k)
      ≡ m k
unfolding read_all write_record
read_written pos m s locked k p q = ground arith

read_others :
    (pos : ℕ) (m : Memory) (s : Server) (locked : ℕ → Bool) (k : ℕ)
    → (k < record_size * pos) ⊎ (record_size * pos + record_size ≤ k)
    → (read_all (record (write_record pos m s) { locked = locked })).db k ≡ s.db k
unfolding read_all write_record
read_others pos m s locked k w = ground arith

-- `strcmp` tells a text with a newline from a command, which has none.
str_eq-newline : (xs ys kw : Bytes) → IsLine kw → str_eq (xs ++ newline ∷ ys) kw ≡ false
str_eq-newline [] ys [] h = refl
str_eq-newline [] ys (k ∷ kw) (n, z, h) = ground arith
str_eq-newline (x ∷ xs) ys [] h = refl
str_eq-newline (x ∷ xs) ys (k ∷ kw) (n, z, h) = ground (arith, str_eq-newline xs ys kw h)

pub message_of-post_request :
    (from content : Bytes) → message_of (post_request from content) ≡ post_message
unfolding message_of post_request
message_of-post_request from content = rw (
  str_eq-newline from (content ++ newline ∷ []) (b'p' ∷ b'u' ∷ b'l' ∷ b'l' ∷ []) (omega arith),
  str_eq-newline from (content ++ newline ∷ []) (b'c' ∷ b'h' ∷ b'e' ∷ b'c' ∷ b'k' ∷ [])
      (omega arith),
  str_eq-newline from (content ++ newline ∷ []) (b'e' ∷ b'x' ∷ b'i' ∷ b't' ∷ []) (omega arith),
)

pub claim-pos : (is_locked : ℕ → Bool) (s : Server) → (claim is_locked s).0 < record_num
claim-pos l s = elim (claim_lem l s) [
  | inl (k, p, q, e, f, h, r) ↦ omega arith
  | inr (b, e, r) ↦ omega arith
]

pub handle-post_request :
    (is_locked : ℕ → Bool) (from content : Bytes) (tmp : Memory) (j : ℕ) (s : Server)
    → handle is_locked (post_request from content) tmp j s
      ≡ (post is_locked (post_request from content) tmp j s, none)
unfolding handle
handle-post_request l from content tmp j s = rw message_of-post_request

-- The bytes of a free slot do not change the others; a post changes no slot but its own.
db-claim : (is_locked : ℕ → Bool) (s : Server) (k : ℕ) → (claim is_locked s).1.db k ≡ s.db k
db-claim l s k = elim (claim_lem l s) [
  | inl (i, p, q, e, f, h, r) ↦ ap (λ (t : Server). t.db k) r
  | inr (b, e, r) ↦ ap (λ (t : Server). t.db k) r
]

module _ (is_locked : ℕ → Bool) (from content : Bytes) (tmp : Memory) (j : ℕ) (s : Server)
    (from_line : IsLine from) (content_line : IsLine content) (from_fits : length from < 5)
    (content_fits : length content < 20) where
  -- The server after the request, and after the read at the head of its next round.
  abbrev served : Server
  served = read_all (handle is_locked (post_request from content) tmp j s).0

  abbrev slot : ℕ
  slot = (claim is_locked s).0

  served-all :
      (k : ℕ)
      → k < record_size
      → served.all (record_size * slot + k) ≡ fill (post_request from content) tmp j k
  unfolding post
  served-all k p = rw handle-post_request (
      read_written slot (fill (post_request from content) tmp j) (claim is_locked s).1 _ k
        (claim-pos is_locked s) p)

  -- The server takes the request for a post. A post whose lines fit into a record can be read back
  -- from the slot that it was given, whatever that slot and the uninitialised variables held before,
  -- and the bytes of the other slots in the file are as they were.
  pub post-read_all :
      (from_of served slot ≡ from)
      × (content_of served slot ≡ content)
      × ((k : ℕ)
          → (k < record_size * slot) ⊎ (record_size * slot + record_size ≤ k)
          → served.db k ≡ s.db k)
  unfolding post
  post-read_all =
      let (f, c) = fill-Holds from content tmp j from_line content_line from_fits in
      let within = claim-pos is_locked s in
      (
        string_at-Holds (250 - record_size * slot) served.all (record_size * slot) from
            (omega arith)
            (Holds-copy (fill (post_request from content) tmp j) served.all 0 (record_size * slot)
              from (λ k p. ground (arith, served-all (0 + k))) f),
        string_at-Holds (250 - (record_size * slot + content_offset)) served.all
            (record_size * slot + content_offset) content (omega arith)
            (Holds-copy (fill (post_request from content) tmp j) served.all content_offset
              (record_size * slot + content_offset) content
              (λ k p. ground (arith, served-all (content_offset + k))) c),
        λ k w. rw handle-post_request (
            read_others slot (fill (post_request from content) tmp j) (claim is_locked s).1 _ k w
            ∙ db-claim is_locked s k),
      )
