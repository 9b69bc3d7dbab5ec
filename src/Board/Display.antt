-- ===== src/Board/Display.antt =====
-- The reply to "pull" of HW1/server.c, and its printing by HW1/client.c.
use ntu_systems_programming.Prelude.{
  ℕ, zero, suc, ◌+◌, ◌-◌, ◌*◌, ◌%◌, ◌<◌, ◌≡◌, refl, Bool, true, List, [], ◌∷◌, ◌++◌, append_assoc,
  append-nil, ltb, ap, ◌∙◌, ◌≤◌, ◌||◌, ◌==◌, Option, none, some, if◌then◌else◌, length, arith,
  Bool-cases, inl, inr,
}
use ntu_systems_programming.Prelude.Text.{Bytes, Memory, newline, star, string_at}
use ntu_systems_programming.Board.Server.{
  Server, record_num, record_size, content_offset, from_of, content_of, is_shown, pull_from, pull,
}
use ntu_systems_programming.Board.Client.{from_label, content_label, count_stars, print_from, show}

-- A post, as its two lines.
abbrev pub Post : Type 0
Post = Bytes × Bytes

-- The posts as the server sends them, after the apostrophe.
abbrev pub wire : List Post → Bytes
wire [] = []
wire ((from, content) ∷ posts) = from ++ star ∷ (content ++ star ∷ wire posts)

-- The posts as a reader is to see them.
abbrev pub transcript : List Post → Bytes
transcript [] = []
transcript ((from, content) ∷ posts) =
    from_label ++ (from ++ newline ∷ (content_label ++ (content ++ newline ∷ transcript posts)))

abbrev pub IsPlain : Bytes → Type 0
IsPlain bs = count_stars bs ≡ 0

abbrev pub ArePlain : List Post → Type 0
ArePlain [] = Unit
ArePlain ((from, content) ∷ posts) = IsPlain from × IsPlain content × ArePlain posts

count_stars-append : (xs ys : Bytes) → count_stars (xs ++ ys) ≡ count_stars xs + count_stars ys
unfolding count_stars
count_stars-append [] ys = omega arith
count_stars-append (x ∷ xs) ys = omega (arith, count_stars-append xs ys)

count_stars-wire : (ps : List Post) → ArePlain ps → count_stars (wire ps) ≡ 2 * length ps
unfolding count_stars
count_stars-wire [] h = refl
count_stars-wire ((f, c) ∷ ps) (hf, hc, h) = omega (
  arith,
  count_stars-append f (star ∷ (c ++ star ∷ wire ps)),
  count_stars-append c (star ∷ wire ps),
  count_stars-wire ps h,
)

-- Text without a star is printed as it is.
print_from-plain :
    (xs ys : Bytes) (cnt dir : ℕ)
    → IsPlain xs
    → 0 < cnt
    → print_from (xs ++ ys) cnt dir ≡ xs ++ print_from ys cnt dir
unfolding print_from count_stars
print_from-plain [] ys cnt dir h p = refl
print_from-plain (x ∷ xs) ys cnt dir h p = ground (arith, print_from-plain xs ys cnt dir)

print_from-even :
    (cs : Bytes) (cnt dir : ℕ)
    → 0 < cnt
    → dir % 2 ≡ 0
    → print_from (star ∷ cs) cnt dir
      ≡ newline ∷ (content_label ++ print_from cs (cnt - 1) (dir + 1))
unfolding print_from
print_from-even cs cnt dir p e = ground arith

print_from-odd :
    (cs : Bytes) (cnt dir : ℕ)
    → 1 < cnt
    → dir % 2 ≡ 1
    → print_from (star ∷ cs) cnt dir ≡ newline ∷ (from_label ++ print_from cs (cnt - 1) (dir + 1))
unfolding print_from
print_from-odd cs cnt dir p e = ground arith

print_from-last : (dir : ℕ) → dir % 2 ≡ 1 → print_from (star ∷ []) 1 dir ≡ []
unfolding print_from
print_from-last dir e = ground arith

-- One post, up to the star behind its content.
print_from-post :
    (f c w : Bytes) (cnt dir : ℕ)
    → IsPlain f
    → IsPlain c
    → 1 < cnt
    → dir % 2 ≡ 0
    → print_from (f ++ star ∷ (c ++ star ∷ w)) cnt dir
      ≡ f ++ newline ∷ (content_label ++ (c ++ print_from (star ∷ w) (cnt - 1) (dir + 1)))
print_from-post f c w cnt dir hf hc p e = rw (
  print_from-plain f (star ∷ (c ++ star ∷ w)) cnt dir hf (omega arith),
  print_from-even (c ++ star ∷ w) cnt dir (omega arith) e,
  print_from-plain c (star ∷ w) (cnt - 1) (dir + 1) hc (omega arith),
)

-- The posts after the first `FROM: `, with as many stars to come as they have, and the last newline.
print_from-wire :
    (f c : Bytes) (ps : List Post) (cnt dir : ℕ)
    → ArePlain ((f, c) ∷ ps)
    → cnt ≡ 2 * suc (length ps)
    → dir % 2 ≡ 0
    → from_label ++ (print_from (wire ((f, c) ∷ ps)) cnt dir ++ newline ∷ [])
      ≡ transcript ((f, c) ∷ ps)
print_from-wire f c [] cnt dir (hf, hc, h) n e =
    rw
      (
        print_from-post f c [] cnt dir hf hc (omega arith) e,
        one_left,
        print_from-last (dir + 1) (omega arith),
      )
      (simp (append_assoc, append-nil))
  where
    one_left : cnt - 1 ≡ 1
    one_left = omega arith
print_from-wire f c ((g, d) ∷ ps) cnt dir (hf, hc, h) n e =
    rw
      (
        print_from-post f c (wire ((g, d) ∷ ps)) cnt dir hf hc (omega arith) e,
        print_from-odd (wire ((g, d) ∷ ps)) (cnt - 1) (dir + 1) (omega arith) (omega arith),
        ← print_from-wire g d ps (cnt - 1 - 1) (dir + 1 + 1) h (omega arith) (omega arith),
      )
      (simp append_assoc)

-- The client prints the reply to "pull" as the posts in it, one after another, each with its two
-- labels, whatever text without a star they hold; it prints nothing for a reply with no post.
pub show-wire : (ps : List Post) → ArePlain ps → show (39 ∷ wire ps) ≡ transcript ps
unfolding show
show-wire [] h = refl
show-wire ((f, c) ∷ ps) h =
    rw (count_stars-wire ((f, c) ∷ ps) h, some_stars)
      (print_from-wire f c ps (2 * suc (length ps)) 0 h refl refl)
  where
    some_stars : ltb 0 (2 * suc (length ps)) ≡ true
    some_stars = ground arith

-- A post, unless one of its lines is empty.
abbrev pub visible : Bytes → Bytes → Option Post
visible [] content = none
visible (_ ∷ _) [] = none
visible (f ∷ from) (c ∷ content) = some (f ∷ from, c ∷ content)

abbrev pub listed : Option Post → List Post → List Post
listed none posts = posts
listed (some p) posts = p ∷ posts

-- What a reader finds in a slot.
abbrev pub view : Server → ℕ → Option Post
view s p = visible (from_of s p) (content_of s p)

-- The posts in the `n` slots from `i` on that nobody has locked, in the order of the slots.
abbrev pub shown : ℕ → ℕ → (ℕ → Bool) → Server → List Post
shown zero i is_locked s = []
shown (suc n) i is_locked s =
    let rest = shown n (i + 1) is_locked s in
    if is_locked i || s.locked i then rest else listed (view s i) rest

string_at-head :
    (fuel : ℕ) (m : Memory) (a : ℕ)
    → 0 < fuel
    → string_at fuel m a ≡ (if m a == 0 then [] else m a ∷ string_at (fuel - 1) m (a + 1))
unfolding string_at
string_at-head zero m a p = absurd (omega arith)
string_at-head (suc fuel) m a p = ground (arith, ap (λ k. string_at k m (a + 1)) (less fuel))
  where
    less : (k : ℕ) → suc k - 1 ≡ k
    less k = omega arith

-- The test of the handler, on the first bytes, against the strings.
is_shown-listed :
    (l : ℕ → Bool) (s : Server) (p : ℕ) (rest : List Post)
    → p < record_num
    → (if is_shown l s p then (from_of s p, content_of s p) ∷ rest else rest)
      ≡ (if l p || s.locked p then rest else listed (view s p) rest)
is_shown-listed l s p rest q = ground (
  arith,
  string_at-head (250 - record_size * p) s.all (record_size * p) (omega arith),
  string_at-head (250 - (record_size * p + content_offset)) s.all (record_size * p + content_offset)
      (omega arith),
)

-- One slot of the reply.
wire-slot :
    (l : ℕ → Bool) (s : Server) (p : ℕ) (rest : List Post)
    → (if is_shown l s p then from_of s p ++ star ∷ (content_of s p ++ star ∷ []) else [])
        ++ wire rest
      ≡ wire (if is_shown l s p then (from_of s p, content_of s p) ∷ rest else rest)
wire-slot l s p rest = elim (Bool-cases (is_shown l s p)) [
  | inl y ↦ rw y (simp append_assoc)
  | inr x ↦ rw x refl
]

pub pull_from-wire :
    (n i : ℕ) (is_locked : ℕ → Bool) (s : Server)
    → i + n ≤ record_num
    → pull_from n i is_locked s ≡ wire (shown n i is_locked s)
unfolding pull_from
pull_from-wire zero i l s h = refl
pull_from-wire (suc n) i l s h = rw (pull_from-wire n (i + 1) l s (omega arith)) (
    wire-slot l s i (shown n (i + 1) l s)
    ∙ ap wire (is_shown-listed l s i (shown n (i + 1) l s) (omega arith)))

-- What the client prints for the server's reply to "pull" is every post in a slot that nobody has
-- locked and whose two lines are not empty, in the order of the slots, if no such line has a star.
pub show-pull :
    (is_locked : ℕ → Bool) (s : Server)
    → ArePlain (shown record_num 0 is_locked s)
    → show (pull is_locked s) ≡ transcript (shown record_num 0 is_locked s)
unfolding pull
show-pull l s h =
    rw (pull_from-wire record_num 0 l s (omega arith)) (show-wire (shown record_num 0 l s) h)
