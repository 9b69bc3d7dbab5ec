-- ===== src/Prelude/Family.antt =====
-- Arrays and heaps as functions of an index, a write at one index, and sums over a range of them.
use Prim.Native.Nat.{ℕ, zero, suc, ◌+◌, ◌-◌, ◌*◌, ◌≤◌, ◌<◌, compare, Ordering}
use mathlib.Core.Path.{◌≡◌, refl, ap, sym, ◌∙◌}
use mathlib.Core.Logic.{◌≢◌}
use native.Mathlib.Decide.{ℕ_discrete}
use native.Mathlib.Omega.{arith}

abbrev pub update {ℓ} : {A : Type ℓ} → (ℕ → A) → ℕ → A → ℕ → A
update f i a j = elim (compare i j) [ Ordering.eq ↦ a | _ ↦ f j ]

pub update_apart {ℓ} :
    {A : Type ℓ} (f : ℕ → A) (i : ℕ) (a : A) (j : ℕ) → i ≢ j → update f i a j ≡ f j
update_apart f i a j d = ground (arith, d)

pub update_here {ℓ} : {A : Type ℓ} (f : ℕ → A) (i : ℕ) (a : A) → update f i a i ≡ a
update_here f i a = ground arith

-- `g lo + ... + g (lo + many - 1)`.
unfoldable pub sum_range : ℕ → ℕ → (ℕ → ℕ) → ℕ
sum_range zero lo g = 0
sum_range (suc many) lo g = g lo + sum_range many (suc lo) g

-- Two functions that agree on the range have one sum.
pub sum_range-agree :
    (many lo : ℕ) (g h : ℕ → ℕ)
    → ((j : ℕ) → lo ≤ j → j < lo + many → g j ≡ h j)
    → sum_range many lo g ≡ sum_range many lo h
unfolding sum_range
sum_range-agree zero lo g h same = refl
sum_range-agree (suc many) lo g h same = omega (
  arith,
  same lo (omega arith) (omega arith),
  sum_range-agree many (suc lo) g h (λ j p q. same j (omega arith) (omega arith)),
)

-- Two functions that differ at one index of the range alone.
pub sum_range-differ :
    (many lo : ℕ) (g h : ℕ → ℕ) (k : ℕ)
    → ((j : ℕ) → lo ≤ j → j < lo + many → j ≢ k → g j ≡ h j)
    → lo ≤ k
    → k < lo + many
    → sum_range many lo h + g k ≡ sum_range many lo g + h k
unfolding sum_range
sum_range-differ zero lo g h k same p q = absurd (omega arith)
sum_range-differ (suc many) lo g h k same p q = elim (ℕ_discrete lo k) [
  | yes here ↦ ground (
    arith,
    ap g here,
    ap h here,
    sum_range-agree many (suc lo) g h
        (λ j b c. same j (omega arith) (omega arith) (λ e. omega arith)),
  )
  | no there ↦ omega (
    arith,
    same lo (omega arith) (omega arith) there,
    sum_range-differ many (suc lo) g h k (λ j b c. same j (omega arith) (omega arith)) (omega arith)
        (omega arith),
  )
]

-- The last index of a range.
pub sum_range-last :
    (many lo : ℕ) (g : ℕ → ℕ) → sum_range (suc many) lo g ≡ sum_range many lo g + g (lo + many)
unfolding sum_range
sum_range-last zero lo g = ground (arith, ap g (let e : lo ≡ lo + 0 = omega arith in e))
sum_range-last (suc many) lo g = omega (arith, sum_range-last many (suc lo) g, ap g (shift lo many))
  where
    shift : (a b : ℕ) → suc a + b ≡ a + suc b
    shift a b = omega arith

pub sum_range-none :
    (many lo : ℕ) (g : ℕ → ℕ)
    → ((j : ℕ) → lo ≤ j → j < lo + many → g j ≡ 0)
    → sum_range many lo g ≡ 0
unfolding sum_range
sum_range-none zero lo g none_of = refl
sum_range-none (suc many) lo g none_of = omega (
  arith,
  none_of lo (omega arith) (omega arith),
  sum_range-none many (suc lo) g (λ j p q. none_of j (omega arith) (omega arith)),
)

-- A write at one index of the range, under a weight.
pub sum_range-update {ℓ} :
    {A : Type ℓ} (w : A → ℕ) (n : ℕ) (f : ℕ → A) (k : ℕ) (a : A)
    → k < n
    → sum_range n 0 (λ i. w (update f k a i)) + w (f k) ≡ sum_range n 0 (λ i. w (f i)) + w a
sum_range-update w n f k a p = ground (
  arith,
  sum_range-differ n 0 (λ i. w (f i)) (λ i. w (update f k a i)) k (λ j b c ne. ground arith)
      (omega arith) (omega arith),
)

-- Two functions that differ by at most `c` everywhere.
pub sum_range-le :
    (many lo c : ℕ) (g h : ℕ → ℕ)
    → ((j : ℕ) → g j ≤ h j + c)
    → sum_range many lo g ≤ sum_range many lo h + c * many
unfolding sum_range
sum_range-le zero lo c g h le = omega arith
sum_range-le (suc many) lo c g h le = grind (arith, le lo, sum_range-le many (suc lo) c g h le)

-- The last index takes the place of another one, which is left out.
pub sum_range-remove {ℓ} :
    {A : Type ℓ} (w : A → ℕ) (n : ℕ) (f : ℕ → A) (k : ℕ)
    → k < suc n
    → sum_range n 0 (λ i. w (update f k (f n) i)) + w (f k) ≡ sum_range (suc n) 0 (λ i. w (f i))
sum_range-remove w n f k p = elim (ℕ_discrete k n) [
  | yes last ↦ ground (
    arith,
    sum_range-last n 0 (λ i. w (f i)),
    sum_range-agree n 0 (λ i. w (update f k (f n) i)) (λ i. w (f i)) (λ j b c. ground arith),
    ap (λ i. w (f i)) last,
    ap (λ i. w (f i)) (zero_add n),
  )
  | no other ↦ omega (
    arith,
    sum_range-last n 0 (λ i. w (f i)),
    sum_range-update w n f k (f n) (omega arith),
    ap (λ i. w (f i)) (zero_add n),
  )
]
  where
    zero_add : (m : ℕ) → 0 + m ≡ m
    zero_add m = omega arith

-- The same for the count `n` of an array: an element behind the last one, or one fewer.
module _ {ℓ} {A : Type ℓ} (w : A → ℕ) (n : ℕ) (f : ℕ → A) where
  pub sum_range-push :
      (a : A) → sum_range (n + 1) 0 (λ i. w (update f n a i)) ≡ sum_range n 0 (λ i. w (f i)) + w a
  sum_range-push a =
      let e : n + 1 ≡ suc n = omega arith in
      let z : 0 + n ≡ n = omega arith in
      rw (e, sum_range-last n 0 (λ i. w (update f n a i)), z)
        (ground (
          arith,
          sum_range-agree n 0 (λ i. w (update f n a i)) (λ i. w (f i)) (λ j b c. ground arith),
        ))

  pub sum_range-pop :
      0 < n → sum_range (n - 1) 0 (λ i. w (f i)) + w (f (n - 1)) ≡ sum_range n 0 (λ i. w (f i))
  sum_range-pop p =
      let e : n ≡ suc (n - 1) = omega arith in
      let z : 0 + (n - 1) ≡ n - 1 = omega arith in
      sym (
        ap (λ m. sum_range m 0 (λ i. w (f i))) e
        ∙ sum_range-last (n - 1) 0 (λ i. w (f i))
        ∙ ap (λ m. sum_range (n - 1) 0 (λ i. w (f i)) + w (f m)) z)

  pub sum_range-swap_out :
      (k : ℕ)
      → k < n
      → sum_range (n - 1) 0 (λ i. w (update f k (f (n - 1)) i)) + w (f k)
        ≡ sum_range n 0 (λ i. w (f i))
  sum_range-swap_out k p =
      let e : suc (n - 1) ≡ n = omega arith in
      sum_range-remove w (n - 1) f k (omega arith) ∙ ap (λ m. sum_range m 0 (λ i. w (f i))) e
