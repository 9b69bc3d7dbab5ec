-- ===== src/Services/Descriptors/Links.antt =====
-- Which descriptors of a service of HW2/service.c and of its child are the ends of one pipe.
use mathlib.Core.Path.{subst}
use ntu_systems_programming.Prelude.{
  arith, ℕ, ◌<◌, ◌≡◌, ◌≢◌, refl, ap, ◌∙◌, sym, Bool, none, some, inl, inr, Bool-cases, Option-cases,
}
use ntu_systems_programming.Services.Descriptors.{
  End, reads, writes, Piped, Kernel, Created, child_table, parent_table, connect_child,
}

-- Standard input, output and error are open.
abbrev pub StandardOpen : (K : Kernel) → K.Table → Type 0
StandardOpen K t = (k : ℕ) → k < 3 → K.at t k ≢ none

module _ (K : Kernel) where
  -- An open descriptor is not a free one.
  open_apart : (u : K.Table) (k j : ℕ) (e : End) → K.at u k ≡ some e → K.at u j ≡ none → k ≢ j
  open_apart u k j e h g q =
      let clash : some e ≡ none = sym h ∙ ap (K.at u) q ∙ g in ground (arith, clash)

  -- Nor are the two ends of pipes.
  ends_apart :
      (u : K.Table) (k j n m : ℕ) → K.at u k ≡ some (reads n) → K.at u j ≡ some (writes m) → k ≢ j
  ends_apart u k j n m h g q =
      let clash : some (reads n) ≡ some (writes m) = sym h ∙ ap (K.at u) q ∙ g in
      ground (arith, clash)

module _ (K : Kernel) (t : K.Table) (n m : ℕ) (a b : Piped K.Table) (first : K.pipe t n ≡ some a)
    (second : K.pipe a.table m ≡ some b) where
  -- The four descriptors differ, since each pair is free when its pipe is made.
  record FourEnds : Type 0 where
    rr : a.read_end ≢ b.read_end
    rw' : a.read_end ≢ b.write_end
    wr : a.write_end ≢ b.read_end
    ww : a.write_end ≢ b.write_end
    own_a : a.read_end ≢ a.write_end
    own_b : b.read_end ≢ b.write_end

  apart : FourEnds
  apart =
      let (ar, aw, _, _) = K.pipe_ends t n a first in
      let (br, bw, fr, fw) = K.pipe_ends a.table m b second in
      record {
        rr = open_apart K a.table _ _ _ ar fr;
        rw' = open_apart K a.table _ _ _ ar fw;
        wr = open_apart K a.table _ _ _ aw fr;
        ww = open_apart K a.table _ _ _ aw fw;
        own_a = ends_apart K a.table _ _ n n ar aw;
        own_b = ends_apart K b.table _ _ m m br bw;
      }

  -- A descriptor that is open before is none of the four.
  record Untouched (k : ℕ) : Type 0 where
    ar : k ≢ a.read_end
    aw : k ≢ a.write_end
    br : k ≢ b.read_end
    bw : k ≢ b.write_end
    same : K.at b.table k ≡ K.at t k

  old : (k : ℕ) (e : End) → K.at t k ≡ some e → Untouched k
  old k e h =
      let (_, _, fr, fw) = K.pipe_ends t n a first in
      let (_, _, gr, gw) = K.pipe_ends a.table m b second in
      let ar = open_apart K t k a.read_end e h fr in
      let aw = open_apart K t k a.write_end e h fw in
      let same = K.pipe_others t n a first k ar aw in
      let br = open_apart K a.table k b.read_end e (same ∙ h) gr in
      let bw = open_apart K a.table k b.write_end e (same ∙ h) gw in
      record {
        ar = ar;
        aw = aw;
        br = br;
        bw = bw;
        same = K.pipe_others a.table m b second k br bw ∙ same;
      }

  -- The answer's write end is not 3: the first pipe would have taken 3, or a lower one.
  not_three : StandardOpen K t → b.write_end ≢ 3
  not_three std e =
      let (_, _, fr, _) = K.pipe_ends t n a first in
      let (_, _, _, gw) = K.pipe_ends a.table m b second in
      let free =
        sym (K.pipe_others t n a first b.write_end (λ q. apart.rw' (sym q)) (λ q. apart.ww (sym q)))
        ∙ gw in
      let low = K.pipe_lowest t n a first b.write_end free in
      std a.read_end (omega (arith, low, apart.rw')) fr

  child_ends :
      StandardOpen K t
      → (K.at (child_table K a b) 3 ≡ some (reads n))
        × (K.at (child_table K a b) 4 ≡ some (writes m))
  child_ends std =
      let v = apart in
      let (ar, _, _, _) = K.pipe_ends t n a first in
      let (_, bw, _, _) = K.pipe_ends a.table m b second in
      let u1 = K.close b.table a.write_end in
      let u2 = K.close u1 b.read_end in
      let u3 = K.dup2 u2 a.read_end 3 in
      (
        K.dup2_others u3 b.write_end 4 3 (λ q. omega arith)
            ∙ K.dup2_copies u2 a.read_end 3
            ∙ K.close_others u1 b.read_end a.read_end v.rr
            ∙ K.close_others b.table a.write_end a.read_end v.own_a
            ∙ K.pipe_others a.table m b second a.read_end v.rr v.rw'
            ∙ ar,
        K.dup2_copies u3 b.write_end 4
            ∙ K.dup2_others u2 a.read_end 3 b.write_end (not_three std)
            ∙ K.close_others u1 b.read_end b.write_end (λ q. v.own_b (sym q))
            ∙ K.close_others b.table a.write_end b.write_end (λ q. v.ww (sym q))
            ∙ bw,
      )

  parent_ends :
      (K.at (parent_table K a b) a.write_end ≡ some (writes n))
      × (K.at (parent_table K a b) b.read_end ≡ some (reads m))
  parent_ends =
      let v = apart in
      let (_, aw, _, _) = K.pipe_ends t n a first in
      let (br, _, _, _) = K.pipe_ends a.table m b second in
      let v1 = K.close b.table b.write_end in
      (
        K.close_others v1 a.read_end a.write_end (λ q. v.own_a (sym q))
            ∙ K.close_others b.table b.write_end a.write_end v.ww
            ∙ K.pipe_others a.table m b second a.write_end v.wr v.ww
            ∙ aw,
        K.close_others v1 a.read_end b.read_end (λ q. v.rr (sym q))
            ∙ K.close_others b.table b.write_end b.read_end v.own_b
            ∙ br,
      )

  parent_kept : (k : ℕ) (e : End) → K.at t k ≡ some e → K.at (parent_table K a b) k ≡ some e
  parent_kept k e h =
      let o = old k e h in
      K.close_others (K.close b.table b.write_end) a.read_end k o.ar
      ∙ K.close_others b.table b.write_end k o.bw
      ∙ o.same
      ∙ h

  child_inherits :
      (k : ℕ) (e : End) → k ≢ 3 → k ≢ 4 → K.at t k ≡ some e → K.at (child_table K a b) k ≡ some e
  child_inherits k e p q h =
      let o = old k e h in
      let u1 = K.close b.table a.write_end in
      let u2 = K.close u1 b.read_end in
      K.dup2_others (K.dup2 u2 a.read_end 3) b.write_end 4 k q
      ∙ K.dup2_others u2 a.read_end 3 k p
      ∙ K.close_others u1 b.read_end k o.br
      ∙ K.close_others b.table a.write_end k o.aw
      ∙ o.same
      ∙ h

-- A service and its new child are linked by two pipes, and the rest of their descriptors.
pub record HasPipes (K : Kernel) (n m : ℕ) (t : K.Table) (c : Created K) : Type 0 where
  pub command : (K.at c.child 3 ≡ some (reads n)) × (K.at c.parent c.write_fd ≡ some (writes n))
  pub answer : (K.at c.child 4 ≡ some (writes m)) × (K.at c.parent c.read_fd ≡ some (reads m))
  pub kept : (k : ℕ) (e : End) → K.at t k ≡ some e → K.at c.parent k ≡ some e
  pub inherited : (k : ℕ) (e : End) → k ≢ 3 → k ≢ 4 → K.at t k ≡ some e → K.at c.child k ≡ some e

abbrev created : (K : Kernel) → Piped K.Table → Piped K.Table → Created K
created K a b = record {
  parent = parent_table K a b;
  child = child_table K a b;
  read_fd = b.read_end;
  write_fd = a.write_end;
}

piped-HasPipes :
    (K : Kernel) (n m : ℕ) (t : K.Table) (a b : Piped K.Table)
    → K.pipe t n ≡ some a
    → K.pipe a.table m ≡ some b
    → StandardOpen K t
    → HasPipes K n m t (created K a b)
piped-HasPipes K n m t a b first second std =
    let (three, four) = child_ends K t n m a b first second std in
    let (command, answer) = parent_ends K t n m a b first second in
    record {
      command = (three, command);
      answer = (four, answer);
      kept = parent_kept K t n m a b first second;
      inherited = child_inherits K t n m a b first second;
    }

pub connect_child-HasPipes :
    (K : Kernel) (n m : ℕ) (forks : Bool) (t : K.Table) (c : Created K)
    → connect_child K n m forks t ≡ some c
    → StandardOpen K t
    → HasPipes K n m t c
unfolding connect_child
connect_child-HasPipes K n m forks t c e std = elim (Option-cases (K.pipe t n)) [
  | inl f ↦ absurd (ground (arith, e, f))
  | inr (a, f) ↦ elim (Option-cases (K.pipe a.table m)) [
    | inl g ↦ absurd (ground (arith, e, f, g))
    | inr (b, g) ↦ elim (Bool-cases forks) [
      | inl h ↦
          let made : connect_child K n m forks t ≡ some (created K a b) =
            rw (connect_child, f, g, h) refl in
          subst (HasPipes K n m t) (cc (sym made ∙ e)) (piped-HasPipes K n m t a b f g std)
      | inr h ↦ absurd (ground (arith, e, f, g, h))
    ]
  ]
]
