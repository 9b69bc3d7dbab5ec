-- ===== src/Board/Locking/Races.antt =====
-- What the record locks of HW1/server.c give, and what they do not.
use ntu_systems_programming.Prelude.{
  arith, ℕ, ◌+◌, ◌%◌, ◌≡◌, ◌≢◌, refl, ap, ◌∙◌, sym, Bool, true, false, none, some, update,
  update_apart, update_here, inl, inr, Bool-cases, ℕ_discrete,
}
use ntu_systems_programming.Board.Server.{record_num}
use ntu_systems_programming.Board.Locking.{
  is_other, RecordLocks, Place, idle, searching, claiming, writing, dolock, Servers, Act, arrive,
  pass, find, retry, give_up, take_slot, finish, Runs, stop, onward,
}

abbrev is_writing : Place → Bool
is_writing (writing _ _) = true
is_writing _ = false

abbrev slot_of : Place → ℕ
slot_of (writing pos _) = pos
slot_of _ = 0

update_before {ℓ} :
    {A : Type ℓ} (f : ℕ → A) (i j : ℕ) (a b : A) → i ≢ j → update (update f i a) j b i ≡ a
update_before f i j a b d = update_apart (update f i a) j b i (λ e. d (sym e)) ∙ update_here f i a

module _ (F : RecordLocks) where
  abbrev pub OnlyWriters : Servers F → Type 0
  OnlyWriters s = (j p : ℕ) → F.holder s.table j ≡ some p → (l : ℕ) × (s.places p ≡ writing j l)

  -- A server that does not write moves.
  moved :
      (places : ℕ → Place) (p j q l : ℕ) (old new : Place)
      → places p ≡ old
      → is_writing old ≡ false
      → places q ≡ writing j l
      → update places p new q ≡ writing j l
  moved places p j q l old new e w h = elim (ℕ_discrete p q) [
    | yes d ↦
        let stays : false ≡ true = sym w ∙ ap is_writing (sym e ∙ ap places d ∙ h) in
        absurd (ground (arith, stays))
    | no d ↦ update_apart places p new q d ∙ h
  ]

  waits-OnlyWriters :
      (s : Servers F) (p : ℕ) (old new : Place)
      → s.places p ≡ old
      → is_writing old ≡ false
      → OnlyWriters s
      → OnlyWriters (record s { places = update s.places p new })
  waits-OnlyWriters s p old new e w v j q h =
      let (l, at) = v j q h in (l, moved s.places p j q l old new e w at)

  -- The lock is taken, if no other server has it.
  take_slot-OnlyWriters :
      (s : Servers F) (p i : ℕ)
      → s.places p ≡ claiming i
      → OnlyWriters s
      → OnlyWriters (record {
        table = dolock F s.table p (i % record_num);
        places = update s.places p (writing (i % record_num) (i + 1));
      })
  take_slot-OnlyWriters s p i e v j q h =
      let slot = i % record_num in
      let kept : F.holder s.table j ≡ some q
          → (l : ℕ) × (update s.places p (writing slot (i + 1)) q ≡ writing j l) =
        λ g. let (l, at) = v j q g in (l, moved s.places p j q l (claiming i) _ e refl at) in
      elim (ℕ_discrete j slot) [
        | no d ↦ kept (sym (F.setlk_others s.table p slot j d) ∙ h)
        | yes d ↦ elim (Bool-cases (is_other (F.holder s.table slot) p)) [
          | inl o ↦ kept (
              ap (F.holder s.table) d
              ∙ sym (F.setlk_held s.table p slot o)
              ∙ ap (F.holder (F.setlk s.table p slot)) (sym d)
              ∙ h)
          | inr o ↦
              let mine : some p ≡ some q =
                sym (F.setlk_free s.table p slot o)
                ∙ ap (F.holder (F.setlk s.table p slot)) (sym d)
                ∙ h in
              (i + 1, ground (arith, mine, d))
        ]
      ]

  finish-OnlyWriters :
      (s : Servers F) (p pos l : ℕ)
      → s.places p ≡ writing pos l
      → OnlyWriters s
      → OnlyWriters (record { table = F.unlck s.table p pos; places = update s.places p (idle l) })
  finish-OnlyWriters s p pos l e v j q h =
      let (k, at) = v j q (F.unlck_others s.table p pos j q h) in
      (
        k,
        elim (ℕ_discrete p q) [
          | no d ↦ update_apart s.places p (idle l) q d ∙ at
          | yes d ↦
              let same : j ≡ pos = ap slot_of (sym at ∙ ap s.places (sym d) ∙ e) in
              absurd (
                F.unlck_own s.table p pos
                  (ap (F.holder (F.unlck s.table p pos)) (sym same) ∙ h ∙ ap some (sym d)))
        ],
      )

  Act-OnlyWriters : {s t : Servers F} → Act F s t → OnlyWriters s → OnlyWriters t
  Act-OnlyWriters {s} (arrive p l e) v = waits-OnlyWriters s p _ _ e refl v
  Act-OnlyWriters {s} (pass p l n i again e b) v = waits-OnlyWriters s p _ _ e refl v
  Act-OnlyWriters {s} (find p l n i again e b) v = waits-OnlyWriters s p _ _ e refl v
  Act-OnlyWriters {s} (retry p l i e) v = waits-OnlyWriters s p _ _ e refl v
  Act-OnlyWriters {s} (give_up p l i e) v = waits-OnlyWriters s p _ _ e refl v
  Act-OnlyWriters {s} (take_slot p i e) v = take_slot-OnlyWriters s p i e v
  Act-OnlyWriters {s} (finish p pos l e) v = finish-OnlyWriters s p pos l e v

  -- However many servers there are, and in every interleaving, a record is locked only by a server
  -- that is between the lock and the unlock of a post to it, if no record is locked at the start.
  pub locks_given_back :
      {s t : Servers F}
      → ((j : ℕ) → F.holder s.table j ≡ none)
      → Runs F s t
      → (j p : ℕ) → F.holder t.table j ≡ some p
      → (l : ℕ) × (t.places p ≡ writing j l)
  locks_given_back z stop = λ j p h. absurd (ground (arith, z j, h))
  locks_given_back z (onward r a) = Act-OnlyWriters a (locks_given_back z r)

  -- Two servers whose search begins at the same slot can come to write it together, whatever slot
  -- that is, if nobody has locked it: both test it before either locks it, and the second
  -- goes on without the lock, which the first one holds.
  pub slot_written_twice :
      (s : Servers F) (p q i : ℕ)
      → p ≢ q
      → s.places p ≡ idle i
      → s.places q ≡ idle i
      → F.holder s.table (i % record_num) ≡ none
      → (t : Servers F) × Runs F s t
        × (t.places p ≡ writing (i % record_num) (i + 1))
        × (t.places q ≡ writing (i % record_num) (i + 1))
        × (F.holder t.table (i % record_num) ≡ some p)
  slot_written_twice s p q i d e f z =
      let says : (r : ℕ) → F.getlk s.table r (i % record_num) ≡ false =
        λ r. F.getlk_says s.table r (i % record_num) ∙ ap (λ h. is_other h r) z in
      let back : q ≢ p = λ h. d (sym h) in
      let slot = i % record_num in
      let search = searching i false record_num i in
      let post = writing slot (i + 1) in
      let f1 = update s.places p search in
      let f2 = update f1 q search in
      let f3 = update f2 p (claiming i) in
      let f4 = update f3 q (claiming i) in
      let f5 = update f4 p post in
      let first = F.setlk_free s.table p slot (ap (λ h. is_other h p) z) in
      (
        _,
        onward
            (onward
              (onward
                (onward
                  (onward (onward stop (arrive p i e))
                    (arrive q i (update_apart s.places p search q d ∙ f)))
                  (find p i 9 i false (update_before s.places p q search search d) (says p)))
                (find q i 9 i false (update_before f1 q p search (claiming i) back) (says q)))
              (take_slot p i (update_before f2 p q (claiming i) (claiming i) d)))
            (take_slot q i (update_before f3 q p (claiming i) post back)),
        update_before f4 p q post post d,
        update_here f5 q post,
        F.setlk_held (F.setlk s.table p slot) q slot
              (ap (λ h. is_other h q) first ∙ ground (arith, d))
            ∙ first,
      )
