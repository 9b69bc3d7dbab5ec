-- ===== src/Board/Locking.antt =====
-- Several servers of HW1 on one file: the search of HW1/server.c for a slot, with `is_locked` and `dolock`,
-- interleaved. `fcntl` is a parameter, with what its manual says of locks on a record.
pub mod Races
mod Tests
use ntu_systems_programming.Prelude.{
  ℕ, zero, suc, ◌+◌, ◌%◌, ◌≡◌, ◌≢◌, Bool, true, false, not, Option, none, some, ◌==◌, update,
}
use ntu_systems_programming.Board.Server.{record_num}

-- Whether another process than `p` holds a lock.
abbrev pub is_other : Option ℕ → ℕ → Bool
is_other none p = false
is_other (some q) p = not (q == p)

-- `fcntl` on the records of the file, with F_GETLK, and with F_SETLK and F_WRLCK or F_UNLCK, for a process
-- and a record. `holder` is the process that holds a record's lock.
pub record RecordLocks : Type 1 where
  pub Table : Type 0
  pub holder : Table → ℕ → Option ℕ
  pub getlk : Table → ℕ → ℕ → Bool
  pub setlk : Table → ℕ → ℕ → Table
  pub unlck : Table → ℕ → ℕ → Table
  pub getlk_says : (t : Table) (p j : ℕ) → getlk t p j ≡ is_other (holder t j) p
  pub setlk_free :
      (t : Table) (p j : ℕ) → is_other (holder t j) p ≡ false → holder (setlk t p j) j ≡ some p
  pub setlk_held :
      (t : Table) (p j : ℕ) → is_other (holder t j) p ≡ true → holder (setlk t p j) j ≡ holder t j
  pub setlk_others : (t : Table) (p j k : ℕ) → k ≢ j → holder (setlk t p j) k ≡ holder t k
  pub unlck_own : (t : Table) (p j : ℕ) → holder (unlck t p j) j ≢ some p
  pub unlck_others :
      (t : Table) (p j k q : ℕ) → holder (unlck t p j) k ≡ some q → holder t k ≡ some q

-- Where a server stands, with `last + 1`: outside a post; in the first or second loop (`again`), with the
-- rounds left and `i`; between the test of slot `i % RECORD_NUM` and its lock; between the lock and the
-- unlock of `pos`.
pub data Place : Type 0 where
  idle : ℕ → Place
  searching : ℕ → Bool → ℕ → ℕ → Place
  claiming : ℕ → Place
  writing : ℕ → ℕ → Place

module _ (F : RecordLocks) where
  abbrev pub is_locked : F.Table → ℕ → ℕ → Bool
  is_locked t p j = F.getlk t p j

  -- With F_WRLCK; a failure is a line of output.
  abbrev pub dolock : F.Table → ℕ → ℕ → F.Table
  dolock t p j = F.setlk t p j

  pub record Servers : Type 0 where
    pub table : F.Table
    pub places : ℕ → Place

  -- A step of server `p`. Its own `locked` is clear while it searches.
  pub data Act (s : Servers) : Servers → Type 0 where
    arrive :
        (p l : ℕ)
        → s.places p ≡ idle l
        → Act s (record s { places = update s.places p (searching l false record_num l) })
    pass :
        (p l n i : ℕ) (again : Bool)
        → s.places p ≡ searching l again (suc n) i
        → is_locked s.table p (i % record_num) ≡ true
        → Act s (record s { places = update s.places p (searching l again n (i + 1)) })
    find :
        (p l n i : ℕ) (again : Bool)
        → s.places p ≡ searching l again (suc n) i
        → is_locked s.table p (i % record_num) ≡ false
        → Act s (record s { places = update s.places p (claiming i) })
    retry :
        (p l i : ℕ)
        → s.places p ≡ searching l false zero i
        → Act s (record s { places = update s.places p (searching l true record_num l) })
    give_up :
        (p l i : ℕ)
        → s.places p ≡ searching l true zero i
        → Act s (record s { places = update s.places p (writing 0 l) })
    take_slot :
        (p i : ℕ)
        → s.places p ≡ claiming i
        → Act s (record {
          table = dolock s.table p (i % record_num);
          places = update s.places p (writing (i % record_num) (i + 1));
        })
    finish :
        (p pos l : ℕ)
        → s.places p ≡ writing pos l
        → Act s (record { table = F.unlck s.table p pos; places = update s.places p (idle l) })

  pub data Runs (s : Servers) : Servers → Type 0 where
    stop : Runs s s
    onward : {t u : Servers} → Runs s t → Act t u → Runs s u
