-- ===== src/Board/Locking/Tests.antt =====
-- Two servers of HW1 on one file, with locks in a table.
use ntu_systems_programming.Prelude.{
  arith, ℕ, ◌≡◌, ◌≢◌, refl, Bool, true, false, Option, none, some, ◌==◌, update, if◌then◌else◌,
}
use ntu_systems_programming.Board.Server.{record_num}
use ntu_systems_programming.Board.Locking.{
  is_other, RecordLocks, idle, searching, claiming, writing, Servers, arrive, find, take_slot, Runs,
  stop, onward,
}
use ntu_systems_programming.Board.Locking.Races.{locks_given_back, slot_written_twice}

abbrev LockTable : Type 0
LockTable = ℕ → Option ℕ

abbrev is_own : Option ℕ → ℕ → Bool
is_own none p = false
is_own (some q) p = q == p

abbrev lock : LockTable → ℕ → ℕ → LockTable
lock t p j = if is_other (t j) p then t else update t j (some p)

abbrev unlock : LockTable → ℕ → ℕ → LockTable
unlock t p j = if is_own (t j) p then update t j none else t

lock_free : (t : LockTable) (p j : ℕ) → is_other (t j) p ≡ false → lock t p j j ≡ some p
lock_free t p j h = ground (arith, h)

lock_held : (t : LockTable) (p j : ℕ) → is_other (t j) p ≡ true → lock t p j j ≡ t j
lock_held t p j h = ground (arith, h)

lock_others : (t : LockTable) (p j k : ℕ) → k ≢ j → lock t p j k ≡ t k
lock_others t p j k h = ground (arith, h)

unlock_own : (t : LockTable) (p j : ℕ) → unlock t p j j ≢ some p
unlock_own t p j h = ground (arith, h)

unlock_others : (t : LockTable) (p j k q : ℕ) → unlock t p j k ≡ some q → t k ≡ some q
unlock_others t p j k q h = ground (arith, h)

abbrev kernel : RecordLocks
kernel = record {
  Table = LockTable;
  holder = λ t j. t j;
  getlk = λ t p j. is_other (t j) p;
  setlk = lock;
  unlck = unlock;
  getlk_says = λ t p j. refl;
  setlk_free = lock_free;
  setlk_held = lock_held;
  setlk_others = lock_others;
  unlck_own = unlock_own;
  unlck_others = unlock_others;
}

abbrev begun : Servers kernel
begun = record { table = λ _. none; places = λ _. idle 0 }

slot_written_twice_example :
    (t : Servers kernel) × Runs kernel begun t
    × (t.places 1 ≡ writing 0 1)
    × (t.places 2 ≡ writing 0 1)
    × (t.table 0 ≡ some 1)
slot_written_twice_example = slot_written_twice kernel begun 1 2 0 (omega arith) refl refl refl

-- Server 1 in a post.
abbrev arrived : Servers kernel
arrived = record begun { places = update begun.places 1 (searching 0 false record_num 0) }

abbrev tested : Servers kernel
tested = record begun { places = update arrived.places 1 (claiming 0) }

abbrev in_post : Servers kernel
in_post = record { table = lock begun.table 1 0; places = update tested.places 1 (writing 0 1) }

post_run : Runs kernel begun in_post
post_run =
    onward (onward (onward stop (arrive 1 0 refl)) (find 1 0 9 0 false refl refl))
      (take_slot 1 0 refl)

locks_given_back_example : (l : ℕ) × (in_post.places 1 ≡ writing 0 l)
locks_given_back_example = locks_given_back kernel (λ j. refl) post_run 0 1 refl
