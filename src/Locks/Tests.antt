-- ===== src/Locks/Tests.antt =====
-- Locks on concrete tables.
use mathlib.Core.List.{Memᴰ}
use catworld.Common.{ℕ, ◌+◌, ◌≤◌, ◌≡◌, refl, Bool, false, Option, none, some, [], ◌∷◌, arith, leb}
use catworld.Jobs.{count}
use catworld.Locks.{LockTable, try_acquire, release, new_lease, is_lost, passes_assert, wait_lock}
use catworld.Locks.Steps.{
  Owner, new_owner, World, acquires, enters, goes_on, LockRun, no_step, one_more,
}
use catworld.Locks.Exclusion.{publishes, LockRun-one_publishes}
use catworld.Locks.Waiting.{WaitEnd, wait_lock-WaitEnd}

abbrev no_locks : LockTable
no_locks key = none

abbrev empty : World
empty = record { now = 0; table = no_locks; owners = [] }

abbrev asked : World
asked = record empty {
  table = (try_acquire "t" "a" 0 no_locks).0;
  owners = new_owner "t" "a" 0 ∷ [];
}

abbrev owner_a : Owner
owner_a = record (new_owner "t" "a" 0) { lease = some (new_lease "t" "a" 1000 false) }

abbrev entered : World
entered = record asked { now = 1000; owners = owner_a ∷ [] }

abbrev later : World
later = record entered { now = 120001 }

abbrev asked_again : World
asked_again = record later {
  table = (try_acquire "t" "b" 120001 later.table).0;
  owners = new_owner "t" "b" 120001 ∷ owner_a ∷ [];
}

abbrev second : World
second = record asked_again {
  owners =
      record (new_owner "t" "b" 120001) { lease = some (new_lease "t" "b" 120001 false) }
      ∷ owner_a
      ∷ [];
}

-- A holder whose answer took a second and that does not renew its lock is followed by another when its
-- row is over.
takeover : LockRun 1000 empty second
unfolding try_acquire
takeover =
    one_more
      (one_more
        (one_more
          (one_more
            (one_more (one_more no_step (acquires "t" "a" empty asked.table tt refl))
              (goes_on 1000 asked))
            (enters (new_owner "t" "a" 0) 0 false (record asked { now = 1000 }) (Memᴰ.head refl)
              refl (Memᴰ.head refl) (omega arith)))
          (goes_on 119001 entered))
        (acquires "t" "b" later asked_again.table (refl, tt) refl))
      (enters (new_owner "t" "b" 120001) 120001 false asked_again (Memᴰ.head refl) refl
        (Memᴰ.head refl) (omega arith))

LockRun-one_publishes_example : count (publishes "t" (120001 + 1000)) second.owners ≤ 1
LockRun-one_publishes_example =
    LockRun-one_publishes 1000 "t" (omega arith) takeover (record { backed = tt; apart = tt })

-- Within the second that the answer took both pass.
both_publish : count (publishes "t" 120001) second.owners ≡ 2
unfolding passes_assert is_lost
both_publish = refl

-- A late release leaves the row of the next holder.
late_release :
    release "t" "a" second.table "t" ≡ some (record { locked_by = "b"; expires_at = 240001 })
unfolding release try_acquire
late_release = refl

abbrev free_from_5000 : ℕ → Bool
free_from_5000 t = leb 5000 t

wait_lock-WaitEnd_example :
    (r : Option ℕ) × (wait_lock 5 free_from_5000 2000 8000 0 ≡ some r)
    × WaitEnd free_from_5000 2000 8000 0 r
wait_lock-WaitEnd_example = wait_lock-WaitEnd free_from_5000 4 2000 8000 0 (omega arith)

waits_6000 : wait_lock 5 free_from_5000 2000 8000 0 ≡ some (some 6000)
unfolding wait_lock
waits_6000 = refl
