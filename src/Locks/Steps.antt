-- ===== src/Locks/Steps.antt =====
-- The steps that change the locks and the leases, by any process. A statement and its answer are two
-- steps: the answer comes at most a delay later.
use mathlib.Core.List.{Memᴰ}
use catworld.Common.{
  ℕ, ◌+◌, ◌≤◌, String, ◌≡◌, Bool, true, false, ◌&&◌, not, Option, none, some, List, [], ◌∷◌, str_eq,
  if◌then◌else◌, All, keep,
}
use catworld.Jobs.{update_where}
use catworld.Locks.{
  LockTable, try_acquire, renew_lock, release, Lease, new_lease, renewal_answered, renewal_failed,
  watch,
}

-- A call of `withImportLock` that has taken its lock: the times of its statements that met the row, the
-- first of which took it, and its lease, once the answer to the first has come.
pub record Owner : Type 0 where
  pub key : String
  pub holder : String
  pub sent : List ℕ
  pub lease : Option Lease

pub record World : Type 0 where
  pub now : ℕ
  pub table : LockTable
  pub owners : List Owner

abbrev pub is_of : String → String → Owner → Bool
is_of key holder o = str_eq o.key key && str_eq o.holder holder

abbrev pub without : String → String → List Owner → List Owner
without key holder = keep (λ o. not (is_of key holder o))

abbrev pub new_owner : String → String → ℕ → Owner
new_owner key holder now = record { key = key; holder = holder; sent = now ∷ []; lease = none }

-- A renewal that met the row.
abbrev pub note_sent : Bool → ℕ → Owner → Owner
note_sent met now o = if met then record o { sent = now ∷ o.sent } else o

abbrev pub change_lease : (Lease → Lease) → Option Lease → Option Lease
change_lease f none = none
change_lease f (some l) = some (f l)

abbrev pub on_lease : (Lease → Lease) → Owner → Owner
on_lease f o = record o { lease = change_lease f o.lease }

-- The steps of all processes. A holder is new when it takes a lock; at the end of a process the tokens
-- of its jobs are set before its locks are released. That a renewal met no row may be heard at any time.
module _ (delay : ℕ) where
  pub data LockStep : World → World → Type 0 where
    goes_on : (d : ℕ) (w : World) → LockStep w (record w { now = w.now + d })
    acquires :
        (key holder : String) (w : World) (table' : LockTable)
        → All (λ o. str_eq o.holder holder ≡ false) w.owners
        → try_acquire key holder w.now w.table ≡ (table', true)
        → LockStep w (record w { table = table'; owners = new_owner key holder w.now ∷ w.owners })
    enters :
        (o : Owner) (at : ℕ) (cancelled : Bool) (w : World)
        → Memᴰ o w.owners
        → o.lease ≡ none
        → Memᴰ at o.sent
        → w.now ≤ at + delay
        → LockStep w (record w {
          owners =
              update_where
                (is_of o.key o.holder)
                (λ k. record k { lease = some (new_lease o.key o.holder w.now cancelled) })
                w.owners;
        })
    renews :
        (key holder : String) (w : World)
        → LockStep w (record w {
          table = (renew_lock key holder w.now w.table).0;
          owners =
              update_where
                (is_of key holder)
                (note_sent (renew_lock key holder w.now w.table).1 w.now)
                w.owners;
        })
    hears :
        (o : Owner) (at : ℕ) (w : World)
        → Memᴰ o w.owners
        → Memᴰ at o.sent
        → w.now ≤ at + delay
        → LockStep w (record w {
          owners =
              update_where (is_of o.key o.holder) (on_lease (renewal_answered true w.now)) w.owners;
        })
    denies :
        (key holder : String) (w : World)
        → LockStep w (record w {
          owners =
              update_where (is_of key holder) (on_lease (renewal_answered false w.now)) w.owners;
        })
    misses :
        (key holder : String) (w : World)
        → LockStep w (record w {
          owners = update_where (is_of key holder) (on_lease (renewal_failed w.now)) w.owners;
        })
    looks :
        (key holder : String) (status : Option (Option String)) (w : World)
        → LockStep w (record w {
          owners = update_where (is_of key holder) (on_lease (watch status)) w.owners;
        })
    ends :
        (key holder : String) (w : World)
        → LockStep w
            (record w { table = release key holder w.table; owners = without key holder w.owners })
    frees :
        (o : Owner) (l : Lease) (w : World)
        → Memᴰ o w.owners
        → o.lease ≡ some l
        → l.cancelled ≡ true
        → LockStep w (record w { table = release o.key o.holder w.table })

  pub data LockRun (w : World) : World → Type 0 where
    no_step : LockRun w w
    one_more : {w' w'' : World} → LockRun w w' → LockStep w' w'' → LockRun w w''
