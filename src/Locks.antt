-- ===== src/Locks.antt =====
-- server/db/import-lock.ts, with the token of server/db/job-cancel.ts: the lock of an import on its
-- table, a row that its holder renews. Times are in milliseconds; the clocks of the processes and of the
-- database are one.
pub mod Steps
pub mod Holders
pub mod Backed
pub mod Kept
pub mod Changes
pub mod Exclusion
pub mod Waiting
pub mod Tests
use catworld.Common.{
  ℕ, zero, suc, ◌+◌, String, Bool, true, false, ◌&&◌, ◌||◌, not, Option, none, some, if◌then◌else◌,
  str_eq, leb, ltb,
}

pub record LockRow : Type 0 where
  pub locked_by : String
  pub expires_at : ℕ

-- The table cw_import_locks, by its key.
abbrev pub LockTable : Type 0
LockTable = String → Option LockRow

abbrev pub put_row : String → Option LockRow → LockTable → LockTable
put_row key row table = λ k. if str_eq k key then row else table k

abbrev pub lease_ms : ℕ
lease_ms = 120000

abbrev pub is_free : ℕ → Option LockRow → Bool
is_free now none = true
is_free now (some row) = ltb row.expires_at now

abbrev pub taken : String → String → ℕ → LockTable → Bool → LockTable × Bool
taken key holder now table true =
    (put_row key (some (record { locked_by = holder; expires_at = now + lease_ms })) table, true)
taken key holder now table false = (table, false)

-- `INSERT ... ON CONFLICT DO UPDATE ... WHERE expires_at < now()`.
unfoldable pub try_acquire : String → String → ℕ → LockTable → LockTable × Bool
try_acquire key holder now table = taken key holder now table (is_free now (table key))

abbrev pub is_held_by : String → Option LockRow → Bool
is_held_by holder none = false
is_held_by holder (some row) = str_eq row.locked_by holder

-- The update of a renewal, and whether it met a row. The holder stays.
abbrev pub extended : String → String → ℕ → LockTable → Bool → LockTable × Bool
extended key holder now table true =
    (put_row key (some (record { locked_by = holder; expires_at = now + lease_ms })) table, true)
extended key holder now table false = (table, false)

unfoldable pub renew_lock : String → String → ℕ → LockTable → LockTable × Bool
renew_lock key holder now table = extended key holder now table (is_held_by holder (table key))

-- Deletes the row of the holder only.
unfoldable pub release : String → String → LockTable → LockTable
release key holder table = if is_held_by holder (table key) then put_row key none table else table

-- The variables of `withImportLock` while `fn` runs, and the token of its job.
pub record Lease : Type 0 where
  pub key : String
  pub holder : String
  pub lost : Bool
  pub last_ok_at : ℕ
  pub cancelled : Bool

abbrev pub new_lease : String → String → ℕ → Bool → Lease
new_lease key holder now cancelled = record {
  key = key;
  holder = holder;
  lost = false;
  last_ok_at = now;
  cancelled = cancelled;
}

-- The answer to a renewal, and its failure.
unfoldable pub renewal_answered : Bool → ℕ → Lease → Lease
renewal_answered true now l = record l { last_ok_at = now }
renewal_answered false now l = record l { lost = true }

unfoldable pub renewal_failed : ℕ → Lease → Lease
renewal_failed now l = record l { lost = l.lost || leb (l.last_ok_at + lease_ms) now }

-- `lease.lost`.
unfoldable pub is_lost : ℕ → Lease → Bool
is_lost now l = l.lost || leb (l.last_ok_at + lease_ms) now

-- `lease.assert()` returns.
unfoldable pub passes_assert : ℕ → Lease → Bool
passes_assert now l = not (is_lost now l) && not l.cancelled

-- `watchJobStatus`, one look: none is a failure to read.
unfoldable pub watch : Option (Option String) → Lease → Lease
watch none l = l
watch (some none) l = record l { cancelled = true }
watch (some (some status)) l = record l { cancelled = l.cancelled || not (str_eq status "RUNNING") }

-- The loop that waits for the lock: `free` says whether an attempt at that time takes it. The result is
-- `none` without fuel, `some none` where it throws, and else the time.
unfoldable pub wait_lock : ℕ → (ℕ → Bool) → ℕ → ℕ → ℕ → Option (Option ℕ)
wait_lock zero free poll deadline now = none
wait_lock (suc fuel) free poll deadline now =
    let rest = wait_lock fuel free poll deadline (now + poll) in
    if free now then some (some now) else if leb deadline now then some none else rest
