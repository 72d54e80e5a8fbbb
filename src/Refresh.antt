-- ===== src/Refresh.antt =====
-- server/connections/sources.ts, `refreshDatasetSource`: the lease by which one round at a time refreshes
-- a source. A round is known by its lease (a fresh UUID). Times are in milliseconds.
pub mod Steps
pub mod Held
pub mod Exclusion
pub mod Late
pub mod Plan
pub mod Keys
pub mod Skips
pub mod Whole
pub mod Marks
pub mod Guard
pub mod Tests
use catworld.Common.{
  ℕ, ◌+◌, ◌*◌, ◌/◌, max, String, Bool, true, false, ◌&&◌, ◌||◌, not, Option, none, some, List, [],
  ◌∷◌, if◌then◌else◌, str_eq, leb, ltb,
}
use catworld.Jobs.{same_text}

-- Of the row of the source, what the lease is about.
pub record SourceRow : Type 0 where
  pub last_status : Option String
  pub last_error : Option String
  pub updated_at : ℕ

-- Before and after the check that stands before the swap of the tables.
pub data Phase : Type 0 where
  reading swapping : Phase

-- The variables of a round: `leaseLost` and `heartbeatFailures`, and when its timer fired last.
pub record Round : Type 0 where
  pub lease : String
  pub phase : Phase
  pub lease_lost : Bool
  pub heartbeat_failures : ℕ
  pub fired_at : ℕ

abbrev pub lease_heartbeat_ms : ℕ
lease_heartbeat_ms = 60000

abbrev pub is_busy : SourceRow → Bool
is_busy row = same_text row.last_status (some "running")

abbrev pub leased_row : String → ℕ → SourceRow → SourceRow
leased_row lease now row = record row {
  last_status = some "running";
  last_error = some lease;
  updated_at = now;
}

-- The two conditional updates: a source that no round runs, or one whose owner has not renewed its
-- lease for the minutes of the settings. The Boolean says whether the lease was taken.
unfoldable pub take_lease : ℕ → String → ℕ → SourceRow → SourceRow × Bool
take_lease stale_lease_minutes lease now row =
    if not (is_busy row)
    then (leased_row lease now row, true)
    else if ltb (row.updated_at + stale_lease_minutes * 60000) now
    then (leased_row lease now row, true)
    else (row, false)

abbrev pub new_round : String → ℕ → Round
new_round lease now = record {
  lease = lease;
  phase = reading;
  lease_lost = false;
  heartbeat_failures = 0;
  fired_at = now;
}

unfoldable pub max_heartbeat_failures : ℕ → ℕ
max_heartbeat_failures stale_lease_minutes =
    max 2 (stale_lease_minutes * 60000 / lease_heartbeat_ms / 2)

abbrev pub is_owned : String → SourceRow → Bool
is_owned lease row = is_busy row && same_text row.last_error (some lease)

abbrev pub renewed : ℕ → SourceRow → Bool → SourceRow × Bool
renewed now row true = (record row { updated_at = now }, true)
renewed now row false = (row, false)

-- The update of a heartbeat, and whether it met the row.
unfoldable pub renew : String → ℕ → SourceRow → SourceRow × Bool
renew lease now row = renewed now row (is_owned lease row)

-- The answer to a heartbeat, and its failure.
unfoldable pub beat_answered : Bool → ℕ → Round → Round
beat_answered met now r = record r {
  heartbeat_failures = 0;
  lease_lost = r.lease_lost || not met;
  fired_at = now;
}

unfoldable pub beat_missed : ℕ → ℕ → Round → Round
beat_missed stale_lease_minutes now r = record r {
  heartbeat_failures = r.heartbeat_failures + 1;
  lease_lost =
      r.lease_lost || leb (max_heartbeat_failures stale_lease_minutes) (r.heartbeat_failures + 1);
  fired_at = now;
}

-- `assertLease`, which throws where the lease is lost, before the swap.
unfoldable pub assert_lease : Round → Option Round
assert_lease r = if r.lease_lost then none else some (record r { phase = swapping })

-- The last update of a round: by id, whoever has the lease.
unfoldable pub end_round : String → Option String → ℕ → SourceRow → SourceRow
end_round status last_error now row = record row {
  last_status = some status;
  last_error = last_error;
  updated_at = now;
}

-- The `catch` of a round: nothing is written if the lease is lost.
unfoldable pub fail_round : Round → String → ℕ → SourceRow → SourceRow
unfolding end_round
fail_round r message now row =
    if r.lease_lost then row else end_round "failed" (some message) now row

-- What the worker's `fail` writes of the source when a job of it fails, and what `recoverStale` writes
-- of a source that runs without an active job (the dates of the next runs are left out). Neither looks
-- at the lease.
unfoldable pub job_failed_row : Bool → String → ℕ → SourceRow → SourceRow
unfolding end_round
job_failed_row retry message now row =
    end_round (if retry then "queued" else "failed") (some message) now row

unfoldable pub recovered_source_row : ℕ → SourceRow → SourceRow
unfolding end_round
recovered_source_row now row =
    if is_busy row then end_round "failed" (some "Processamento interrompido") now row else row

-- `queuedUpdates`, as in Jobs.Sources: a source that runs stays as it is.
unfoldable pub queue_row : Option String → ℕ → SourceRow → SourceRow
queue_row last_error now row =
    if is_busy row
    then row
    else record row { last_status = some "queued"; last_error = last_error; updated_at = now }

-- worker/source-failure.ts: the code of an error.
unfoldable pub is_source_busy_error : Option String → Bool
is_source_busy_error code = same_text code (some "SOURCE_REFRESH_IN_PROGRESS")
