-- ===== src/Jobs/Finish.antt =====
-- worker/index.ts and worker/metrics.ts: the pulse of a job, its completion and its failure. A job as
-- its executor knows it is the row that `claim` returned. `next_run` stands for croner: the next time
-- of a cron expression, if it has one.
use catworld.Common.{
  ℕ, ◌+◌, ◌*◌, min, String, Bool, true, false, ◌&&◌, ◌||◌, not, Option, none, some, List,
  if◌then◌else◌, str_eq, ltb, ◌==◌,
}
use catworld.Jobs.{
  queued, completed, failed, Payload, PayloadJson, null, malformed, parsed, Job, UploadStatus,
  pending_upload, queued_preview, previewing, awaiting_confirmation, queued_import, importing,
  retrying, done, cancelled, broken, Upload, Source, Derived, Db, update_where, is_running,
  same_text,
}

-- An exception: its message, and what `isNonRetryable` and `isSourceBusyError` say of it.
pub record Failure : Type 0 where
  pub message : String
  pub non_retryable : Bool
  pub source_busy : Bool

-- `startHeartbeat`, one beat: it does not look at the status.
unfoldable pub heartbeat : String → ℕ → List Job → List Job
heartbeat id now = update_where (λ j. str_eq j.id id) (λ j. record j { heartbeat_at = some now })

abbrev pub held : String → Job → Bool
held id j = str_eq j.id id && is_running j.status

abbrev pub completed_row : Job → Job
completed_row j = record j {
  status = completed;
  locked_at = none;
  locked_by = none;
  heartbeat_at = none;
  last_error = none;
}

unfoldable pub complete_job : String → List Job → List Job
complete_job id = update_where (held id) completed_row

abbrev pub will_retry : Job → Failure → Bool
will_retry c e = ltb c.attempts c.max_attempts && not e.non_retryable

abbrev pub failed_row : Job → Failure → ℕ → Job → Job
failed_row c e now j = record j {
  status = if will_retry c e then queued else failed;
  last_error = some e.message;
  available_at = now + min (c.attempts * 30000) 120000;
  locked_at = none;
  locked_by = none;
  heartbeat_at = none;
}

unfoldable pub fail_job : Job → Failure → ℕ → List Job → List Job
fail_job c e now = update_where (held c.id) (failed_row c e now)

-- The statuses that a failure may overwrite.
abbrev pub in_progress : UploadStatus → Bool
in_progress pending_upload = true
in_progress queued_preview = true
in_progress previewing = true
in_progress awaiting_confirmation = true
in_progress queued_import = true
in_progress importing = true
in_progress retrying = true
in_progress done = false
in_progress cancelled = false
in_progress broken = false

-- `restoreRowCount`: the rows of the preview, for a count that an import has set to 0.
abbrev restored : Upload → ℕ
restored u = elim u.preview_rows [
  | none ↦ u.row_count
  | some n ↦ if u.row_count == 0 && ltb 0 n then n else u.row_count
]

unfoldable pub fail_upload : Job → Failure → ℕ → List Upload → List Upload
fail_upload c e now =
    update_where (λ u. same_text c.upload_id (some u.id) && in_progress u.status)
      (λ u. record u {
        status = if will_retry c e then retrying else broken;
        error_message = some e.message;
        row_count = restored u;
        updated_at = now;
      })

abbrev no_payload : Payload
no_payload = record {
  dataset_source_id = none;
  derived_table_id = none;
  project_id = none;
  dataset_id = none;
  target_storage_server_id = none;
  reconciliation = false;
  manual = false;
  accept_drop = false;
}

-- `JSON.parse(job.payload_json ?? "{}")`, or nothing where it throws.
abbrev pub read_payload : PayloadJson → Option Payload
read_payload null = some no_payload
read_payload malformed = none
read_payload (parsed p) = some p

-- `if (!id)`: an empty text counts as missing.
abbrev pub given : Option String → Option String
given none = none
given (some id) = if str_eq id "" then none else some id

module _ (next_run : String → ℕ → Option ℕ) where
  -- `nextRefreshFromCron`.
  unfoldable pub next_refresh_from_cron : Option String → ℕ → Option ℕ
  next_refresh_from_cron none now = none
  next_refresh_from_cron (some cron) now = if str_eq cron "" then none else next_run cron now

  -- The time that a final failure sets: of the source's cron, or of that of its reconciliation.
  unfoldable pub source_next : Payload → Option Source → ℕ → Option ℕ
  unfolding next_refresh_from_cron
  source_next p none now = none
  source_next p (some s) now =
      next_refresh_from_cron (if p.reconciliation then s.reconciliation_cron else s.refresh_cron)
        now

  -- While attempts are left, the time stays as it is.
  unfoldable pub fail_one_source : Job → Failure → ℕ → Payload → Source → Source
  unfolding source_next
  fail_one_source c e now p s =
      let next = source_next p (some s) now in
      let marked = record s {
        last_status = some (if will_retry c e then "queued" else "failed");
        last_error = some e.message;
      } in
      if will_retry c e
      then marked
      else if p.reconciliation
      then record marked { next_reconciliation_at = next }
      else record marked { next_refresh_at = next }

  unfoldable pub fail_source : Job → Failure → ℕ → List Source → List Source
  unfolding fail_one_source
  fail_source c e now sources =
      if not (str_eq c.type "SOURCE_REFRESH") || e.source_busy
      then sources
      else elim (read_payload c.payload_json) [
        | none ↦ sources
        | some p ↦ elim (given p.dataset_source_id) [
          | none ↦ sources
          | some id ↦ update_where (λ s. str_eq s.id id) (fail_one_source c e now p) sources
        ]
      ]

  fail_one_derived : Job → Failure → ℕ → Derived → Derived
  unfolding next_refresh_from_cron
  fail_one_derived c e now d =
      let marked = record d {
        last_status = some (if will_retry c e then "queued" else "failed");
        last_error = some e.message;
      } in
      if will_retry c e
      then marked
      else record marked { next_refresh_at = next_refresh_from_cron d.refresh_cron now }

  unfoldable pub fail_derived : Job → Failure → ℕ → List Derived → List Derived
  unfolding fail_one_derived
  fail_derived c e now derived =
      if not (str_eq c.type "DERIVED_REFRESH")
      then derived
      else elim (read_payload c.payload_json) [
        | none ↦ derived
        | some p ↦ elim (given p.derived_table_id) [
          | none ↦ derived
          | some id ↦ update_where (λ d. str_eq d.id id) (fail_one_derived c e now) derived
        ]
      ]

  -- The transaction of `fail`.
  unfoldable pub fail : Job → Failure → ℕ → Db → Db
  fail c e now db = record {
    jobs = fail_job c e now db.jobs;
    uploads = fail_upload c e now db.uploads;
    sources = fail_source c e now db.sources;
    derived = fail_derived c e now db.derived;
  }
