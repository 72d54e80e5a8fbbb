-- ===== src/Jobs/Uploads.antt =====
-- server/uploads/actions.ts, and the cancelling of an upload in app/api/v1/uploads/[id]/route.ts: how
-- uploads change their status and get their jobs. New jobs get the column defaults of the table. An
-- upload's file name is lower case and known by its extension.
use catworld.Common.{
  ℕ, ◌+◌, String, Bool, true, false, ◌&&◌, ◌||◌, not, none, some, List, [], ◌∷◌, ◌++◌,
  if◌then◌else◌, str_eq, ltb, leb, any,
}
use catworld.Jobs.{
  queued, failed, null, Job, UploadStatus, pending_upload, queued_preview, previewing,
  awaiting_confirmation, queued_import, done, cancelled, broken, Upload, update_where, is_active,
  same_text,
}

-- What the code reads of the file: `extname` in lower case, and the size.
pub record File : Type 0 where
  pub extension : String
  pub size_bytes : ℕ

abbrev pub small_csv_threshold : ℕ
small_csv_threshold = 1048576

abbrev pub large_file_threshold : ℕ
large_file_threshold = 15728640

abbrev pub xlsx_heavy_threshold : ℕ
xlsx_heavy_threshold = 10485760

abbrev pub is_xlsx : File → Bool
is_xlsx f = str_eq f.extension ".xlsx" || str_eq f.extension ".xls"

unfoldable pub import_weight : File → String → ℕ
import_weight f mode =
    if is_xlsx f && ltb xlsx_heavy_threshold f.size_bytes
    then 2
    else if leb f.size_bytes small_csv_threshold
    then 1
    else if ltb large_file_threshold f.size_bytes
    then 2
    else if str_eq mode "replace"
    then 1
    else 2

unfoldable pub preview_weight : File → ℕ
preview_weight f =
    if ltb (if is_xlsx f then xlsx_heavy_threshold else large_file_threshold) f.size_bytes
    then 2
    else 0

-- The statuses that each transition may start from.
abbrev pub from_uploaded : UploadStatus → Bool
from_uploaded pending_upload = true
from_uploaded broken = true
from_uploaded _ = false

abbrev pub from_confirm : UploadStatus → Bool
from_confirm pending_upload = true
from_confirm awaiting_confirmation = true
from_confirm broken = true
from_confirm _ = false

abbrev pub from_retry : UploadStatus → Bool
from_retry broken = true
from_retry _ = false

abbrev pub from_preview : UploadStatus → Bool
from_preview queued_preview = true
from_preview previewing = true
from_preview _ = false

-- The statuses that can be cancelled.
abbrev pub cancellable : UploadStatus → Bool
cancellable done = false
cancellable cancelled = false
cancellable broken = false
cancellable _ = true

pub data QueueError : Type 0 where
  not_found invalid_state not_cancellable : QueueError

pub data Queued {ℓ} (A : Type ℓ) : Type ℓ where
  ok : A → Queued A
  err : QueueError → Queued A

-- `uploadId = id AND status IN ('QUEUED','RUNNING')`: such jobs fail.
abbrev pub superseded_row : String → Job → Job
superseded_row reason j = record j { status = failed; last_error = some reason }

unfoldable pub fail_active : String → String → List Job → List Job
fail_active id reason =
    update_where (λ j. same_text j.upload_id (some id) && is_active j.status)
      (superseded_row reason)

abbrev new_job : String → String → String → ℕ → ℕ → ℕ → Job
new_job job_id type upload_id max_attempts weight now = record {
  id = job_id;
  type = type;
  status = queued;
  upload_id = some upload_id;
  payload_json = null;
  attempts = 0;
  max_attempts = max_attempts;
  available_at = now;
  locked_at = none;
  locked_by = none;
  heartbeat_at = none;
  weight = weight;
  storage_server_id = none;
  last_error = none;
}

abbrev pub move_upload : UploadStatus → ℕ → Upload → Upload
move_upload status now u = record u { status = status; error_message = none; updated_at = now }

-- `guardedQueue`: `job_id` is the new job's id.
unfoldable pub guarded_queue :
    String
    → (UploadStatus → Bool)
    → UploadStatus
    → Job
    → ℕ
    → List Job
    → List Upload
    → Queued (List Job × List Upload)
guarded_queue id from to job now jobs uploads =
    if any (λ u. str_eq u.id id && from u.status) uploads
    then ok (
      fail_active id "Superseded by retry" jobs ++ job ∷ [],
      update_where (λ u. str_eq u.id id && from u.status) (move_upload to now) uploads,
    )
    else if any (λ u. str_eq u.id id) uploads
    then err invalid_state
    else err not_found

unfoldable pub queue_preview_upload :
    String
    → String
    → File
    → (UploadStatus → Bool)
    → ℕ
    → List Job
    → List Upload
    → Queued (List Job × List Upload)
unfolding preview_weight
queue_preview_upload job_id id f from now =
    guarded_queue id from queued_preview
      (new_job job_id "PREVIEW_UPLOAD" id 3 (preview_weight f) now) now

-- What `queueImportUploadAuto` and `queueImportUpload` do once the rights and the tables are checked;
-- the first takes the statuses to start from, the second `from_confirm`.
unfoldable pub queue_import_upload :
    String
    → String
    → File
    → String
    → (UploadStatus → Bool)
    → ℕ
    → List Job
    → List Upload
    → Queued (List Job × List Upload)
unfolding import_weight
queue_import_upload job_id id f mode from now =
    guarded_queue id from queued_import
      (new_job job_id "IMPORT_UPLOAD" id 5 (import_weight f mode) now) now

abbrev pub cancelled_row : ℕ → Upload → Upload
cancelled_row now u = record u {
  status = broken;
  error_message = some "Cancelado pelo usuário";
  updated_at = now;
}

-- The transaction writes whatever the status is by then; an upload that is gone undoes it.
unfoldable pub cancel_writes : String → ℕ → List Job → List Upload → Queued (List Job × List Upload)
cancel_writes id now jobs uploads =
    if any (λ u. str_eq u.id id) uploads
    then ok (
      fail_active id "Cancelled" jobs,
      update_where (λ u. str_eq u.id id) (cancelled_row now) uploads,
    )
    else err not_found

-- The cancel action: `seen` is the table that its check reads, the others those that its transaction
-- finds.
unfoldable pub cancel_upload :
    String → ℕ → List Upload → List Job → List Upload → Queued (List Job × List Upload)
unfolding cancel_writes
cancel_upload id now seen jobs uploads =
    if not (any (λ u. str_eq u.id id) seen)
    then err not_found
    else if any (λ u. str_eq u.id id && cancellable u.status) seen
    then cancel_writes id now jobs uploads
    else err not_cancellable

abbrev is_idle : UploadStatus → Bool
is_idle pending_upload = true
is_idle awaiting_confirmation = true
is_idle _ = false

-- `cancelStaleUploads`, after a day without a change.
unfoldable pub cancel_stale_uploads : ℕ → List Upload → List Upload
cancel_stale_uploads now =
    update_where (λ u. is_idle u.status && ltb (u.updated_at + 86400000) now)
      (λ u. record u {
        status = broken;
        error_message = some "Cancelado automaticamente: sem atividade por mais de 24h";
        updated_at = now;
      })
