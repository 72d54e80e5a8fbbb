-- ===== src/Jobs/Bulk.antt =====
-- The statements on many jobs at once: app/api/v1/uploads/cancel-all and dismiss-failed, the cancel
-- action of app/api/v1/dataset-sources/[id]/refresh, the deletions of server/data/catalog.ts and the
-- retention of worker/index.ts.
use catworld.Common.{
  ℕ, String, Bool, true, false, ◌&&◌, ◌||◌, not, none, some, List, str_eq, keep, includes,
}
use catworld.Jobs.{
  completed, PayloadJson, Job, Upload, UploadStatus, done, cancelled, broken, Db, update_where,
  is_active, is_failed,
}
use catworld.Jobs.Uploads.{cancellable, cancelled_row, superseded_row}

-- `POST` of cancel-all, one transaction.
unfoldable pub cancel_all : ℕ → Db → Db
cancel_all now db = record db {
  uploads = update_where (λ u. cancellable u.status) (cancelled_row now) db.uploads;
  jobs = update_where (λ j. is_active j.status) (superseded_row "Cancelled") db.jobs;
}

-- The cancel action of a source; `mentions` is the database's `contains` on the text of the payload.
unfoldable pub cancel_source_runs : (PayloadJson → Bool) → List Job → List Job
cancel_source_runs mentions =
    update_where
      (λ j. str_eq j.type "SOURCE_REFRESH" && is_active j.status && mentions j.payload_json)
      (superseded_row "Cancelado pelo usuário")

-- `POST` of dismiss-failed.
unfoldable pub dismiss_failed : List Job → List Job
dismiss_failed =
    update_where (λ j. is_failed j.status) (λ j. record j { status = completed; last_error = none })

abbrev belongs_to : List String → (PayloadJson → Bool) → Job → Bool
belongs_to upload_ids named j =
    (elim j.upload_id [ none ↦ false | some id ↦ includes id upload_ids ]) || named j.payload_json

-- The transaction of `deleteDatasetSource` and its like: `named` compares the payload's text with those
-- of the sources.
unfoldable pub erase_work : List String → List String → (PayloadJson → Bool) → Db → Db
erase_work upload_ids source_ids named db = record db {
  jobs = keep (λ j. not (belongs_to upload_ids named j)) db.jobs;
  uploads = keep (λ u. not (includes u.id upload_ids)) db.uploads;
  sources = keep (λ s. not (includes s.id source_ids)) db.sources;
}

abbrev is_over : UploadStatus → Bool
is_over done = true
is_over cancelled = true
is_over broken = true
is_over _ = false

-- A batch of the retention: jobs that have ended and that `expired` counts as old.
unfoldable pub retire_jobs : (Job → Bool) → List Job → List Job
retire_jobs expired = keep (λ j. not (not (is_active j.status) && expired j))

unfoldable pub retire_uploads : (Upload → Bool) → List Upload → List Upload
retire_uploads expired = keep (λ u. not (is_over u.status && expired u))
