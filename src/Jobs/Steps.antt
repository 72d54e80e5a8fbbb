-- ===== src/Jobs/Steps.antt =====
-- The steps that change the tables: each is one statement or transaction of the code, by any process. A
-- failure of a job that still runs is taken as that of the executor of its present claim (`IsCurrent`),
-- which the statement does not test: Jobs.Late says what follows otherwise.
use catworld.Common.{ℕ, String, ◌≡◌, Bool, true, false, Option, some, List, str_eq, All}
use catworld.Jobs.{PayloadJson, Job, UploadStatus, Upload, Source, Db, is_running}
use catworld.Jobs.Claim.{Asking, claim}
use catworld.Jobs.Finish.{Failure, heartbeat, complete_job, fail}
use catworld.Jobs.Recover.{recover_stale, release_self}
use catworld.Jobs.Uploads.{
  File, ok, queue_preview_upload, queue_import_upload, cancel_upload, cancel_stale_uploads,
}
use catworld.Jobs.Sources.{SourceRun, Options, queue_source_refresh}
use catworld.Jobs.Bulk.{
  cancel_all, cancel_source_runs, dismiss_failed, erase_work, retire_jobs, retire_uploads,
}
use catworld.Jobs.Chores.{
  queue_derived_refresh, Scope, queue_migration, migrate_project_job, migrate_dataset_job,
  queue_cleanup,
}

-- The row that an executor has from its claim is still its job's: while the job runs, no other claim
-- has counted an attempt.
abbrev pub IsCurrent : Job → List Job → Type 0
IsCurrent c = All (λ j.
    str_eq j.id c.id ≡ true
    → is_running j.status ≡ true
    → (j.attempts ≡ c.attempts) × (j.max_attempts ≡ c.max_attempts))

-- The id of a new row is new.
abbrev pub IsNew : String → List Job → Type 0
IsNew id = All (λ j. str_eq j.id id ≡ false)

-- All workers read the same ceilings.
pub record Ceilings : Type 0 where
  pub max_heavy : ℕ
  pub max_syncs_per_storage : ℕ

module _ (next_run : String → ℕ → Option ℕ) (keeps : String → Bool) (ceilings : Ceilings) where
  pub data Step : Db → Db → Type 0 where
    claims :
        (a : Asking) (now : ℕ) (db : Db)
        → a.max_heavy ≡ ceilings.max_heavy
        → a.max_syncs_per_storage ≡ ceilings.max_syncs_per_storage
        → Step db (record db { jobs = (claim a now db.jobs).0 })
    beats :
        (id : String) (now : ℕ) (db : Db) → Step db (record db { jobs = heartbeat id now db.jobs })
    completes : (id : String) (db : Db) → Step db (record db { jobs = complete_job id db.jobs })
    fails :
        (c : Job) (e : Failure) (now : ℕ) (db : Db)
        → IsCurrent c db.jobs
        → Step db (fail next_run c e now db)
    recovers : (now : ℕ) (db : Db) → Step db (recover_stale now db)
    releases :
        (name : String) (concurrency : ℕ) (refund : Bool) (now : ℕ) (db : Db)
        → Step db (record db { jobs = release_self name concurrency refund now db.jobs })
    previews :
        (job_id id : String) (f : File) (from : UploadStatus → Bool) (now : ℕ) (db : Db)
        (jobs' : List Job) (uploads' : List Upload)
        → IsNew job_id db.jobs
        → queue_preview_upload job_id id f from now db.jobs db.uploads ≡ ok (jobs', uploads')
        → Step db (record db { jobs = jobs'; uploads = uploads' })
    imports :
        (job_id id : String) (f : File) (mode : String) (from : UploadStatus → Bool) (now : ℕ)
        (db : Db) (jobs' : List Job) (uploads' : List Upload)
        → IsNew job_id db.jobs
        → queue_import_upload job_id id f mode from now db.jobs db.uploads ≡ ok (jobs', uploads')
        → Step db (record db { jobs = jobs'; uploads = uploads' })
    cancels :
        (id : String) (now : ℕ) (seen : List Upload) (db : Db) (jobs' : List Job)
        (uploads' : List Upload)
        → cancel_upload id now seen db.jobs db.uploads ≡ ok (jobs', uploads')
        → Step db (record db { jobs = jobs'; uploads = uploads' })
    cleans :
        (now : ℕ) (db : Db) → Step db (record db { uploads = cancel_stale_uploads now db.uploads })
    refreshes :
        (job_id id : String) (s : SourceRun) (o : Options) (now : ℕ) (db : Db) (jobs' : List Job)
        (sources' : List Source) (job : Job)
        → IsNew job_id db.jobs
        → queue_source_refresh keeps job_id id s o now db.jobs db.sources ≡ ((jobs', sources'), job)
        → Step db (record db { jobs = jobs'; sources = sources' })
    cancels_all : (now : ℕ) (db : Db) → Step db (cancel_all now db)
    cancels_runs :
        (mentions : PayloadJson → Bool) (db : Db)
        → Step db (record db { jobs = cancel_source_runs mentions db.jobs })
    dismisses : (db : Db) → Step db (record db { jobs = dismiss_failed db.jobs })
    derives :
        (job_id id : String) (now : ℕ) (db : Db)
        → IsNew job_id db.jobs
        → Step db (record db {
          jobs = (queue_derived_refresh job_id id now db.jobs db.derived).0;
          derived = (queue_derived_refresh job_id id now db.jobs db.derived).1;
        })
    migrates_project :
        (job_id project target : String) (s : Scope) (now : ℕ) (seen : List Job) (db : Db)
        (jobs' : List Job)
        → IsNew job_id db.jobs
        → queue_migration s (migrate_project_job job_id project target now) seen db.jobs
          ≡ some jobs'
        → Step db (record db { jobs = jobs' })
    migrates_dataset :
        (job_id dataset target : String) (s : Scope) (now : ℕ) (seen : List Job) (db : Db)
        (jobs' : List Job)
        → IsNew job_id db.jobs
        → queue_migration s (migrate_dataset_job job_id dataset target now) seen db.jobs
          ≡ some jobs'
        → Step db (record db { jobs = jobs' })
    sweeps :
        (job_id : String) (now : ℕ) (db : Db)
        → IsNew job_id db.jobs
        → Step db (record db { jobs = queue_cleanup job_id now db.jobs })
    erases :
        (upload_ids source_ids : List String) (named : PayloadJson → Bool) (db : Db)
        → Step db (erase_work upload_ids source_ids named db)
    retires :
        (expired : Job → Bool) (db : Db)
        → Step db (record db { jobs = retire_jobs expired db.jobs })
    retires_uploads :
        (expired : Upload → Bool) (db : Db)
        → Step db (record db { uploads = retire_uploads expired db.uploads })

  -- Any number of steps.
  pub data Run (db : Db) : Db → Type 0 where
    no_step : Run db db
    one_more : {db' db'' : Db} → Run db db' → Step db' db'' → Run db db''
