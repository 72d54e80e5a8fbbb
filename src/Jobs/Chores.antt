-- ===== src/Jobs/Chores.antt =====
-- The jobs that belong to no upload and no source: `queueDerivedRefresh` of
-- server/connections/derived.ts, the migrations of app/api/v1/*/[id]/migrate-storage with
-- `findActiveMigrationConflict` of server/storage/migrate.ts, the cleanup that worker/index.ts and
-- app/api/v1/settings/retention/purge queue.
use catworld.Common.{
  ℕ, String, Bool, false, ◌&&◌, ◌||◌, not, Option, none, some, List, [], ◌∷◌, ◌++◌, if◌then◌else◌,
  str_eq, any, includes,
}
use catworld.Jobs.{
  queued, Payload, PayloadJson, null, malformed, parsed, Job, Derived, update_where, is_queued,
  is_active, same_text,
}

-- A new row, with the column defaults of the table.
abbrev pub system_job : String → String → PayloadJson → ℕ → ℕ → ℕ → Job
system_job job_id type payload max_attempts weight now = record {
  id = job_id;
  type = type;
  status = queued;
  upload_id = none;
  payload_json = payload;
  attempts = 0;
  max_attempts = max_attempts;
  available_at = now;
  locked_at = none;
  locked_by = none;
  heartbeat_at = none;
  weight = weight;
  storage_server_id = none;
  last_error = none;
}

abbrev pub empty_payload : Payload
empty_payload = record {
  dataset_source_id = none;
  derived_table_id = none;
  project_id = none;
  dataset_id = none;
  target_storage_server_id = none;
  reconciliation = false;
  manual = false;
  accept_drop = false;
}

abbrev pub derived_job : String → String → ℕ → Job
derived_job job_id id now =
    system_job job_id "DERIVED_REFRESH"
      (parsed (record empty_payload { derived_table_id = some id })) 2 2 now

abbrev pub is_derived_run : String → Job → Bool
is_derived_run id j = str_eq j.type "DERIVED_REFRESH" && is_active j.status && names j.payload_json
  where
    names : PayloadJson → Bool
    names (parsed p) = same_text p.derived_table_id (some id)
    names _ = false

abbrev mark_derived : String → List Derived → List Derived
mark_derived id =
    update_where (λ d. str_eq d.id id)
      (λ d. record d { last_status = some "queued"; last_error = none })

-- An active refresh stands for a new one.
unfoldable pub queue_derived_refresh :
    String → String → ℕ → List Job → List Derived → List Job × List Derived
queue_derived_refresh job_id id now jobs derived =
    if any (is_derived_run id) jobs
    then (
      jobs,
      if any (λ j. is_derived_run id j && is_queued j.status) jobs
          then mark_derived id derived
          else derived,
    )
    else (jobs ++ derived_job job_id id now ∷ [], mark_derived id derived)

-- What a migration would copy; no id is `none`.
pub record Scope : Type 0 where
  pub project_id : Option String
  pub dataset_id : Option String
  pub dataset_ids : List String

-- `a && a === b`: an empty text does not count.
abbrev meets : Option String → Option String → Bool
meets a b = same_text a b && not (same_text a (some ""))

abbrev is_listed : Option String → List String → Bool
is_listed none ids = false
is_listed (some a) ids = not (str_eq a "") && includes a ids

abbrev migrates_same : Scope → String → PayloadJson → Bool
migrates_same s type null = false
migrates_same s type malformed = false
migrates_same s type (parsed p) =
    (str_eq type "MIGRATE_STORAGE_PROJECT" && meets p.project_id s.project_id)
    || (str_eq type "MIGRATE_STORAGE_DATASET"
        && (meets p.dataset_id s.dataset_id || is_listed p.dataset_id s.dataset_ids))

unfoldable pub has_migration_conflict : Scope → List Job → Bool
has_migration_conflict s = any (λ j. is_active j.status && migrates_same s j.type j.payload_json)

-- `seen` is the table that the check reads, `jobs` the one that the new row is put into.
unfoldable pub queue_migration : Scope → Job → List Job → List Job → Option (List Job)
unfolding has_migration_conflict
queue_migration s job seen jobs =
    if has_migration_conflict s seen then none else some (jobs ++ job ∷ [])

abbrev pub migrate_project_job : String → String → String → ℕ → Job
migrate_project_job job_id project target now =
    system_job job_id "MIGRATE_STORAGE_PROJECT"
      (parsed (record empty_payload {
        project_id = some project;
        target_storage_server_id = some target;
      }))
      3 2 now

abbrev pub migrate_dataset_job : String → String → String → ℕ → Job
migrate_dataset_job job_id dataset target now =
    system_job job_id "MIGRATE_STORAGE_DATASET"
      (parsed (record empty_payload {
        dataset_id = some dataset;
        target_storage_server_id = some target;
      }))
      3 2 now

-- `INSERT ... WHERE NOT EXISTS`, one statement.
unfoldable pub queue_cleanup : String → ℕ → List Job → List Job
queue_cleanup job_id now jobs =
    if any (λ j. str_eq j.type "METADATA_CLEANUP" && is_active j.status) jobs
    then jobs
    else jobs ++ system_job job_id "METADATA_CLEANUP" null 1 0 now ∷ []
