-- ===== src/Jobs/Tests.antt =====
-- The statements on the tables of jobs, on concrete rows.
use catworld.Worker.Profiles.{to_text}
use catworld.Common.{
  ℕ, ◌+◌, ◌≤◌, String, ◌≡◌, refl, inl, ◌⊎◌, Bool, true, false, Option, none, some, List, [], ◌∷◌,
  arith, All, any, length, map, str_eq, if◌then◌else◌,
}
use catworld.Jobs.{
  JobStatus, queued, running, completed, null, Job, UploadStatus, pending_upload, importing, broken,
  Upload, Source, Db, count, find_job,
}
use catworld.Jobs.Claim.{Asking, claim, is_eligible, first_of, take_job, heavy_free, storage_free}
use catworld.Jobs.Finish.{Failure, fail, fail_job, fail_upload}
use catworld.Jobs.Recover.{recover_stale, release_self, starts_with, label, locked_by_profile}
use catworld.Jobs.Uploads.{
  File, err, invalid_state, from_uploaded, queue_preview_upload, guarded_queue, fail_active,
  import_weight, cancel_upload, cancel_writes,
}
use catworld.Jobs.Sources.{
  SourceRun, fast, long, Options, classify_source_lane, next_avg_run_ms, source_job, find_run,
  queue_source_refresh, is_active_run, enqueue_due, busy_sources,
}
use catworld.Jobs.Steps.{Ceilings, Step, claims, fails, recovers, refreshes, Run, no_step, one_more}
use catworld.Jobs.Moves.{works_on}
use catworld.Jobs.Attempts.{IsValid, Run-IsValid}
use catworld.Jobs.Endings.{HasEnded, WasDeleted, Run-HasEnded}
use catworld.Jobs.Limits.{IsInLimits, Run-IsInLimits}
use catworld.Jobs.Single.{IsSingle, Run-IsSingle}
use catworld.Jobs.Taken.{IsNext, IsRunOf, claim-IsNext}
use catworld.Jobs.Orphans.{HasNoOrphan, recover_stale-HasNoOrphan, cancelled_stays}
use catworld.Jobs.Late.{late_failure_overruns}
use catworld.Jobs.Return.{worker_label, release_self-claim}
use catworld.Jobs.Due.{enqueue_due-covers}

abbrev next_hour : String → ℕ → Option ℕ
next_hour cron now = some (now + 3600000)

abbrev keeps_none : String → Bool
keeps_none e = false

abbrev one_heavy : Ceilings
one_heavy = record { max_heavy = 1; max_syncs_per_storage = 2 }

abbrev asking : Asking
asking = record {
  locked_by = "sync-1@host";
  max_heavy = 1;
  max_syncs_per_storage = 2;
  allowed_types = none;
  allowed_weights = [];
}

abbrev small_file : File
small_file = record { extension = ".csv"; size_bytes = 1000 }

abbrev plain_run : SourceRun
plain_run = record {
  source_kind = "table";
  delta_column = none;
  last_delta_value = none;
  key_column = none;
  avg_run_ms = none;
  last_row_count = none;
  storage_server_id = none;
}

abbrev scheduled : Options
scheduled = record { reconciliation = false; manual = false; accept_drop = false }

abbrev upload : UploadStatus → Upload
upload status = record {
  id = "u1";
  status = status;
  error_message = none;
  row_count = 0;
  preview_rows = some 12;
  updated_at = 0;
}

abbrev source : Source
source = record {
  id = "s1";
  last_status = none;
  last_error = none;
  refresh_cron = some "0 * * * *";
  reconciliation_cron = none;
  next_refresh_at = some 0;
  next_reconciliation_at = none;
}

abbrev start : Db
start = record {
  jobs = [];
  uploads = upload pending_upload ∷ [];
  sources = source ∷ [];
  derived = [];
}

abbrev job : String → JobStatus → ℕ → ℕ → ℕ → Job
job id status attempts weight available_at = record {
  id = id;
  type = "IMPORT_UPLOAD";
  status = status;
  upload_id = some "u1";
  payload_json = null;
  attempts = attempts;
  max_attempts = 3;
  available_at = available_at;
  locked_at = none;
  locked_by = some "sync-1@host";
  heartbeat_at = some 0;
  weight = weight;
  storage_server_id = none;
  last_error = none;
}

abbrev broken_pipe : Failure
broken_pipe = record { message = "broken pipe"; non_retryable = false; source_busy = false }

abbrev unlocked : String → String → JobStatus → ℕ → ℕ → ℕ → Job
unlocked id type status attempts weight available_at =
    record (job id status attempts weight available_at) {
      type = type;
      locked_by = none;
      heartbeat_at = none;
    }

-- The history of a source that is refreshed: queued, claimed, failed, and claimed again.
abbrev refreshed : List Job × List Source
refreshed = (queue_source_refresh keeps_none "j1" "s1" plain_run scheduled 10 [] (source ∷ [])).0

abbrev queued_db : Db
queued_db = record start { jobs = refreshed.0; sources = refreshed.1 }

abbrev claimed_db : Db
claimed_db = record queued_db { jobs = (claim asking 20 queued_db.jobs).0 }

abbrev taken : Job
taken = take_job "sync-1@host" 20 (source_job "j1" "s1" plain_run scheduled 10)

abbrev failed_db : Db
failed_db = fail next_hour taken broken_pipe 30 claimed_db

abbrev again_db : Db
again_db = record failed_db { jobs = (claim asking 40000 failed_db.jobs).0 }

queueing : Step next_hour keeps_none one_heavy start queued_db
unfolding queue_source_refresh find_run
queueing =
    refreshes "j1" "s1" plain_run scheduled 10 start refreshed.0 refreshed.1
      (source_job "j1" "s1" plain_run scheduled 10) tt refl

failing : Step next_hour keeps_none one_heavy claimed_db failed_db
unfolding queue_source_refresh find_run claim source_job take_job first_of is_eligible heavy_free
    storage_free
failing = fails taken broken_pipe 30 claimed_db ((λ _ _. (refl, refl)), tt)

history : Run next_hour keeps_none one_heavy start again_db
history =
    one_more
      (one_more (one_more (one_more no_step queueing) (claims asking 20 queued_db refl refl))
        failing)
      (claims asking 40000 failed_db refl refl)

empty_IsValid : IsValid []
empty_IsValid = record { distinct = tt; counted = tt }

Run-IsValid_example : IsValid again_db.jobs
Run-IsValid_example = Run-IsValid next_hour keeps_none one_heavy history empty_IsValid

Run-IsInLimits_example : IsInLimits one_heavy again_db.jobs
Run-IsInLimits_example =
    Run-IsInLimits next_hour keeps_none one_heavy history empty_IsValid
      (omega arith, λ s. omega arith)

Run-IsSingle_example : IsSingle again_db.jobs
Run-IsSingle_example =
    Run-IsSingle next_hour keeps_none one_heavy history empty_IsValid
      (λ u. omega arith, λ s r. omega arith)

-- The second attempt is counted, and it is the one heavy job that runs.
again_counted : map (λ j. j.attempts) again_db.jobs ≡ 2 ∷ []
unfolding queue_source_refresh find_run claim source_job take_job first_of is_eligible heavy_free
    storage_free fail fail_job
again_counted = refl

-- A job that has ended, and a worker that would complete, fail and recover it.
abbrev ended : Db
ended = record start {
  jobs = unlocked "p1" "PREVIEW_UPLOAD" completed 1 0 0 ∷ job "i1" running 1 1 0 ∷ [];
}

late :
    Run next_hour keeps_none one_heavy ended
      (recover_stale 9000000 (fail next_hour (job "p1" running 1 0 0) broken_pipe 50 ended))
late =
    one_more
      (one_more no_step (
        fails (job "p1" running 1 0 0) broken_pipe 50 ended
          ((λ _ e. absurd (cc e)), ((λ e _. absurd (cc e)), tt))))
      (recovers 9000000 (fail next_hour (job "p1" running 1 0 0) broken_pipe 50 ended))

Run-HasEnded_example :
    HasEnded "p1" completed 1
      (recover_stale 9000000 (fail next_hour (job "p1" running 1 0 0) broken_pipe 50 ended)).jobs
    ⊎ WasDeleted next_hour keeps_none one_heavy "p1" ended
        (recover_stale 9000000 (fail next_hour (job "p1" running 1 0 0) broken_pipe 50 ended))
unfolding find_job
Run-HasEnded_example =
    Run-HasEnded next_hour keeps_none one_heavy "p1" completed 1 refl late
      (record {
        distinct = ((refl, tt), (tt, tt));
        counted = (omega arith, ((omega arith, omega arith, refl, refl), tt));
      })
      (unlocked "p1" "PREVIEW_UPLOAD" completed 1 0 0, refl, inl refl, refl)

abbrev waiting : List Job
waiting =
    unlocked "a" "DERIVED_REFRESH" queued 0 2 5
    ∷ unlocked "b" "IMPORT_UPLOAD" queued 0 1 9
    ∷ unlocked "c" "IMPORT_UPLOAD" queued 0 1 7
    ∷ []

claim-IsNext_example :
    ((claim asking 20 waiting ≡ (waiting, none))
      × All (λ k. is_eligible asking 20 waiting k ≡ false) waiting)
    ⊎ ((j k : Job) × IsNext asking 20 waiting j
        × IsRunOf "sync-1@host" 20 j k
        × ((claim asking 20 waiting).1 ≡ some k)
        × (map (λ i. i.id) (claim asking 20 waiting).0 ≡ map (λ i. i.id) waiting)
        × ((id : String)
            → find_job id (claim asking 20 waiting).0
              ≡ (if str_eq id j.id then some k else find_job id waiting)))
claim-IsNext_example = claim-IsNext asking 20 waiting ((refl, (refl, tt)), ((refl, tt), (tt, tt)))

-- The lightest, and of those the one that waits longest.
claims_c :
    (claim asking 20 waiting).1
    ≡ some (take_job "sync-1@host" 20 (unlocked "c" "IMPORT_UPLOAD" queued 0 1 7))
unfolding claim first_of is_eligible heavy_free storage_free
claims_c = refl

recover_stale-HasNoOrphan_example : HasNoOrphan 9000000 (recover_stale 9000000 ended)
recover_stale-HasNoOrphan_example = recover_stale-HasNoOrphan 9000000 ended

abbrev importing_job : Job
importing_job = job "i1" running 1 1 0

cancelled_stays_example :
    (count (works_on "u1") (fail_active "u1" "Cancelled" (importing_job ∷ [])) ≡ 0)
    × (fail_upload importing_job broken_pipe 60 (
          record (upload broken) { error_message = some "Cancelado pelo usuário"; updated_at = 50 }
          ∷ [])
        ≡ record (upload broken) { error_message = some "Cancelado pelo usuário"; updated_at = 50 }
          ∷ [])
unfolding cancel_upload cancel_writes
cancelled_stays_example =
    cancelled_stays "u1" 50 60 (upload pending_upload ∷ []) (importing_job ∷ [])
      (upload importing ∷ []) (fail_active "u1" "Cancelled" (importing_job ∷ []))
      (record (upload broken) { error_message = some "Cancelado pelo usuário"; updated_at = 50 }
        ∷ [])
      importing_job broken_pipe refl refl

late_failure_overruns_example :
    (k : Job) × (find_job "i1"
        (fail_job (job "i1" running 2 1 0) broken_pipe 60 (job "i1" running 3 1 0 ∷ []))
      ≡ some k)
    × (k.status ≡ queued)
    × (k.attempts ≡ k.max_attempts)
unfolding find_job
late_failure_overruns_example =
    late_failure_overruns (job "i1" running 2 1 0) broken_pipe 60 (job "i1" running 3 1 0 ∷ [])
      (job "i1" running 3 1 0) refl refl refl (omega arith) refl

abbrev own_asking : Asking
own_asking = record asking { locked_by = worker_label "sync" 1 "host" }

release_self-claim_example :
    (j k : Job) × (find_job "c" waiting ≡ some j)
    × (find_job "c" (release_self "sync" 2 true 50 (claim own_asking 20 waiting).0) ≡ some k)
    × (k.status ≡ j.status)
    × (k.attempts ≡ j.attempts)
unfolding claim first_of is_eligible heavy_free storage_free take_job
release_self-claim_example =
    release_self-claim own_asking 20 50 waiting "sync" 2 1 "host"
      (take_job own_asking.locked_by 20 (unlocked "c" "IMPORT_UPLOAD" queued 0 1 7))
      ((refl, (refl, tt)), ((refl, tt), (tt, tt))) (omega arith) (omega arith) refl refl

-- Two sources are due, and one of them runs.
enqueue_due-covers_example :
    All
      (λ id.
        any
          (is_active_run id false)
          (enqueue_due keeps_none
            (λ id. id)
            (λ id. plain_run)
            false
            50
            ("s1" ∷ "s2" ∷ [])
            (taken ∷ [])
            []).0
        ≡ true)
      ("s1" ∷ "s2" ∷ [])
    × (length
          (enqueue_due keeps_none
            (λ id. id)
            (λ id. plain_run)
            false
            50
            ("s1" ∷ "s2" ∷ [])
            (taken ∷ [])
            []).0
        ≤ 1 + 50)
unfolding busy_sources take_job source_job
enqueue_due-covers_example =
    enqueue_due-covers keeps_none (λ id. id) (λ id. plain_run) false 50 ("s1" ∷ "s2" ∷ [])
      (taken ∷ []) [] (omega arith)

-- A new file starts from its upload, and not twice.
queued_preview_twice :
    queue_preview_upload "p2" "u1" small_file from_uploaded 10 [] (upload importing ∷ [])
    ≡ err invalid_state
unfolding queue_preview_upload guarded_queue
queued_preview_twice = refl

heavy_imports :
    map
      (λ m. import_weight (record { extension = ".csv"; size_bytes = 2000000 }) m)
      ("replace" ∷ "append" ∷ [])
    ≡ 1 ∷ 2 ∷ []
unfolding import_weight
heavy_imports = refl

lane_limits :
    map
      (λ ms. classify_source_lane (record plain_run { avg_run_ms = some ms }) false)
      (119999 ∷ 120000 ∷ [])
    ≡ fast ∷ long ∷ []
unfolding classify_source_lane
lane_limits = refl

moving_average : next_avg_run_ms (some 1000) 2000 ≡ 1300
unfolding next_avg_run_ms
moving_average = refl

-- The name of another loop with the same beginning is not the profile's.
other_owner :
    map
      (λ o. locked_by_profile "sync" 2 o)
      (some "sync-1@host" ∷ some "sync-2" ∷ some "sync-11@host" ∷ none ∷ [])
    ≡ true ∷ true ∷ false ∷ false ∷ []
unfolding locked_by_profile starts_with label to_text
other_owner = refl
