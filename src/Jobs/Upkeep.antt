-- ===== src/Jobs/Upkeep.antt =====
-- What the statements on many jobs, and those that queue the chores, do to the table of jobs.
use catworld.Common.{
  ℕ, ◌<◌, String, ◌≡◌, subst, inl, inr, Bool, true, false, ◌&&◌, none, some, List, [], ◌∷◌, ◌++◌,
  arith, refl, str_eq, any, Bool-cases,
}
use catworld.Jobs.{PayloadJson, Job, Derived, null, is_queued, is_active}
use catworld.Jobs.Bulk.{cancel_all, cancel_source_runs, dismiss_failed}
use catworld.Jobs.Chores.{
  is_derived_run, derived_job, queue_derived_refresh, Scope, queue_migration, queue_cleanup,
  system_job,
}
use catworld.Jobs.Uploads.{superseded_row}
use catworld.Jobs.Steps.{IsNew}
use catworld.Jobs.{Db}
use catworld.Jobs.Moves.{
  ends, dismisses, Move, Moves, Moves_refl, Changes, moves, grows, Moves-update, same,
}

superseded-Move :
    (reason : String) (j : Job) → is_active j.status ≡ true → Move j (superseded_row reason j)
superseded-Move reason j h =
    ends j _ h refl (same j _ (refl, refl, refl, refl, refl, refl, refl)) refl

pub Moves-cancel_all : (now : ℕ) (db : Db) → Moves db.jobs (cancel_all now db).jobs
unfolding cancel_all
Moves-cancel_all now db = Moves-update _ _ db.jobs (λ j h. superseded-Move "Cancelled" j h)

pub Moves-cancel_source_runs :
    (mentions : PayloadJson → Bool) (js : List Job) → Moves js (cancel_source_runs mentions js)
unfolding cancel_source_runs
Moves-cancel_source_runs mentions js =
    Moves-update _ _ js (λ j h. superseded-Move "Cancelado pelo usuário" j (ground arith))

pub Moves-dismiss_failed : (js : List Job) → Moves js (dismiss_failed js)
unfolding dismiss_failed
Moves-dismiss_failed js =
    Moves-update _ _ js
      (λ j h. dismisses j _ h refl (same j _ (refl, refl, refl, refl, refl, refl, refl)) refl)

-- A new row of no upload and of another type than a source's runs.
Changes-append :
    (job : Job) (jobs : List Job)
    → IsNew job.id jobs
    → is_queued job.status ≡ true
    → job.attempts < job.max_attempts
    → job.upload_id ≡ none
    → str_eq job.type "SOURCE_REFRESH" ≡ false
    → Changes jobs (jobs ++ job ∷ [])
Changes-append job jobs new q h up other =
    grows job (Moves_refl jobs) new q h
      (record { upload = λ u e. absurd (ground (arith, up)); run = λ u r e. absurd (ground arith) })

pub Changes-queue_derived_refresh :
    (job_id id : String) (now : ℕ) (jobs : List Job) (derived : List Derived)
    → IsNew job_id jobs
    → Changes jobs (queue_derived_refresh job_id id now jobs derived).0
unfolding queue_derived_refresh
Changes-queue_derived_refresh job_id id now jobs derived new =
    elim (Bool-cases (any (is_derived_run id) jobs)) [
      | inl e ↦ simp e (moves (Moves_refl jobs))
      | inr e ↦
          simp e (Changes-append (derived_job job_id id now) jobs new refl (omega arith) refl refl)
    ]

pub Changes-queue_migration :
    (s : Scope) (job : Job) (seen jobs jobs' : List Job)
    → IsNew job.id jobs
    → is_queued job.status ≡ true
    → job.attempts < job.max_attempts
    → job.upload_id ≡ none
    → str_eq job.type "SOURCE_REFRESH" ≡ false
    → queue_migration s job seen jobs ≡ some jobs'
    → Changes jobs jobs'
unfolding queue_migration
Changes-queue_migration s job seen jobs jobs' new q h up other e =
    let same_jobs : jobs ++ job ∷ [] ≡ jobs' = ground arith in
    subst (Changes jobs) same_jobs (Changes-append job jobs new q h up other)

pub Changes-queue_cleanup :
    (job_id : String) (now : ℕ) (jobs : List Job)
    → IsNew job_id jobs
    → Changes jobs (queue_cleanup job_id now jobs)
unfolding queue_cleanup
Changes-queue_cleanup job_id now jobs new =
    elim (Bool-cases (any (λ j. str_eq j.type "METADATA_CLEANUP" && is_active j.status) jobs)) [
      | inl e ↦ simp e (moves (Moves_refl jobs))
      | inr e ↦ simp e (
          Changes-append (system_job job_id "METADATA_CLEANUP" null 1 0 now) jobs new refl
            (omega arith) refl refl)
    ]
