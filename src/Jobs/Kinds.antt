-- ===== src/Jobs/Kinds.antt =====
-- Every step is a claim, or changes the jobs row by row.
use catworld.Common.{ℕ, String, ◌≡◌, refl, ◌⊎◌, inl, inr, Bool, Option, List, arith}
use catworld.Jobs.{Job, Db}
use catworld.Jobs.Claim.{Asking, claim}
use catworld.Jobs.Finish.{fail}
use catworld.Jobs.Recover.{recover_stale}
use catworld.Jobs.Uploads.{queue_preview_upload, queue_import_upload}
use catworld.Jobs.Bulk.{erase_work, retire_jobs}
use catworld.Jobs.Upkeep.{
  Moves-cancel_all, Moves-cancel_source_runs, Moves-dismiss_failed, Changes-queue_derived_refresh,
  Changes-queue_migration, Changes-queue_cleanup,
}
use catworld.Jobs.Steps.{Ceilings, Step}
use catworld.Jobs.Moves.{
  Changes, moves, shrinks, Moves_refl, Moves-heartbeat, Moves-complete_job, Moves-fail_job,
  Moves-recover,
}
use catworld.Jobs.Releases.{Moves-release}
use catworld.Jobs.Growth.{
  Changes-guarded_queue, Changes-cancel_upload, Changes-queue_source_refresh,
}

-- The jobs after a claim with these ceilings.
pub record Claimed (ceilings : Ceilings) (jobs jobs' : List Job) : Type 0 where
  pub asking : Asking
  pub now : ℕ
  pub heavy : asking.max_heavy ≡ ceilings.max_heavy
  pub syncs : asking.max_syncs_per_storage ≡ ceilings.max_syncs_per_storage
  pub after : jobs' ≡ (claim asking now jobs).0

module _ (next_run : String → ℕ → Option ℕ) (keeps : String → Bool) (ceilings : Ceilings) where
  pub Step-kind :
      {db db' : Db}
      → Step next_run keeps ceilings db db'
      → Claimed ceilings db.jobs db'.jobs ⊎ Changes db.jobs db'.jobs
  unfolding fail recover_stale queue_preview_upload queue_import_upload erase_work retire_jobs
  Step-kind (Step.claims a now db h s) =
      inl (record { asking = a; now = now; heavy = h; syncs = s; after = refl })
  Step-kind (Step.beats id now db) = inr (moves (Moves-heartbeat id now db.jobs))
  Step-kind (Step.completes id db) = inr (moves (Moves-complete_job id db.jobs))
  Step-kind (Step.fails c e now db current) = inr (moves (Moves-fail_job c e now db.jobs current))
  Step-kind (Step.recovers now db) = inr (moves (Moves-recover now db.jobs))
  Step-kind (Step.releases name n refund now db) =
      inr (moves (Moves-release name n refund now db.jobs))
  Step-kind (Step.previews job_id id f from now db jobs' uploads' new e) = inr (
      Changes-guarded_queue id from _ _ now db.jobs db.uploads jobs' uploads' new refl (omega arith)
        refl refl e)
  Step-kind (Step.imports job_id id f mode from now db jobs' uploads' new e) = inr (
      Changes-guarded_queue id from _ _ now db.jobs db.uploads jobs' uploads' new refl (omega arith)
        refl refl e)
  Step-kind (Step.cancels id now seen db jobs' uploads' e) =
      inr (Changes-cancel_upload id now seen db.jobs db.uploads jobs' uploads' e)
  Step-kind (Step.cleans now db) = inr (moves (Moves_refl db.jobs))
  Step-kind (Step.refreshes job_id id s o now db jobs' sources' job new e) = inr (
      Changes-queue_source_refresh keeps job_id id s o now db.jobs db.sources jobs' sources' job new
        e)
  Step-kind (Step.cancels_all now db) = inr (moves (Moves-cancel_all now db))
  Step-kind (Step.cancels_runs mentions db) =
      inr (moves (Moves-cancel_source_runs mentions db.jobs))
  Step-kind (Step.dismisses db) = inr (moves (Moves-dismiss_failed db.jobs))
  Step-kind (Step.derives job_id id now db new) =
      inr (Changes-queue_derived_refresh job_id id now db.jobs db.derived new)
  Step-kind (Step.migrates_project job_id project target s now seen db jobs' new e) =
      inr (Changes-queue_migration s _ seen db.jobs jobs' new refl (omega arith) refl refl e)
  Step-kind (Step.migrates_dataset job_id dataset target s now seen db jobs' new e) =
      inr (Changes-queue_migration s _ seen db.jobs jobs' new refl (omega arith) refl refl e)
  Step-kind (Step.sweeps job_id now db new) = inr (Changes-queue_cleanup job_id now db.jobs new)
  Step-kind (Step.erases upload_ids source_ids named db) = inr (shrinks _)
  Step-kind (Step.retires expired db) = inr (shrinks _)
  Step-kind (Step.retires_uploads expired db) = inr (moves (Moves_refl db.jobs))
