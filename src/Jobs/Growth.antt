-- ===== src/Jobs/Growth.antt =====
-- What the statements that queue and cancel work do to the table of jobs.
use catworld.Common.{
  ℕ, ◌<◌, String, ◌≡◌, refl, subst, inl, inr, Bool, true, false, ◌&&◌, not, Option, none, some,
  List, [], ◌∷◌, ◌++◌, arith, if◌then◌else◌, str_eq, Option-cases, eq_iff,
}
use catworld.Jobs.{Job, is_queued, is_active, same_text, count, UploadStatus, Upload, Source}
use catworld.Jobs.Uploads.{
  ok, superseded_row, fail_active, guarded_queue, cancel_writes, cancel_upload,
}
use catworld.Jobs.Sources.{
  SourceRun, Options, is_active_run, find_run, source_job, queue_source_refresh,
}
use catworld.Jobs.Steps.{IsNew}
use catworld.Jobs.Moves.{
  ends, Moves, Moves_refl, works_on, IsOnly, Changes, moves, grows, Moves-update, and_right, same,
}

pub Moves-fail_active : (id reason : String) (js : List Job) → Moves js (fail_active id reason js)
unfolding fail_active
Moves-fail_active id reason js = Moves-update _ (superseded_row reason) js (λ j h.
    ends j _ (and_right (same_text j.upload_id (some id)) (is_active j.status) h) refl
      (same j _ (refl, refl, refl, refl, refl, refl, refl)) refl)

pub none_active :
    (id reason : String) (js : List Job) → count (works_on id) (fail_active id reason js) ≡ 0
unfolding fail_active
none_active id reason [] = refl
none_active id reason (j ∷ js) = ground (arith, none_active id reason js)

-- Another upload's id is another text.
same_upload :
    (o : Option String) (id u : String) → o ≡ some id → same_text o (some u) ≡ true → id ≡ u
same_upload none id u e h = cc
same_upload (some t) id u e h = ground (arith, eq_iff t u)

IsOnly-upload :
    (id : String) (job : Job) (js : List Job)
    → job.upload_id ≡ some id
    → str_eq job.type "SOURCE_REFRESH" ≡ false
    → IsOnly job (fail_active id "Superseded by retry" js)
IsOnly-upload id job js up other = record {
  upload = λ u h.
      subst (λ i. count (works_on i) (fail_active id "Superseded by retry" js) ≡ 0)
        (same_upload job.upload_id id u up h) (none_active id "Superseded by retry" js);
  run = λ u r h. absurd (ground arith);
}

pub Changes-guarded_queue :
    (id : String) (from : UploadStatus → Bool) (to : UploadStatus) (job : Job) (now : ℕ)
    (jobs : List Job) (uploads : List Upload) (jobs' : List Job) (uploads' : List Upload)
    → IsNew job.id jobs
    → is_queued job.status ≡ true
    → job.attempts < job.max_attempts
    → job.upload_id ≡ some id
    → str_eq job.type "SOURCE_REFRESH" ≡ false
    → guarded_queue id from to job now jobs uploads ≡ ok (jobs', uploads')
    → Changes jobs jobs'
unfolding guarded_queue
Changes-guarded_queue id from to job now jobs uploads jobs' uploads' new q h up other e =
    subst (Changes jobs) same_jobs (
      grows job (Moves-fail_active id "Superseded by retry" jobs) new q h
        (IsOnly-upload id job jobs up other))
  where
    same_jobs : fail_active id "Superseded by retry" jobs ++ job ∷ [] ≡ jobs'
    same_jobs = ground arith

pub Changes-cancel_upload :
    (id : String) (now : ℕ) (seen : List Upload) (jobs : List Job) (uploads : List Upload)
    (jobs' : List Job) (uploads' : List Upload)
    → cancel_upload id now seen jobs uploads ≡ ok (jobs', uploads')
    → Changes jobs jobs'
unfolding cancel_upload cancel_writes
Changes-cancel_upload id now seen jobs uploads jobs' uploads' e =
    subst (Changes jobs) same_jobs (moves (Moves-fail_active id "Cancelled" jobs))
  where
    same_jobs : fail_active id "Cancelled" jobs ≡ jobs'
    same_jobs = ground arith

no_run :
    (id : String) (r : Bool) (js : List Job)
    → find_run id r js ≡ none
    → count (is_active_run id r) js ≡ 0
unfolding find_run
no_run id r [] h = refl
no_run id r (j ∷ js) h = ground (arith, no_run id r js)

-- The source and the kind of a run are told by its payload.
IsOnly-run :
    (job_id id : String) (s : SourceRun) (o : Options) (now : ℕ) (js : List Job)
    → find_run id o.reconciliation js ≡ none
    → IsOnly (source_job job_id id s o now) js
unfolding source_job
IsOnly-run job_id id s o now js h = record {
  upload = λ u e. absurd (cc e);
  run = λ u r e.
      let (same_id, same_kind) = told u r o.reconciliation e in
      subst (λ i. count (is_active_run i r) js ≡ 0) same_id
        (subst (λ k. count (is_active_run id k) js ≡ 0) same_kind
          (no_run id o.reconciliation js h));
}
  where
    told :
        (u : String) (r k : Bool)
        → (true && (true && (str_eq id u && (if k then r else not r)))) ≡ true
        → (id ≡ u) × (k ≡ r)
    told u true true e = ground (arith, eq_iff id u)
    told u true false e = ground (arith, eq_iff id u)
    told u false true e = ground (arith, eq_iff id u)
    told u false false e = ground (arith, eq_iff id u)

pub Changes-queue_source_refresh :
    (keeps : String → Bool) (job_id id : String) (s : SourceRun) (o : Options) (now : ℕ)
    (jobs : List Job) (sources : List Source) (jobs' : List Job) (sources' : List Source)
    (job : Job)
    → IsNew job_id jobs
    → queue_source_refresh keeps job_id id s o now jobs sources ≡ ((jobs', sources'), job)
    → Changes jobs jobs'
unfolding queue_source_refresh source_job
Changes-queue_source_refresh keeps job_id id s o now jobs sources jobs' sources' job new e =
    elim (Option-cases (find_run id o.reconciliation jobs)) [
      | inl none_found ↦
          let same_jobs : jobs ++ source_job job_id id s o now ∷ [] ≡ jobs' = ground arith in
          subst (Changes jobs) same_jobs (
            grows (source_job job_id id s o now) (Moves_refl jobs) new refl (omega arith)
              (IsOnly-run job_id id s o now jobs none_found))
      | inr (j, found) ↦
          let same_jobs : jobs ≡ jobs' = ground arith in
          subst (Changes jobs) same_jobs (moves (Moves_refl jobs))
    ]
