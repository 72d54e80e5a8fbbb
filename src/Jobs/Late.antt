-- ===== src/Jobs/Late.antt =====
-- Executors whose job was given to another while they worked: `complete_job` and `fail_job` look at the
-- status, not at the owner.
use catworld.Common.{
  ℕ, ◌<◌, String, ◌≡◌, refl, ap, ◌∙◌, true, false, some, List, [], ◌∷◌, arith, str_eq, lt→ltb,
}
use catworld.Jobs.{queued, running, Job, is_running, find_job, update_where}
use catworld.Jobs.Finish.{Failure, held, will_retry, failed_row, fail_job}
use catworld.Jobs.Tables.{find_job-update}

pub find_job-id :
    (id : String) (js : List Job) (j : Job) → find_job id js ≡ some j → str_eq j.id id ≡ true
unfolding find_job
find_job-id id [] j h = cc
find_job-id id (k ∷ ks) j h = ground (arith, find_job-id id ks j)

pub held_found :
    (id : String) (f : Job → Job) (js : List Job) (j : Job)
    → ((k : Job) → (f k).id ≡ k.id)
    → find_job id js ≡ some j
    → is_running j.status ≡ true
    → find_job id (update_where (held id) f js) ≡ some (f j)
held_found id f js j same e run =
    find_job-update (held id) f id js same ∙ simp (e, find_job-id id js j e, run) refl

-- If an executor that lost its job to another (which made the last attempt) reports a failure while
-- its own count is below the limit, the job goes back to the queue with no attempt left, whoever
-- runs it: the next claim counts beyond the limit.
pub late_failure_overruns :
    (c : Job) (e : Failure) (now : ℕ) (jobs : List Job) (j : Job)
    → find_job c.id jobs ≡ some j
    → j.status ≡ running
    → j.attempts ≡ j.max_attempts
    → c.attempts < c.max_attempts
    → e.non_retryable ≡ false
    → (k : Job) × (find_job c.id (fail_job c e now jobs) ≡ some k)
      × (k.status ≡ queued)
      × (k.attempts ≡ k.max_attempts)
unfolding fail_job
late_failure_overruns c e now jobs j found run full few again =
    let retry : will_retry c e ≡ true = simp (lt→ltb c.attempts c.max_attempts few, again) refl in
    (
      failed_row c e now j,
      held_found c.id (failed_row c e now) jobs j (λ k. refl) found (ap is_running run),
      simp retry refl,
      full,
    )
