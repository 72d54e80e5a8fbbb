-- ===== src/Jobs/Limits.antt =====
-- The ceilings on the jobs that run at the same time.
use mathlib.Core.List.{Memᴰ}
use catworld.Common.{
  ℕ, ◌≤◌, ◌<◌, String, ◌≡◌, refl, sym, subst, ap, inl, inr, Bool, true, false, Option, none, some,
  List, [], ◌∷◌, arith, str_eq, Bool-cases, ◌==◌, ltb→lt, eq_iff,
}
use catworld.Jobs.{
  JobStatus, queued, running, completed, failed, Job, Db, update_where, count, is_queued,
  is_running, is_active, same_text,
}
use catworld.Jobs.Claim.{
  Asking, is_eligible, heavy_free, storage_free, runs_heavy, runs_at, take_job,
}
use catworld.Jobs.Tables.{
  All-map, Distinct, Distinct-one, count-keep-le, count-append, count-update-le,
  count-update_one-le,
}
use catworld.Jobs.Order.{ClaimEnd, nothing, takes, claim-ClaimEnd}
use catworld.Jobs.Steps.{Ceilings, Step, Run, no_step, one_more}
use catworld.Jobs.Moves.{
  Move, stays, beats, ends, requeues, dismisses, Moves, none_left, row, Changes, moves, grows,
  shrinks,
}
use catworld.Jobs.Kinds.{Step-kind}
use catworld.Jobs.Attempts.{IsValid, Run-IsValid}

not_running_closed : (s : JobStatus) → is_active s ≡ false → is_running s ≡ false
not_running_closed queued h = refl
not_running_closed running h = cc
not_running_closed completed h = refl
not_running_closed failed h = refl

not_running_queued : (s : JobStatus) → is_queued s ≡ true → is_running s ≡ false
not_running_queued queued h = refl
not_running_queued running h = cc
not_running_queued completed h = refl
not_running_queued failed h = refl

-- A running heavy job, or one at a storage, was one before: only a claim makes a job run.
runs_heavy-IsQuiet : {j k : Job} → Move j k → runs_heavy k ≡ true → runs_heavy j ≡ true
runs_heavy-IsQuiet (stays j) h = h
runs_heavy-IsQuiet (beats j now) h = h
runs_heavy-IsQuiet (ends j k _ closed _ _) h =
    absurd (ground (arith, not_running_closed k.status closed))
runs_heavy-IsQuiet (requeues j k _ back _ _) h =
    absurd (ground (arith, not_running_queued k.status back))
runs_heavy-IsQuiet (dismisses j k _ done _ _) h =
    absurd (ground (arith, not_running_closed k.status (ap is_active done)))

runs_at-IsQuiet : (s : String) {j k : Job} → Move j k → runs_at s k ≡ true → runs_at s j ≡ true
runs_at-IsQuiet s (stays j) h = h
runs_at-IsQuiet s (beats j now) h = h
runs_at-IsQuiet s (ends j k _ closed _ _) h =
    absurd (ground (arith, not_running_closed k.status closed))
runs_at-IsQuiet s (requeues j k _ back _ _) h =
    absurd (ground (arith, not_running_queued k.status back))
runs_at-IsQuiet s (dismisses j k _ done _ _) h =
    absurd (ground (arith, not_running_closed k.status (ap is_active done)))

module _ (q : Job → Bool) (quiet : (j k : Job) → Move j k → q k ≡ true → q j ≡ true) where
  pub Moves-count-le : {js ks : List Job} → Moves js ks → count q ks ≤ count q js
  Moves-count-le none_left = omega arith
  Moves-count-le (row {j} {k} m ms) = ground (arith, quiet j k m, Moves-count-le ms)

  Changes-count-le :
      {js ks : List Job}
      → ((j : Job) → is_running j.status ≡ false → q j ≡ false)
      → Changes js ks
      → count q ks ≤ count q js
  Changes-count-le idle (moves ms) = Moves-count-le ms
  Changes-count-le idle (grows {ks} j ms _ waits _ _) =
      let less = Moves-count-le ms in
      let off = idle j (not_running_queued j.status waits) in
      rw (count-append q ks (j ∷ [])) (ground arith)
  Changes-count-le {js} idle (shrinks p) = count-keep-le q p js

abbrev pub IsInLimits : Ceilings → List Job → Type 0
IsInLimits c jobs =
    (count runs_heavy jobs ≤ c.max_heavy)
    × ((storage : String) → count (runs_at storage) jobs ≤ c.max_syncs_per_storage)

heavy_bound :
    (a : Asking) (now : ℕ) (jobs : List Job) (j : Job)
    → is_eligible a now jobs j ≡ true
    → (j.weight == 2) ≡ true
    → count runs_heavy jobs < a.max_heavy
unfolding is_eligible heavy_free
heavy_bound a now jobs j fits two = ground arith

free_storage :
    (a : Asking) (now : ℕ) (jobs : List Job) (j : Job)
    → is_eligible a now jobs j ≡ true
    → storage_free jobs a.max_syncs_per_storage j.storage_server_id ≡ true
unfolding is_eligible
free_storage a now jobs j fits = ground arith

free_bound :
    (jobs : List Job) (limit : ℕ) (o : Option String) (s : String)
    → storage_free jobs limit o ≡ true
    → same_text o (some s) ≡ true
    → count (runs_at s) jobs < limit
unfolding storage_free
free_bound jobs limit none s h at = cc
free_bound jobs limit (some t) s h at =
    subst (λ u. count (runs_at u) jobs < limit) ((eq_iff t s).0 at)
      (ltb→lt (count (runs_at t) jobs) limit h)

storage_bound :
    (a : Asking) (now : ℕ) (jobs : List Job) (j : Job) (s : String)
    → is_eligible a now jobs j ≡ true
    → same_text j.storage_server_id (some s) ≡ true
    → count (runs_at s) jobs < a.max_syncs_per_storage
storage_bound a now jobs j s fits at =
    free_bound jobs a.max_syncs_per_storage j.storage_server_id s (free_storage a now jobs j fits)
      at

heavy_off :
    (by : String) (now : ℕ) (j : Job)
    → (j.weight == 2) ≡ false
    → runs_heavy (take_job by now j) ≡ false
unfolding take_job
heavy_off by now j h = h

storage_off :
    (by : String) (now : ℕ) (j : Job) (s : String)
    → same_text j.storage_server_id (some s) ≡ false
    → runs_at s (take_job by now j) ≡ false
unfolding take_job
storage_off by now j s h = h

module _ (a : Asking) (now : ℕ) (jobs : List Job) (j : Job) (mem : Memᴰ j jobs)
    (fits : is_eligible a now jobs j ≡ true) (d : Distinct jobs) where
  abbrev taken : List Job
  taken = update_where (λ k. str_eq k.id j.id) (take_job a.locked_by now) jobs

  -- Where the row that is taken does not count, no more rows count than before.
  taken_other :
      (q : Job → Bool) → q (take_job a.locked_by now j) ≡ false → count q taken ≤ count q jobs
  taken_other q off = count-update-le q _ (take_job a.locked_by now) jobs (
      All-map _ _ jobs
        (λ k same e h. cc (off, h, ap (λ x. q (take_job a.locked_by now x)) (same e)))
        (Distinct-one j jobs d mem))

  taken_heavy : count runs_heavy jobs ≤ a.max_heavy → count runs_heavy taken ≤ a.max_heavy
  taken_heavy h = elim (Bool-cases (j.weight == 2)) [
    | inl two ↦ omega (
      arith,
      heavy_bound a now jobs j fits two,
      count-update_one-le runs_heavy j.id (take_job a.locked_by now) jobs d,
    )
    | inr other ↦ omega (arith, h, taken_other runs_heavy (heavy_off a.locked_by now j other))
  ]

  taken_storage :
      (s : String)
      → count (runs_at s) jobs ≤ a.max_syncs_per_storage
      → count (runs_at s) taken ≤ a.max_syncs_per_storage
  taken_storage s h = elim (Bool-cases (same_text j.storage_server_id (some s))) [
    | inl at ↦ omega (
      arith,
      storage_bound a now jobs j s fits at,
      count-update_one-le (runs_at s) j.id (take_job a.locked_by now) jobs d,
    )
    | inr other ↦ omega (arith, h, taken_other (runs_at s) (storage_off a.locked_by now j s other))
  ]

ClaimEnd-IsInLimits :
    {a : Asking} {now : ℕ} {jobs : List Job} {result : List Job × Option Job} (c : Ceilings)
    → ClaimEnd a now jobs result
    → a.max_heavy ≡ c.max_heavy
    → a.max_syncs_per_storage ≡ c.max_syncs_per_storage
    → Distinct jobs
    → IsInLimits c jobs
    → IsInLimits c result.0
ClaimEnd-IsInLimits c (nothing _) e e' d l = l
ClaimEnd-IsInLimits {a} {now} {jobs} c (takes j mem fits _) e e' d (heavy, storages) = (
  omega (arith, taken_heavy a now jobs j mem fits d (omega (arith, heavy, e)), e),
  λ s.
      let h = storages s in
      omega (arith, taken_storage a now jobs j mem fits d s (omega (arith, h, e')), e'),
)

module _ (next_run : String → ℕ → Option ℕ) (keeps : String → Bool) (ceilings : Ceilings) where
  Step-IsInLimits :
      {db db' : Db}
      → Step next_run keeps ceilings db db'
      → Distinct db.jobs
      → IsInLimits ceilings db.jobs
      → IsInLimits ceilings db'.jobs
  Step-IsInLimits {db} {db'} s d l = elim (Step-kind next_run keeps ceilings s) [
    | inl c ↦
        subst (IsInLimits ceilings) (sym c.after)
          (ClaimEnd-IsInLimits ceilings (claim-ClaimEnd c.asking c.now db.jobs) c.heavy c.syncs d l)
    | inr changes ↦
        let heavy =
          Changes-count-le runs_heavy (λ j k m h. runs_heavy-IsQuiet m h) (λ j off. ground arith)
            changes in
        (
          omega (arith, heavy, l.0),
          λ s.
              let less =
                Changes-count-le (runs_at s) (λ j k m h. runs_at-IsQuiet s m h)
                  (λ j off. ground arith) changes in
              let h = l.1 s in omega (arith, less, h),
        )
  ]

  -- While all workers ask with the same ceilings, each statement is one step, and a failure of a job
  -- that still runs is reported by the executor of its present claim, never more heavy jobs run at the
  -- same time than the first ceiling, and never more jobs of one storage than the second. At first the
  -- jobs are valid (distinct ids; attempts, owner and pulse as their status asks for) and within these
  -- limits.
  pub Run-IsInLimits :
      {db db' : Db}
      → Run next_run keeps ceilings db db'
      → IsValid db.jobs
      → IsInLimits ceilings db.jobs
      → IsInLimits ceilings db'.jobs
  Run-IsInLimits no_step v l = l
  Run-IsInLimits (one_more r s) v l =
      Step-IsInLimits s (Run-IsValid next_run keeps ceilings r v).distinct (Run-IsInLimits r v l)
