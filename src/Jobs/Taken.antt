-- ===== src/Jobs/Taken.antt =====
-- What a claim gives its worker, and what it leaves in the table, row by row.
use mathlib.Core.List.{Memᴰ}
use catworld.Common.{
  ℕ, ◌+◌, String, ◌≡◌, refl, sym, subst, ap, ◌∙◌, ◌⊎◌, inl, inr, Bool, true, false, Option, none,
  some, List, [], ◌∷◌, map, if◌then◌else◌, arith, str_eq, eq_iff, All, Bool-cases, Option-cases,
}
use catworld.Jobs.{running, Job, update_where, find_job}
use catworld.Jobs.Claim.{Asking, is_eligible, goes_before, take_job, claim}
use catworld.Jobs.Tables.{Distinct, find_job-update}
use catworld.Jobs.Order.{ClaimEnd, nothing, takes, claim-ClaimEnd}
use catworld.Jobs.Late.{find_job-id}
use catworld.Jobs.Return.{find_job_of_Memᴰ}

-- `k` is the row `j` with a run begun by the worker at this time.
pub record IsRunOf (owner : String) (now : ℕ) (j k : Job) : Type 0 where
  pub id : k.id ≡ j.id
  pub status : k.status ≡ running
  pub attempts : k.attempts ≡ j.attempts + 1
  pub locked_by : k.locked_by ≡ some owner
  pub locked_at : k.locked_at ≡ some now
  pub heartbeat_at : k.heartbeat_at ≡ some now
  pub type : k.type ≡ j.type
  pub upload : k.upload_id ≡ j.upload_id
  pub payload : k.payload_json ≡ j.payload_json
  pub most : k.max_attempts ≡ j.max_attempts
  pub weight : k.weight ≡ j.weight
  pub available_at : k.available_at ≡ j.available_at
  pub last_error : k.last_error ≡ j.last_error
  pub storage : k.storage_server_id ≡ j.storage_server_id

-- `j` is of the table, may run, and no row that may run goes before it.
pub record IsNext (a : Asking) (now : ℕ) (jobs : List Job) (j : Job) : Type 0 where
  pub mem : Memᴰ j jobs
  pub fits : is_eligible a now jobs j ≡ true
  pub first : All (λ k. is_eligible a now jobs k ≡ true → goes_before j k ≡ true) jobs

take_job-IsRunOf : (by : String) (now : ℕ) (j : Job) → IsRunOf by now j (take_job by now j)
unfolding take_job
take_job-IsRunOf by now j = record {
  id = refl;
  status = refl;
  attempts = refl;
  locked_by = refl;
  locked_at = refl;
  heartbeat_at = refl;
  type = refl;
  upload = refl;
  payload = refl;
  most = refl;
  weight = refl;
  available_at = refl;
  last_error = refl;
  storage = refl;
}

module _ (by : String) (now : ℕ) (j : Job) where
  abbrev hit : Job → Bool
  hit k = str_eq k.id j.id

  take_job-id : (k : Job) → (take_job by now k).id ≡ k.id
  unfolding take_job
  take_job-id k = refl

  ids_kept :
      (jobs : List Job)
      → map (λ k. k.id) (update_where hit (take_job by now) jobs) ≡ map (λ k. k.id) jobs
  ids_kept [] = refl
  ids_kept (k ∷ ks) = ground (arith, ids_kept ks, take_job-id k)

  -- The table answers for the id of the job with the new row, for every other as before.
  found :
      (jobs : List Job)
      → Distinct jobs
      → Memᴰ j jobs
      → (id : String)
      → find_job id (update_where hit (take_job by now) jobs)
        ≡ (if str_eq id j.id then some (take_job by now j) else find_job id jobs)
  found jobs d m id = elim (Bool-cases (str_eq id j.id)) [
    | inl e ↦
        let here : id ≡ j.id = (eq_iff id j.id).0 e in
        let row : find_job id jobs ≡ some j =
          subst (λ i. find_job i jobs ≡ some j) (sym here) (find_job_of_Memᴰ j jobs d m) in
        let own : str_eq j.id j.id ≡ true = subst (λ i. str_eq i j.id ≡ true) here e in
        find_job-update hit (take_job by now) id jobs take_job-id ∙ simp (row, own, e) refl
    | inr e ↦ elim (Option-cases (find_job id jobs)) [
      | inl gone ↦ find_job-update hit (take_job by now) id jobs take_job-id ∙ simp (gone, e) refl
      | inr (k, row) ↦
          let own : k.id ≡ id = (eq_iff k.id id).0 (find_job-id id jobs k row) in
          let other : hit k ≡ false = ap (λ i. str_eq i j.id) own ∙ e in
          find_job-update hit (take_job by now) id jobs take_job-id ∙ simp (row, other, e) refl
    ]
  ]

-- A claim, as one step on a table of distinct ids: either no job may run for this worker, and it gets
-- none and the table stays as it is; or it gets a job `k`, the run that it has begun of a row `j` that
-- may run and that no row that may run goes before (by weight, then by time). The table has the same
-- rows in the same order, with `k` under its id and under every other id what was there.
pub claim-IsNext :
    (a : Asking) (now : ℕ) (jobs : List Job)
    → Distinct jobs
    → ((claim a now jobs ≡ (jobs, none)) × All (λ k. is_eligible a now jobs k ≡ false) jobs)
      ⊎ ((j k : Job) × IsNext a now jobs j
          × IsRunOf a.locked_by now j k
          × ((claim a now jobs).1 ≡ some k)
          × (map (λ i. i.id) (claim a now jobs).0 ≡ map (λ i. i.id) jobs)
          × ((id : String)
              → find_job id (claim a now jobs).0
                ≡ (if str_eq id j.id then some k else find_job id jobs)))
claim-IsNext a now jobs d = go (claim-ClaimEnd a now jobs)
  where
    go :
        {result : List Job × Option Job}
        → ClaimEnd a now jobs result
        → ((result ≡ (jobs, none)) × All (λ k. is_eligible a now jobs k ≡ false) jobs)
          ⊎ ((j k : Job) × IsNext a now jobs j
              × IsRunOf a.locked_by now j k
              × (result.1 ≡ some k)
              × (map (λ i. i.id) result.0 ≡ map (λ i. i.id) jobs)
              × ((id : String)
                  → find_job id result.0 ≡ (if str_eq id j.id then some k else find_job id jobs)))
    go (nothing h) = inl (refl, h)
    go (takes j mem fits first) = inr (
      j,
      take_job a.locked_by now j,
      record { mem = mem; fits = fits; first = first },
      take_job-IsRunOf a.locked_by now j,
      refl,
      ids_kept a.locked_by now j jobs,
      found a.locked_by now j jobs d mem,
    )
