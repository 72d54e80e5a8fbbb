-- ===== src/Jobs/Moves.antt =====
-- What a statement other than a claim does to one row of the jobs, and so to the table.
use catworld.Common.{
  ℕ, ◌≤◌, ◌<◌, String, ◌≡◌, refl, sym, subst, inl, inr, Bool, true, false, ◌&&◌, some, List, [],
  ◌∷◌, ◌++◌, map, arith, if◌then◌else◌, str_eq, leb, All, Bool-cases, keep,
}
use catworld.Jobs.{
  JobStatus, queued, running, completed, failed, Job, update_where, is_queued, is_running,
  is_active, is_failed, same_text, count,
}
use catworld.Jobs.Finish.{
  Failure, held, will_retry, heartbeat, completed_row, complete_job, failed_row, fail_job,
}
use catworld.Jobs.Recover.{is_stale, exhausted_row, requeued_row, fail_exhausted, requeue_stale}
use catworld.Jobs.Sources.{is_active_run}
use catworld.Jobs.Steps.{IsCurrent, IsNew}
use catworld.Jobs.Tables.{All-map, All-All}

-- The columns that no statement writes.
pub record SameRow (j k : Job) : Type 0 where
  pub id : k.id ≡ j.id
  pub weight : k.weight ≡ j.weight
  pub storage : k.storage_server_id ≡ j.storage_server_id
  pub most : k.max_attempts ≡ j.max_attempts
  pub upload : k.upload_id ≡ j.upload_id
  pub type : k.type ≡ j.type
  pub payload : k.payload_json ≡ j.payload_json

-- A beat; an active job ends; a running job goes back to the queue, with attempts left if its own are
-- between 1 and the limit; a failed job is dismissed as completed.
pub data Move : Job → Job → Type 0 where
  stays : (j : Job) → Move j j
  beats : (j : Job) (now : ℕ) → Move j (record j { heartbeat_at = some now })
  ends :
      (j k : Job)
      → is_active j.status ≡ true
      → is_active k.status ≡ false
      → SameRow j k
      → k.attempts ≡ j.attempts
      → Move j k
  requeues :
      (j k : Job)
      → is_running j.status ≡ true
      → is_queued k.status ≡ true
      → SameRow j k
      → (0 < j.attempts → j.attempts ≤ j.max_attempts → k.attempts < k.max_attempts)
      → Move j k
  dismisses :
      (j k : Job)
      → is_failed j.status ≡ true
      → k.status ≡ completed
      → SameRow j k
      → k.attempts ≡ j.attempts
      → Move j k

-- Row by row.
pub data Moves : List Job → List Job → Type 0 where
  none_left : Moves [] []
  row : {j k : Job} {js ks : List Job} → Move j k → Moves js ks → Moves (j ∷ js) (k ∷ ks)

-- An active job of an upload.
abbrev pub works_on : String → Job → Bool
works_on upload j = same_text j.upload_id (some upload) && is_active j.status

-- No active job does the work of this one: for its upload, or for its source, in its kind of run.
pub record IsOnly (j : Job) (js : List Job) : Type 0 where
  pub upload : (id : String) → same_text j.upload_id (some id) ≡ true → count (works_on id) js ≡ 0
  pub run :
      (id : String) (reconciliation : Bool)
      → is_active_run id reconciliation j ≡ true
      → count (is_active_run id reconciliation) js ≡ 0

-- A new row comes at the end: it is in the queue, has attempts left, its id is new, and no active job
-- does its work. Or rows are deleted.
pub data Changes (js : List Job) : List Job → Type 0 where
  moves : {ks : List Job} → Moves js ks → Changes js ks
  grows :
      {ks : List Job} (j : Job)
      → Moves js ks
      → IsNew j.id js
      → is_queued j.status ≡ true
      → j.attempts < j.max_attempts
      → IsOnly j ks
      → Changes js (ks ++ j ∷ [])
  shrinks : (p : Job → Bool) → Changes js (keep p js)

pub Moves_refl : (js : List Job) → Moves js js
Moves_refl [] = none_left
Moves_refl (j ∷ js) = row (stays j) (Moves_refl js)

pub Moves-map : (f : Job → Job) (js : List Job) → All (λ j. Move j (f j)) js → Moves js (map f js)
Moves-map f [] h = none_left
Moves-map f (j ∷ js) h = row h.0 (Moves-map f js h.1)

pub Moves-update :
    (p : Job → Bool) (f : Job → Job) (js : List Job)
    → ((j : Job) → p j ≡ true → Move j (f j))
    → Moves js (update_where p f js)
Moves-update p f [] h = none_left
Moves-update p f (j ∷ js) h = row first (Moves-update p f js h)
  where
    first : Move j (if p j then f j else j)
    first = elim (Bool-cases (p j)) [ inl e ↦ simp e (h j e) | inr e ↦ simp e (stays j) ]

pub active_of_running : (s : JobStatus) → is_running s ≡ true → is_active s ≡ true
active_of_running queued h = refl
active_of_running running h = refl
active_of_running completed h = cc
active_of_running failed h = cc

pub Moves-heartbeat : (id : String) (now : ℕ) (js : List Job) → Moves js (heartbeat id now js)
unfolding heartbeat
Moves-heartbeat id now js = Moves-update _ _ js (λ j _. beats j now)

pub and_left : (a b : Bool) → (a && b) ≡ true → a ≡ true
and_left a b h = ground arith

pub and_right : (a b : Bool) → (a && b) ≡ true → b ≡ true
and_right a b h = ground arith

-- For a row that is written with `record j { ... }`.
abbrev pub Same : Job → Job → Type 0
Same j k =
    (k.id ≡ j.id)
    × (k.weight ≡ j.weight)
    × (k.storage_server_id ≡ j.storage_server_id)
    × (k.max_attempts ≡ j.max_attempts)
    × (k.upload_id ≡ j.upload_id)
    × (k.type ≡ j.type)
    × (k.payload_json ≡ j.payload_json)

pub same : (j k : Job) → Same j k → SameRow j k
same j k (id, weight, storage, most, upload, type, payload) = record {
  id = id;
  weight = weight;
  storage = storage;
  most = most;
  upload = upload;
  type = type;
  payload = payload;
}

complete_row : (id : String) (j : Job) → held id j ≡ true → Move j (completed_row j)
complete_row id j h =
    ends j _ (active_of_running j.status (and_right (str_eq j.id id) (is_running j.status) h)) refl
      (same j _ (refl, refl, refl, refl, refl, refl, refl)) refl

pub Moves-complete_job : (id : String) (js : List Job) → Moves js (complete_job id js)
unfolding complete_job
Moves-complete_job id js = Moves-update (held id) completed_row js (complete_row id)

-- A failure of the executor of the present claim.
fail_row :
    (c : Job) (e : Failure) (now : ℕ) (j : Job)
    → (str_eq j.id c.id ≡ true
        → is_running j.status ≡ true
        → (j.attempts ≡ c.attempts) × (j.max_attempts ≡ c.max_attempts))
    → held c.id j ≡ true
    → Move j (failed_row c e now j)
fail_row c e now j current h =
    let run = and_right (str_eq j.id c.id) (is_running j.status) h in
    let (tries, most) = current (and_left (str_eq j.id c.id) (is_running j.status) h) run in
    elim (Bool-cases (will_retry c e)) [
      | inl r ↦
          requeues j (failed_row c e now j) run (simp r refl)
            (same j _ (refl, refl, refl, refl, refl, refl, refl)) (λ _ _. ground arith)
      | inr r ↦
          ends j (failed_row c e now j) (active_of_running j.status run) (simp r refl)
            (same j _ (refl, refl, refl, refl, refl, refl, refl)) refl
    ]

Moves-all :
    (p : Job → Bool) (f : Job → Job) (js : List Job)
    → All (λ j. p j ≡ true → Move j (f j)) js
    → Moves js (update_where p f js)
Moves-all p f [] h = none_left
Moves-all p f (j ∷ js) h = row first (Moves-all p f js h.1)
  where
    first : Move j (if p j then f j else j)
    first = elim (Bool-cases (p j)) [ inl e ↦ simp e (h.0 e) | inr e ↦ simp e (stays j) ]

pub Moves-fail_job :
    (c : Job) (e : Failure) (now : ℕ) (js : List Job)
    → IsCurrent c js
    → Moves js (fail_job c e now js)
unfolding fail_job
Moves-fail_job c e now js current =
    Moves-all (held c.id) (failed_row c e now) js
      (All-map _ _ js (λ j h held_j. fail_row c e now j h held_j) current)

stale_runs : (now : ℕ) (j : Job) → is_stale now j ≡ true → is_running j.status ≡ true
unfolding is_stale
stale_runs now j h = and_left _ _ h

-- The row after both statements of `recoverStale`.
abbrev pub recovered_row : ℕ → Job → Job
recovered_row now j =
    if is_stale now j
    then if leb j.max_attempts j.attempts then exhausted_row j else requeued_row now j
    else j

recover_row : (now : ℕ) (j : Job) → Move j (recovered_row now j)
recover_row now j = elim (Bool-cases (is_stale now j)) [
  | inr e ↦ simp e (stays j)
  | inl e ↦ elim (Bool-cases (leb j.max_attempts j.attempts)) [
    | inl late ↦
        simp (e, late)
          (ends j (exhausted_row j) (active_of_running j.status (stale_runs now j e)) refl
            (same j _ (refl, refl, refl, refl, refl, refl, refl)) refl)
    | inr early ↦
        simp (e, early)
          (requeues j (requeued_row now j) (stale_runs now j e) refl
            (same j _ (refl, refl, refl, refl, refl, refl, refl)) (λ _ _. ground arith))
  ]
]

pub recovered :
    (now : ℕ) (js : List Job)
    → requeue_stale now (fail_exhausted now js) ≡ map (recovered_row now) js
unfolding requeue_stale fail_exhausted is_stale
recovered now [] = refl
recovered now (j ∷ js) = ground (arith, recovered now js)

pub Moves-recover : (now : ℕ) (js : List Job) → Moves js (requeue_stale now (fail_exhausted now js))
Moves-recover now js =
    subst (Moves js) (sym (recovered now js))
      (Moves-map (recovered_row now) js (All-All _ js (recover_row now)))
