-- ===== src/Jobs/Sources.antt =====
-- server/connections/sources.ts: which lane the refresh of a source takes, and how refreshes get into
-- the queue. Under the advisory lock the steps of one call are not interleaved with another's. The mark
-- of a manual run and the texts of warnings are left out.
use catworld.Common.{
  ℕ, zero, suc, ◌+◌, ◌*◌, ◌/◌, min, String, Bool, true, false, ◌&&◌, not, Option, none, some, List,
  [], ◌∷◌, ◌++◌, if◌then◌else◌, str_eq, leb, is_some, get_or, includes,
}
use catworld.Jobs.{
  queued, PayloadJson, parsed, Job, Source, update_where, is_active, is_queued, same_text,
}
use catworld.Jobs.Finish.{read_payload, given}

pub record SourceRun : Type 0 where
  pub source_kind : String
  pub delta_column : Option String
  pub last_delta_value : Option String
  pub key_column : Option String
  pub avg_run_ms : Option ℕ
  pub last_row_count : Option ℕ
  pub storage_server_id : Option String

unfoldable pub is_bounded_source_run : SourceRun → Bool → Bool
is_bounded_source_run s reconciliation =
    if reconciliation
    then false
    else if str_eq s.source_kind "table"
    then is_some (given s.delta_column)
      && is_some (given s.last_delta_value)
      && is_some (given s.key_column)
    else true

pub data SourceLane : Type 0 where
  fast long : SourceLane

unfoldable pub classify_source_lane : SourceRun → Bool → SourceLane
unfolding is_bounded_source_run
classify_source_lane s reconciliation = if reconciliation then long else elim s.avg_run_ms [
  | some ms ↦ if leb 120000 ms then long else fast
  | none ↦ elim s.last_row_count [
    | some rows ↦ if leb 500000 rows then long else fast
    | none ↦ if is_bounded_source_run s reconciliation then fast else long
  ]
]

abbrev pub lane_weight : SourceLane → ℕ
lane_weight long = 2
lane_weight fast = 0

-- `Math.round(0.7 * prev + 0.3 * d)`, in whole numbers: halves go up.
unfoldable pub next_avg_run_ms : Option ℕ → ℕ → ℕ
next_avg_run_ms none elapsed = min elapsed 2000000000
next_avg_run_ms (some prev) elapsed = (7 * prev + 3 * min elapsed 2000000000 + 5) / 10

-- The job's payload names the source, and is a reconciliation or not.
abbrev pub is_run_of : String → Bool → PayloadJson → Bool
is_run_of id reconciliation json = elim (read_payload json) [
  | none ↦ false
  | some p ↦
      same_text p.dataset_source_id (some id)
      && (if p.reconciliation then reconciliation else not reconciliation)
]

-- An active refresh of the source, of the kind.
abbrev pub is_active_run : String → Bool → Job → Bool
is_active_run id reconciliation j =
    str_eq j.type "SOURCE_REFRESH"
    && is_active j.status
    && is_run_of id reconciliation j.payload_json

unfoldable pub find_run : String → Bool → List Job → Option Job
find_run id reconciliation [] = none
find_run id reconciliation (j ∷ js) =
    if is_active_run id reconciliation j then some j else find_run id reconciliation js

-- `queuedUpdates`: a source that runs stays as it is; `keeps` says of an error that it has the mark of
-- skipped checks, which is kept.
unfoldable pub mark_queued : (String → Bool) → String → List Source → List Source
mark_queued keeps id =
    update_where (λ s. str_eq s.id id && not (same_text s.last_status (some "running")))
      (λ s. record s {
        last_status = some "queued";
        last_error = elim s.last_error [ none ↦ none | some e ↦ if keeps e then some e else none ];
      })

pub record Options : Type 0 where
  pub reconciliation : Bool
  pub manual : Bool
  pub accept_drop : Bool

unfoldable pub source_job : String → String → SourceRun → Options → ℕ → Job
unfolding classify_source_lane
source_job job_id id s o now = record {
  id = job_id;
  type = "SOURCE_REFRESH";
  status = queued;
  upload_id = none;
  payload_json = parsed (record {
    dataset_source_id = some id;
    derived_table_id = none;
    project_id = none;
    dataset_id = none;
    target_storage_server_id = none;
    reconciliation = o.reconciliation;
    manual = o.manual;
    accept_drop = o.accept_drop;
  });
  attempts = 0;
  max_attempts = 3;
  available_at = now;
  locked_at = none;
  locked_by = none;
  heartbeat_at = none;
  weight = lane_weight (classify_source_lane s o.reconciliation);
  storage_server_id = some (get_or s.storage_server_id "__default__");
  last_error = none;
}

-- The jobs and sources after it, and the job that stands for the refresh: the one that was found, or
-- `fresh`.
abbrev pub queue_found :
    (String → Bool)
    → String
    → Job
    → List Job
    → List Source
    → Option Job
    → (List Job × List Source) × Job
queue_found keeps id fresh jobs sources none =
    ((jobs ++ fresh ∷ [], mark_queued keeps id sources), fresh)
queue_found keeps id fresh jobs sources (some j) =
    ((jobs, if is_queued j.status then mark_queued keeps id sources else sources), j)

unfoldable pub queue_source_refresh :
    (String → Bool)
    → String
    → String
    → SourceRun
    → Options
    → ℕ
    → List Job
    → List Source
    → (List Job × List Source) × Job
queue_source_refresh keeps job_id id s o now jobs sources =
    queue_found keeps id (source_job job_id id s o now) jobs sources
      (find_run id o.reconciliation jobs)

-- The loop of `enqueueDue` over the sources that are due, longest waiting first: `ids` gives each new
-- job its id, `left` is what the batch of fifty has left, `busy` the sources with an active job.
unfoldable pub enqueue_from :
    (String → Bool)
    → (String → String)
    → (String → SourceRun)
    → Bool
    → ℕ
    → List String
    → ℕ
    → List String
    → List Job
    → List Source
    → List Job × List Source
enqueue_from keeps ids runs reconciliation now busy left [] jobs sources = (jobs, sources)
enqueue_from keeps ids runs reconciliation now busy zero (id ∷ due) jobs sources = (jobs, sources)
enqueue_from keeps ids runs reconciliation now busy (suc left) (id ∷ due) jobs sources =
    let step =
      (queue_source_refresh keeps (ids id) id (runs id)
        (record { reconciliation = reconciliation; manual = false; accept_drop = false }) now jobs
        sources).0 in
    let skipped = enqueue_from keeps ids runs reconciliation now busy (suc left) due jobs sources in
    let next = enqueue_from keeps ids runs reconciliation now busy left due (step.0) (step.1) in
    if includes id busy then skipped else next

-- The sources that have an active job of the kind.
unfoldable pub busy_sources : Bool → List Job → List String
busy_sources reconciliation [] = []
busy_sources reconciliation (j ∷ js) =
    let rest = busy_sources reconciliation js in
    if str_eq j.type "SOURCE_REFRESH" && is_active j.status
    then elim (read_payload j.payload_json) [
      | none ↦ rest
      | some p ↦ elim (given p.dataset_source_id) [
        | none ↦ rest
        | some id ↦
            if (if p.reconciliation then reconciliation else not reconciliation)
            then id ∷ rest
            else rest
      ]
    ]
    else rest

-- `due` is what the query gives: the sources that are due, at most a thousand.
unfoldable pub enqueue_due :
    (String → Bool)
    → (String → String)
    → (String → SourceRun)
    → Bool
    → ℕ
    → List String
    → List Job
    → List Source
    → List Job × List Source
enqueue_due keeps ids runs reconciliation now due jobs sources =
    enqueue_from keeps ids runs reconciliation now (busy_sources reconciliation jobs) 50 due jobs
      sources
