-- ===== src/Jobs/Claim.antt =====
-- worker/claim.ts: the statement by which a worker takes its next job. Where two jobs have the same
-- weight and time, the database may take either; here it is the one that stands first.
use catworld.Common.{
  ℕ, ◌+◌, String, Bool, true, ◌&&◌, ◌||◌, Option, none, some, List, [], ◌∷◌, if◌then◌else◌, str_eq,
  leb, ltb, ◌==◌, keep, includes, includes_nat,
}
use catworld.Jobs.{running, Job, update_where, count, is_queued, is_running, same_text}

-- What a worker asks with: its name, the ceilings, the types and weights of its profile.
pub record Asking : Type 0 where
  pub locked_by : String
  pub max_heavy : ℕ
  pub max_syncs_per_storage : ℕ
  pub allowed_types : Option (List String)
  pub allowed_weights : List ℕ

abbrev pub type_allowed : Option (List String) → String → Bool
type_allowed none type = true
type_allowed (some []) type = true
type_allowed (some (t ∷ ts)) type = includes type (t ∷ ts)

abbrev pub weight_allowed : List ℕ → ℕ → Bool
weight_allowed [] weight = true
weight_allowed (w ∷ ws) weight = includes_nat weight (w ∷ ws)

abbrev pub runs_heavy : Job → Bool
runs_heavy j = is_running j.status && j.weight == 2

abbrev pub runs_at : String → Job → Bool
runs_at storage j = is_running j.status && same_text j.storage_server_id (some storage)

unfoldable pub heavy_free : List Job → ℕ → Job → Bool
heavy_free jobs max_heavy j = ltb j.weight 2 || ltb (count runs_heavy jobs) max_heavy

unfoldable pub storage_free : List Job → ℕ → Option String → Bool
storage_free jobs max_syncs none = true
storage_free jobs max_syncs (some storage) = ltb (count (runs_at storage) jobs) max_syncs

unfoldable pub is_eligible : Asking → ℕ → List Job → Job → Bool
is_eligible a now jobs j =
    is_queued j.status
    && leb j.available_at now
    && type_allowed a.allowed_types j.type
    && weight_allowed a.allowed_weights j.weight
    && heavy_free jobs a.max_heavy j
    && storage_free jobs a.max_syncs_per_storage j.storage_server_id

-- `ORDER BY weight, available_at`.
abbrev pub goes_before : Job → Job → Bool
goes_before i j =
    ltb i.weight j.weight || (i.weight == j.weight && leb i.available_at j.available_at)

abbrev pub better : Job → Option Job → Option Job
better j none = some j
better j (some i) = if goes_before j i then some j else some i

unfoldable pub first_of : List Job → Option Job
first_of [] = none
first_of (j ∷ js) = better j (first_of js)

unfoldable pub take_job : String → ℕ → Job → Job
take_job locked_by now j = record j {
  status = running;
  locked_at = some now;
  heartbeat_at = some now;
  locked_by = some locked_by;
  attempts = j.attempts + 1;
}

abbrev pub claim_found : Asking → ℕ → List Job → Option Job → List Job × Option Job
claim_found a now jobs none = (jobs, none)
claim_found a now jobs (some j) = (
  update_where (λ k. str_eq k.id j.id) (take_job a.locked_by now) jobs,
  some (take_job a.locked_by now j),
)

unfoldable pub claim : Asking → ℕ → List Job → List Job × Option Job
claim a now jobs = claim_found a now jobs (first_of (keep (is_eligible a now jobs) jobs))
