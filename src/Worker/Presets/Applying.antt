-- ===== src/Worker/Presets/Applying.antt =====
-- server/worker/apply-preset.ts: the current capacity, and what applying a preset writes in its one
-- transaction and answers. A row's memory limit is its text; `number` is JavaScript's `Number`.
use catworld.Common.{
  ℕ, String, Bool, true, ◌&&◌, not, Option, none, some, List, [], ◌∷◌, ◌++◌, map, if◌then◌else◌,
  str_eq, keep, includes, get_or, lookup,
}
use catworld.Settings.{pick_int, worker_config_defaults}
use catworld.Worker.Profiles.{Profile, Warning, needs_restart, coverage_warnings, to_text}
use catworld.Worker.Presets.{
  Lane, Family, sync_family, uploads_family, lanes, lane_names, PresetId, Capacity, Preset,
  ProfileShape, DiffRow, Caution, get_preset, lanes_configured, diff_capacity, validate_capacity,
}

pub record Row : Type 0 where
  pub id : String
  pub name : String
  pub job_types : List String
  pub weights : List ℕ
  pub concurrency : ℕ
  pub enabled : Bool
  pub poll_ms : ℕ
  pub duckdb_memory_limit : String

abbrev shape : Row → ProfileShape
shape r = record {
  name = r.name;
  enabled = r.enabled;
  job_types = r.job_types;
  weights = some r.weights;
}

-- `settings` holds the rows of the three keys.
unfoldable pub read_current_capacity :
    (String → Option ℕ) → List Row → List (String × String) → Capacity
read_current_capacity number profiles settings = record {
  slots = map (λ p. (p.name, p.concurrency)) (keep (λ p. includes p.name lane_names) profiles);
  lanes_on = lanes_configured (map shape profiles);
  max_heavy_jobs =
      pick_int number (lookup "worker.max_heavy_jobs" settings)
        worker_config_defaults.max_heavy_jobs 1 20;
  max_syncs_per_storage =
      pick_int number (lookup "worker.max_syncs_per_storage" settings)
        worker_config_defaults.max_syncs_per_storage 1 20;
  import_batch_delay_ms =
      pick_int number (lookup "worker.import_batch_delay_ms" settings)
        worker_config_defaults.import_batch_delay_ms 0 5000;
}

-- What a lane's profile is to be; it is also enabled.
pub record Want : Type 0 where
  pub job_types : List String
  pub weights : List ℕ
  pub concurrency : ℕ

-- The statements of the transaction; an update also counts the revision up.
pub data Op : Type 0 where
  create : (name : String) (want : Want) (poll_ms : ℕ) (duckdb_memory_limit : String) → Op
  update : (id : String) (want : Want) → Op
  put_setting : (key value : String) → Op

-- `new Map(profiles.map((p) => [p.name, p]))`: the last of a name counts.
pub by_name : String → List Row → Option Row
by_name name [] = none
by_name name (p ∷ ps) = elim (by_name name ps) [
  | some q ↦ some q
  | none ↦ if str_eq p.name name then some p else none
]

abbrev want_of : Preset → Lane → Want
want_of preset lane = record {
  job_types = lane.job_types;
  weights = lane.weights;
  concurrency = get_or (lookup lane.name preset.capacity.slots) 0;
}

abbrev sibling_name : Family → String
sibling_name sync_family = "worker-sync"
sibling_name uploads_family = "worker-uploads"

create_op : List Row → Lane → Want → Op
unfolding by_name
create_op profiles lane want = elim (by_name (sibling_name lane.family) profiles) [
  | none ↦ create lane.name want 2000 "1GB"
  | some s ↦ create lane.name want s.poll_ms s.duckdb_memory_limit
]

abbrev changed : Row → Want → Bool
changed r want =
    needs_restart
      (record { job_types = r.job_types; concurrency = r.concurrency; weights = some r.weights })
      (record {
        job_types = want.job_types;
        concurrency = want.concurrency;
        weights = some want.weights;
      })

-- The loop's body: the statements, the names to restart, the names that are new.
pub apply_lane : Preset → List Row → Lane → List Op × List String × List String
unfolding create_op
apply_lane preset profiles lane =
    let want = want_of preset lane in
    elim (by_name lane.name profiles) [
      | none ↦ (create_op profiles lane want ∷ [], [], lane.name ∷ [])
      | some existing ↦
          let change = changed existing want in
          if not change && existing.enabled then ([], [], []) else (
            update existing.id want ∷ [],
            if change && existing.enabled then lane.name ∷ [] else [],
            [],
          )
    ]

unfoldable pub apply_lanes : Preset → List Row → List Lane → List Op × List String × List String
unfolding apply_lane
apply_lanes preset profiles [] = ([], [], [])
apply_lanes preset profiles (lane ∷ ls) =
    let (ops, restarts, new) = apply_lane preset profiles lane in
    let (ops', restarts', new') = apply_lanes preset profiles ls in
    (ops ++ ops', restarts ++ restarts', new ++ new')

unfoldable pub setting_ops : Capacity → List Op
setting_ops c =
    put_setting "worker.max_heavy_jobs" (to_text c.max_heavy_jobs)
    ∷ put_setting "worker.max_syncs_per_storage" (to_text c.max_syncs_per_storage)
    ∷ put_setting "worker.import_batch_delay_ms" (to_text c.import_batch_delay_ms)
    ∷ []

pub record ApplyResult : Type 0 where
  pub preset : PresetId
  pub changes : List DiffRow
  pub restart_profiles : List String
  pub new_profiles : List String
  pub cautions : List Caution
  pub uncovered : List Warning

abbrev pub others : List Row → List Profile
others profiles =
    map (λ p. record { enabled = p.enabled; job_types = p.job_types; weights = some p.weights })
      (keep (λ p. not (includes p.name lane_names)) profiles)

abbrev pub final_lanes : List Profile
final_lanes =
    map (λ l. record { enabled = true; job_types = l.job_types; weights = some l.weights }) lanes

abbrev pub apply_known :
    (String → Option ℕ) → Preset → List Row → List (String × String) → List Op × ApplyResult
apply_known number preset profiles settings =
    let current = read_current_capacity number profiles settings in
    let (ops, restarts, new) = apply_lanes preset profiles lanes in
    (
      ops ++ setting_ops preset.capacity,
      record {
        preset = preset.id;
        changes = diff_capacity current preset.capacity;
        restart_profiles = restarts;
        new_profiles = new;
        cautions = (validate_capacity preset.capacity 0).warnings;
        uncovered = coverage_warnings (others profiles ++ final_lanes);
      },
    )

-- `none` is the UnknownPresetError. The two lists at the end of the result are `warnings`.
abbrev pub apply_found :
    (String → Option ℕ)
    → List Row
    → List (String × String)
    → Option Preset
    → Option (List Op × ApplyResult)
apply_found number profiles settings none = none
apply_found number profiles settings (some preset) =
    some (apply_known number preset profiles settings)

unfoldable pub apply_preset :
    (String → Option ℕ)
    → String
    → List Row
    → List (String × String)
    → Option (List Op × ApplyResult)
apply_preset number id profiles settings = apply_found number profiles settings (get_preset id)
