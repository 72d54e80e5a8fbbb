-- ===== src/Worker/Presets.antt =====
-- lib/worker-presets.ts: the presets of the workers' capacity and the rules around them. `Record`s
-- from names to slots are association lists. Hints and taglines, which only the page shows, are left
-- out; memory is in tenths of a GB, in exact arithmetic; warnings are data in place of their text.
pub mod Applying
pub mod Differences
pub mod Warnings
pub mod Tests
use Prim.Native.String
use catworld.Common.{
  ℕ, ◌+◌, ◌*◌, ◌/◌, min, String, Bool, true, false, ◌&&◌, ◌||◌, not, Option, none, some, List, [],
  ◌∷◌, ◌++◌, map, if◌then◌else◌, ◌==◌, ltb, str_eq, every, keep, includes, get_or, is_some, is_none,
  lookup,
}
use catworld.Worker.Profiles.{sorted_key, to_text}

pub data LaneId : Type 0 where
  sync_fast sync_long uploads_light uploads_heavy : LaneId

pub data Family : Type 0 where
  sync_family uploads_family : Family

pub record Lane : Type 0 where
  pub id : LaneId
  pub name : String
  pub label : String
  pub job_types : List String
  pub weights : List ℕ
  pub family : Family

abbrev pub lane_fast : Lane
lane_fast = record {
  id = sync_fast;
  name = "worker-sync";
  label = "Sync rápido";
  job_types = "SOURCE_REFRESH" ∷ "METADATA_CLEANUP" ∷ [];
  weights = 0 ∷ 1 ∷ [];
  family = sync_family;
}

abbrev pub lane_long : Lane
lane_long = record {
  id = sync_long;
  name = "worker-sync-long";
  label = "Sync longo";
  job_types =
      "SOURCE_REFRESH" ∷ "DERIVED_REFRESH" ∷ "MIGRATE_STORAGE_PROJECT" ∷ "MIGRATE_STORAGE_DATASET"
      ∷ [];
  weights = 2 ∷ [];
  family = sync_family;
}

abbrev pub lane_light : Lane
lane_light = record {
  id = uploads_light;
  name = "worker-uploads";
  label = "Uploads leves";
  job_types = "PREVIEW_UPLOAD" ∷ "IMPORT_UPLOAD" ∷ [];
  weights = 0 ∷ 1 ∷ [];
  family = uploads_family;
}

abbrev pub lane_heavy : Lane
lane_heavy = record {
  id = uploads_heavy;
  name = "worker-uploads-heavy";
  label = "Uploads pesados";
  job_types = "PREVIEW_UPLOAD" ∷ "IMPORT_UPLOAD" ∷ [];
  weights = 2 ∷ [];
  family = uploads_family;
}

abbrev pub lanes : List Lane
lanes = lane_fast ∷ lane_long ∷ lane_light ∷ lane_heavy ∷ []

abbrev pub lane_names : List String
lane_names = map (λ l. l.name) lanes

pub data PresetId : Type 0 where
  economico equilibrado alto : PresetId

-- `lanes_on` is the field `lanes`.
pub record Capacity : Type 0 where
  pub slots : List (String × ℕ)
  pub lanes_on : Bool
  pub max_heavy_jobs : ℕ
  pub max_syncs_per_storage : ℕ
  pub import_batch_delay_ms : ℕ

pub record Preset : Type 0 where
  pub id : PresetId
  pub capacity : Capacity

abbrev pub slots_of : ℕ → ℕ → ℕ → ℕ → List (String × ℕ)
slots_of fast long light heavy =
    ("worker-sync", fast)
    ∷ ("worker-sync-long", long)
    ∷ ("worker-uploads", light)
    ∷ ("worker-uploads-heavy", heavy)
    ∷ []

abbrev pub preset_of : PresetId → Preset
preset_of economico = record {
  id = economico;
  capacity = record {
    slots = slots_of 1 1 1 1;
    lanes_on = true;
    max_heavy_jobs = 2;
    max_syncs_per_storage = 1;
    import_batch_delay_ms = 500;
  };
}
preset_of equilibrado = record {
  id = equilibrado;
  capacity = record {
    slots = slots_of 3 1 2 1;
    lanes_on = true;
    max_heavy_jobs = 2;
    max_syncs_per_storage = 2;
    import_batch_delay_ms = 150;
  };
}
preset_of alto = record {
  id = alto;
  capacity = record {
    slots = slots_of 5 2 3 2;
    lanes_on = true;
    max_heavy_jobs = 4;
    max_syncs_per_storage = 4;
    import_batch_delay_ms = 0;
  };
}

unfoldable pub get_preset : String → Option Preset
get_preset id =
    if str_eq id "economico"
    then some (preset_of economico)
    else if str_eq id "equilibrado"
    then some (preset_of equilibrado)
    else if str_eq id "alto"
    then some (preset_of alto)
    else none

pub record ProfileShape : Type 0 where
  pub name : String
  pub enabled : Bool
  pub job_types : List String
  pub weights : Option (List ℕ)

unfoldable pub same_set : List String → List String → Bool
same_set a b = str_eq (sorted_key a) (sorted_key b)

-- `profiles.find((x) => x.name === name)`.
pub find_profile : String → List ProfileShape → Option ProfileShape
find_profile name [] = none
find_profile name (p ∷ ps) = if str_eq p.name name then some p else find_profile name ps

abbrev lane_configured : List ProfileShape → Lane → Bool
lane_configured profiles lane = elim (find_profile lane.name profiles) [
  | none ↦ false
  | some p ↦
      p.enabled
      && same_set p.job_types lane.job_types
      && same_set (map to_text (get_or p.weights [])) (map to_text lane.weights)
]

pub lanes_configured : List ProfileShape → Bool
unfolding same_set find_profile
lanes_configured profiles = every (lane_configured profiles) lanes

-- `a === b` of numbers that may be missing.
abbrev pub same_number : Option ℕ → Option ℕ → Bool
same_number none none = true
same_number none (some b) = false
same_number (some a) none = false
same_number (some a) (some b) = a == b

abbrev same_bool : Bool → Bool → Bool
same_bool a b = if a then b else not b

unfoldable pub same_capacity : Capacity → Capacity → Bool
same_capacity a b =
    same_bool a.lanes_on b.lanes_on
    && every (λ n. same_number (lookup n a.slots) (lookup n b.slots)) lane_names
    && a.max_heavy_jobs == b.max_heavy_jobs
    && a.max_syncs_per_storage == b.max_syncs_per_storage
    && a.import_batch_delay_ms == b.import_batch_delay_ms

-- `none` is "custom".
unfoldable pub detect_preset : Capacity → Option PresetId
unfolding same_capacity
detect_preset current =
    if same_capacity (preset_of economico).capacity current
    then some economico
    else if same_capacity (preset_of equilibrado).capacity current
    then some equilibrado
    else if same_capacity (preset_of alto).capacity current
    then some alto
    else none

pub record DiffRow : Type 0 where
  pub key : String
  pub label : String
  pub unit : String
  pub before : ℕ
  pub after : ℕ
  pub from_text : Option String
  pub to_text : Option String
  pub restart : Option (List String)
  pub creates_profile : Option String

abbrev plain_row : String → String → String → ℕ → ℕ → DiffRow
plain_row key label unit before after = record {
  key = key;
  label = label;
  unit = unit;
  before = before;
  after = after;
  from_text = none;
  to_text = none;
  restart = none;
  creates_profile = none;
}

pub lanes_row : Capacity → Capacity → List DiffRow
lanes_row current target =
    if not current.lanes_on && target.lanes_on
    then record (plain_row "lanes" "Faixas de worker (rápido/longo, leve/pesado)" "" 0 1) {
      from_text = some "desligadas";
      to_text = some "ligadas";
      restart = some (keep (λ n. is_some (lookup n current.slots)) lane_names);
    }
      ∷ []
    else []

-- The loop's body: a lane that does not exist is created, one with other slots restarts.
pub slots_row : Capacity → Capacity → Lane → List DiffRow
slots_row current target lane = elim (lookup lane.name current.slots) [
  | none ↦ elim (lookup lane.name target.slots) [
    | none ↦ []
    | some after ↦
        record (plain_row (String.◌++◌ "slots." lane.name) lane.label "slots" 0 after) {
          creates_profile = some lane.name;
        }
        ∷ []
  ]
  | some before ↦
      let after = get_or (lookup lane.name target.slots) before in
      if before == after
      then []
      else record (plain_row (String.◌++◌ "slots." lane.name) lane.label "slots" before after) {
        restart = some (lane.name ∷ []);
      }
        ∷ []
]

pub number_row : String → String → String → ℕ → ℕ → List DiffRow
number_row key label unit before after =
    if before == after then [] else plain_row key label unit before after ∷ []

pub slots_rows : Capacity → Capacity → List Lane → List DiffRow
slots_rows current target [] = []
slots_rows current target (lane ∷ ls) =
    slots_row current target lane ++ slots_rows current target ls

pub diff_capacity : Capacity → Capacity → List DiffRow
unfolding lanes_row slots_rows number_row
diff_capacity current target =
    lanes_row current target
    ++ slots_rows current target lanes
    ++ number_row "max_syncs_per_storage" "Leituras simultâneas por storage" ""
        current.max_syncs_per_storage target.max_syncs_per_storage
    ++ number_row "max_heavy_jobs" "Teto de jobs pesados" "" current.max_heavy_jobs
        target.max_heavy_jobs
    ++ number_row "import_batch_delay_ms" "Pausa entre lotes de import" "ms"
        current.import_batch_delay_ms target.import_batch_delay_ms

pub record Summary : Type 0 where
  pub max_concurrent : ℕ
  pub max_reads_per_storage : ℕ
  pub memory_typical : ℕ
  pub memory_peak : ℕ

-- `n`, the slots of a name.
abbrev slots_in : Capacity → String → ℕ
slots_in cap name = get_or (lookup name cap.slots) 0

abbrev sync_slots : Capacity → ℕ
sync_slots cap = slots_in cap "worker-sync" + slots_in cap "worker-sync-long"

abbrev upload_slots : Capacity → ℕ
upload_slots cap = slots_in cap "worker-uploads" + slots_in cap "worker-uploads-heavy"

abbrev sum : List ℕ → ℕ
sum [] = 0
sum (n ∷ ns) = n + sum ns

-- `round1` of 0.5 + 1.5 u + 0.25 s, in tenths.
unfoldable pub summarize : Capacity → Summary
summarize cap =
    let others = keep (λ e. not (includes (e.0) lane_names)) cap.slots in
    record {
      max_concurrent = sum (map (slots_in cap) lane_names) + sum (map (λ e. e.1) others);
      max_reads_per_storage = min cap.max_syncs_per_storage (sync_slots cap);
      memory_typical = (50 + 150 * upload_slots cap + 25 * sync_slots cap + 5) / 10;
      memory_peak = 5 + 35 * upload_slots cap + 7 * sync_slots cap;
    }

pub data Caution : Type 0 where
  heavy_ceiling : (ceiling heavy_lanes : ℕ) → Caution
  sync_ceiling : (ceiling sync_slots : ℕ) → Caution
  storage_limit : (limit sync_slots : ℕ) → Caution
  memory_limit : (peak limit : ℕ) → Caution

-- The errors are the labels of the lanes without a slot.
pub record Validation : Type 0 where
  pub errors : List String
  pub warnings : List Caution

abbrev lane_error : Capacity → Lane → List String
lane_error cap lane = elim (lookup lane.name cap.slots) [
  | none ↦ []
  | some s ↦ if ltb s 1 then lane.label ∷ [] else []
]

abbrev lane_errors : Capacity → List Lane → List String
lane_errors cap [] = []
lane_errors cap (lane ∷ ls) = lane_error cap lane ++ lane_errors cap ls

pub heavy_caution : Capacity → List Caution
heavy_caution cap =
    let heavy = slots_in cap "worker-sync-long" + slots_in cap "worker-uploads-heavy" in
    if cap.lanes_on
    then if ltb cap.max_heavy_jobs heavy then heavy_ceiling cap.max_heavy_jobs heavy ∷ [] else []
    else elim (lookup "worker-sync" cap.slots) [
      | none ↦ []
      | some s ↦ if ltb cap.max_heavy_jobs s then sync_ceiling cap.max_heavy_jobs s ∷ [] else []
    ]

pub storage_caution : Capacity → List Caution
storage_caution cap =
    let s = sync_slots cap in
    if ltb 0 s && ltb s cap.max_syncs_per_storage
    then storage_limit cap.max_syncs_per_storage s ∷ []
    else []

pub memory_caution : Capacity → ℕ → List Caution
unfolding summarize
memory_caution cap limit =
    let peak = (summarize cap).memory_peak in
    if ltb 0 limit && ltb limit peak then memory_limit peak limit ∷ [] else []

unfoldable pub validate_capacity : Capacity → ℕ → Validation
unfolding heavy_caution storage_caution memory_caution
validate_capacity cap limit = record {
  errors = lane_errors cap lanes;
  warnings = heavy_caution cap ++ storage_caution cap ++ memory_caution cap limit;
}
