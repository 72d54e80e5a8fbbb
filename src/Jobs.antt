-- ===== src/Jobs.antt =====
-- The tables that the workers share, and the statements on them: the jobs (cw_jobs), and of uploads,
-- sources and derived tables what the workers write. A time is in milliseconds. `UPDATE ... WHERE`
-- changes every row that passes a test, in one step.
pub mod Claim
pub mod Finish
pub mod Recover
pub mod Tables
pub mod Order
pub mod Steps
pub mod Moves
pub mod Releases
pub mod Growth
pub mod Upkeep
pub mod Kinds
pub mod Attempts
pub mod Endings
pub mod Limits
pub mod Single
pub mod Due
pub mod Late
pub mod Return
pub mod Taken
pub mod Orphans
pub mod Uploads
pub mod Bulk
pub mod Chores
pub mod Sources
pub mod Tests
use catworld.Common.{
  ℕ, ◌+◌, String, Bool, true, false, ◌&&◌, Option, none, some, List, [], ◌∷◌, map, if◌then◌else◌,
  str_eq, length, keep,
}

pub data JobStatus : Type 0 where
  queued running completed failed : JobStatus

-- `JSON.parse` of the payload; a field of another type than the code asks for counts as missing.
pub record Payload : Type 0 where
  pub dataset_source_id : Option String
  pub derived_table_id : Option String
  pub project_id : Option String
  pub dataset_id : Option String
  pub target_storage_server_id : Option String
  pub reconciliation : Bool
  pub manual : Bool
  pub accept_drop : Bool

pub data PayloadJson : Type 0 where
  null malformed : PayloadJson
  parsed : Payload → PayloadJson

pub record Job : Type 0 where
  pub id : String
  pub type : String
  pub status : JobStatus
  pub upload_id : Option String
  pub payload_json : PayloadJson
  pub attempts : ℕ
  pub max_attempts : ℕ
  pub available_at : ℕ
  pub locked_at : Option ℕ
  pub locked_by : Option String
  pub heartbeat_at : Option ℕ
  pub weight : ℕ
  pub storage_server_id : Option String
  pub last_error : Option String

pub data UploadStatus : Type 0 where
  pending_upload queued_preview previewing awaiting_confirmation : UploadStatus
  queued_import importing retrying done cancelled broken : UploadStatus

-- `done`, `broken` and `cancelled` are COMPLETED, FAILED and CANCELLED.
pub record Upload : Type 0 where
  pub id : String
  pub status : UploadStatus
  pub error_message : Option String
  pub row_count : ℕ
  -- `previewJson.rowCount`, if there is a preview that can be read.
  pub preview_rows : Option ℕ
  pub updated_at : ℕ

pub record Source : Type 0 where
  pub id : String
  pub last_status : Option String
  pub last_error : Option String
  pub refresh_cron : Option String
  pub reconciliation_cron : Option String
  pub next_refresh_at : Option ℕ
  pub next_reconciliation_at : Option ℕ

pub record Derived : Type 0 where
  pub id : String
  pub last_status : Option String
  pub last_error : Option String
  pub refresh_cron : Option String
  pub next_refresh_at : Option ℕ

pub record Db : Type 0 where
  pub jobs : List Job
  pub uploads : List Upload
  pub sources : List Source
  pub derived : List Derived

-- `UPDATE ... SET f WHERE p`.
abbrev pub update_where {ℓ} : {A : Type ℓ} → (A → Bool) → (A → A) → List A → List A
update_where p f = map (λ x. if p x then f x else x)

abbrev pub count {ℓ} : {A : Type ℓ} → (A → Bool) → List A → ℕ
count p xs = length (keep p xs)

abbrev pub is_queued : JobStatus → Bool
is_queued queued = true
is_queued running = false
is_queued completed = false
is_queued failed = false

abbrev pub is_running : JobStatus → Bool
is_running queued = false
is_running running = true
is_running completed = false
is_running failed = false

-- `status IN ('QUEUED','RUNNING')`.
abbrev pub is_active : JobStatus → Bool
is_active queued = true
is_active running = true
is_active completed = false
is_active failed = false

abbrev pub is_failed : JobStatus → Bool
is_failed queued = false
is_failed running = false
is_failed completed = false
is_failed failed = true

abbrev pub same_text : Option String → Option String → Bool
same_text none b = false
same_text (some a) none = false
same_text (some a) (some b) = str_eq a b

unfoldable pub find_job : String → List Job → Option Job
find_job id [] = none
find_job id (j ∷ js) = if str_eq j.id id then some j else find_job id js
