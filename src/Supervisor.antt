-- ===== src/Supervisor.antt =====
-- supervisor/core.ts: the data of the supervisor, which keeps one worker process for each enabled
-- profile. Times are milliseconds of the injected clock. A child process is the number of its
-- handle: `spawn` gives each child a new handle, and the source compares handles by reference.
-- Log lines, the details of audit events and signals' names are left out.
pub mod Slots
pub mod Reconcile
pub mod Commands
pub mod Await
pub mod Tick
pub mod SlotWise
pub mod WellFormed
pub mod Shutdown
pub mod Lifecycle
pub mod Completion
pub mod Restarts
pub mod Statuses
pub mod Tests
use catworld.Common.{ℕ, String, Bool, false, Option, List, []}
use catworld.Worker.Commands.{CommandAction, CommandMode, CommandStatus}
use catworld.Worker.Profiles.{Restartable}

pub data SlotState : Type 0 where
  starting running draining backoff crash_loop stopped : SlotState

pub record CoreProfile : Type 0 where
  pub id : String
  pub name : String
  pub enabled : Bool
  pub revision : ℕ
  pub job_types : List String
  pub concurrency : ℕ
  pub weights : Option (List ℕ)

pub record CoreCommand : Type 0 where
  pub id : String
  pub action : CommandAction
  pub mode : CommandMode
  pub profile_id : Option String
  pub timeout_ms : ℕ

pub record CoreConfig : Type 0 where
  pub stop_timeout_ms : ℕ
  pub backoff_max_ms : ℕ

pub record ChildSummary : Type 0 where
  pub profile_id : String
  pub name : String
  pub pid : Option ℕ
  pub state : SlotState
  pub restarts : ℕ
  pub last_exit_code : Option ℕ
  pub last_exit_at : Option ℕ
  pub started_at : Option ℕ
  pub restart_pending : Bool
  pub backoff_until : Option ℕ

abbrev pub stable_ms : ℕ
stable_ms = 60000

abbrev pub crash_loop_after : ℕ
crash_loop_after = 5

abbrev pub running_after_ms : ℕ
running_after_ms = 2000

abbrev pub sigkill_after_ms : ℕ
sigkill_after_ms = 30000

abbrev pub immediate_kill_after_ms : ℕ
immediate_kill_after_ms = 10000

abbrev pub heartbeat_every_ms : ℕ
heartbeat_every_ms = 10000

abbrev pub expire_every_ms : ℕ
expire_every_ms = 60000

pub record Slot : Type 0 where
  pub profile : CoreProfile
  pub child : Option ℕ
  pub state : SlotState
  pub spawned : Option Restartable
  pub started_at : Option ℕ
  pub spawn_count : ℕ
  pub crashes : ℕ
  pub backoff_until : Option ℕ
  pub last_exit_code : Option ℕ
  pub last_exit_at : Option ℕ
  pub draining : Bool
  pub drain_deadline : Option ℕ
  pub term_sent : Bool
  pub kill_at : Option ℕ
  pub forced : Bool

pub record Target : Type 0 where
  pub name : String
  pub old : Option ℕ

pub data Kind : Type 0 where
  restart stop start supervisor : Kind

pub record ActiveCommand : Type 0 where
  pub cmd : CoreCommand
  pub kind : Kind
  pub targets : List Target
  pub forced : Bool

-- What the supervisor does to the world: on a child process, on the database (with whether the
-- call went through), and on its own process.
pub data Effect : Type 0 where
  spawn : (name : String) (handle : ℕ) → Effect
  send_drain sigterm sigkill : (handle : ℕ) → Effect
  update_command : (id : String) (status : CommandStatus) (went : Bool) → Effect
  set_profile_enabled : (id : String) (enabled went : Bool) → Effect
  audit : (event_type resource_id : String) (success : Bool) → Effect
  heartbeat : List ChildSummary → Effect
  expire_stale : Effect
  exit : (code : ℕ) → Effect

-- The fields of the class `Supervisor`; `next_child` is the next new handle, and `out` the effects
-- so far, the oldest first.
pub record Supervisor : Type 0 where
  pub slots : List (String × Slot)
  pub active : List (String × ActiveCommand)
  pub shutting_down : Bool
  pub last_heartbeat : ℕ
  pub last_expire : ℕ
  pub cfg : CoreConfig
  pub next_child : ℕ
  pub out : List Effect

-- The fields' initial values.
abbrev pub initial : Supervisor
initial = record {
  slots = [];
  active = [];
  shutting_down = false;
  last_heartbeat = 0;
  last_expire = 0;
  cfg = record { stop_timeout_ms = 600000; backoff_max_ms = 60000 };
  next_child = 0;
  out = [];
}
