-- ===== src/Supervisor/Statuses.antt =====
-- The statuses that the supervisor stores against the state machine of server/worker/commands.ts.
use catworld.Common.{ℕ, String, ◌≡◌, true, arith}
use catworld.Worker.Commands.{CommandStatus, accepted, draining, applying, failed, can_transition}
use catworld.Supervisor.{CoreCommand, ActiveCommand, Supervisor}
use catworld.Supervisor.Commands.{
  Outcome, fails, stores, restart_profile_part, stop_profile_part, start_profile_part,
  restart_all_part, restart_supervisor_part, final_status,
}

-- The status that a command gets: that of the part, or FAILED where the part throws.
abbrev pub status_of : Outcome → CommandStatus
status_of fails = failed
status_of (stores t) = t

-- Whatever action a claimed command asks for and whatever the slots hold, the status that its start
-- stores may follow ACCEPTED, and the status of its end may follow both DRAINING and APPLYING.
pub statuses_allowed :
    (cmd : CoreCommand) (now : ℕ) (name : String) (s : Supervisor) (a : ActiveCommand)
    → (can_transition accepted (status_of (restart_profile_part cmd now s).1) ≡ true)
      × (can_transition accepted (status_of (stop_profile_part cmd now name s).1) ≡ true)
      × (can_transition accepted (status_of (start_profile_part now name s).1) ≡ true)
      × (can_transition accepted (status_of (restart_all_part cmd now s).1) ≡ true)
      × (can_transition accepted (status_of (restart_supervisor_part cmd now s).1) ≡ true)
      × (can_transition draining (final_status a) ≡ true)
      × (can_transition applying (final_status a) ≡ true)
unfolding can_transition restart_profile_part stop_profile_part start_profile_part restart_all_part
    restart_supervisor_part
statuses_allowed cmd now name s a = (
  ground arith,
  ground arith,
  ground arith,
  ground arith,
  ground arith,
  ground arith,
  ground arith,
)
