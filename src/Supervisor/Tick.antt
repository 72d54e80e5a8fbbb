-- ===== src/Supervisor/Tick.antt =====
-- supervisor/core.ts: `startCommand`, `processCommands`, `finishCommands` and `tick`.
pub mod Keeps
use catworld.Common.{
  ℕ, ◌-◌, zero, suc, String, Bool, true, false, Option, none, some, List, [], ◌∷◌, map,
  if◌then◌else◌, leb,
}
use catworld.Worker.Commands.{
  CommandAction, restart_profile, stop_profile, start_profile, restart_all, restart_supervisor,
  CommandStatus, failed,
}
use catworld.Supervisor.{
  Slot, Kind, supervisor, CoreProfile, CoreConfig, CoreCommand, ActiveCommand, ChildSummary, Effect,
  update_command, set_profile_enabled, audit, heartbeat, expire_stale, exit, Supervisor,
  heartbeat_every_ms, expire_every_ms,
}
use catworld.Supervisor.Slots.{summary}
use catworld.Supervisor.Reconcile.{reconcile, enforce_deadlines}
use catworld.Supervisor.Commands.{
  Outcome, fails, stores, slot_by_id, restart_profile_part, stop_profile_part, start_profile_part,
  restart_all_part, restart_supervisor_part, command_done, final_status, retire,
}
use catworld.Supervisor.Await.{
  Event, all_happen, World, Result, ok, thrown, M, ◌>>=◌, ◌>>◌, return, throw, change, get, catch,
  note, await,
}

abbrev silent : Bool → List Effect
silent went = []

abbrev audited : String → String → Bool → M (Unit {0})
audited type id success = catch tt (await (λ went. audit type id success ∷ []))

abbrev updated : String → CommandStatus → M (Unit {0})
updated id status = await (λ went. update_command id status went ∷ [])

-- A part, and the store of the status that it ends with.
abbrev conclude : String → Outcome → M (Unit {0})
conclude id fails = throw
conclude id (stores status) = updated id status

abbrev run_part : CoreCommand → (Supervisor → Supervisor × Outcome) → M (Unit {0})
run_part cmd part w =
    let (s, outcome) = part w.sup in conclude cmd.id outcome (record w { sup = s })

-- Stops and starts write the profile's flag first.
set_enabled_part :
    CoreCommand
    → Bool
    → (String → Supervisor → Supervisor × Outcome)
    → Option (String × Slot)
    → M (Unit {0})
set_enabled_part cmd b part none = throw
set_enabled_part cmd b part (some (name, slot)) = do
  await (λ went. set_profile_enabled slot.profile.id b went ∷ [])
  audited "WORKER_PROFILE_UPDATED" slot.profile.name true
  run_part cmd (part name)

perform : CoreCommand → ℕ → CommandAction → M (Unit {0})
unfolding set_enabled_part
perform cmd now restart_profile = run_part cmd (restart_profile_part cmd now)
perform cmd now stop_profile = do
  s ← get
  set_enabled_part cmd false (stop_profile_part cmd now) (slot_by_id cmd.profile_id s.slots)
perform cmd now start_profile = do
  s ← get
  set_enabled_part cmd true (start_profile_part now) (slot_by_id cmd.profile_id s.slots)
perform cmd now restart_all = run_part cmd (restart_all_part cmd now)
perform cmd now restart_supervisor = run_part cmd (restart_supervisor_part cmd now)

unfoldable pub start_command : CoreCommand → ℕ → M (Unit {0})
unfolding perform
start_command cmd now = do audited "WORKER_COMMAND_STARTED" cmd.id true; perform cmd now cmd.action

-- The `catch` of `processCommands`.
abbrev report_failure : CoreCommand → M (Unit {0})
report_failure cmd = do updated cmd.id failed; audited "WORKER_COMMAND_FAILED" cmd.id false

abbrev or_report : CoreCommand → Result (Unit {0}) × World → Result (Unit {0}) × World
or_report cmd (ok a, w) = (ok a, w)
or_report cmd (thrown, w) = report_failure cmd w

-- At most five commands; `claims` are the answers of `claimCommand`, `none` past their end.
process_from : ℕ → List CoreCommand → ℕ → M (Unit {0})
process_from zero claims now = return tt
process_from (suc i) [] now = await silent
process_from (suc i) (cmd ∷ claims) now = do
  await silent
  λ w. or_report cmd (start_command cmd now w)
  process_from i claims now

unfoldable pub process_commands : List CoreCommand → ℕ → M (Unit {0})
unfolding process_from
process_commands claims now = process_from 5 claims now

abbrev is_supervisor : Kind → Bool
is_supervisor supervisor = true
is_supervisor _ = false

complete : String → ActiveCommand → M (Unit {0})
complete id a = do
  change (retire id)
  catch tt (updated id (final_status a))
  audited "WORKER_COMMAND_COMPLETED" id true
  if is_supervisor a.kind then change (note (λ _. exit 0 ∷ []) true) else return tt

finish_one : String → ActiveCommand → M (Unit {0})
unfolding complete
finish_one id a = do s ← get; if command_done a s then complete id a else return tt

finish_each : List (String × ActiveCommand) → M (Unit {0})
unfolding finish_one
finish_each [] = return tt
finish_each ((id, a) ∷ rest) = do finish_one id a; finish_each rest

-- Over a copy of the active commands.
unfoldable pub finish_commands : M (Unit {0})
unfolding finish_each
finish_commands = do s ← get; finish_each s.active

-- `summaries`.
unfoldable pub summaries : (ℕ → Option ℕ) → Supervisor → List ChildSummary
summaries pid_of s = map (λ e. summary pid_of e.1) s.slots

send_heartbeat : (ℕ → Option ℕ) → ℕ → M (Unit {0})
send_heartbeat pid_of now = do
  change (λ s. record s { last_heartbeat = now })
  s ← get
  await (λ went. heartbeat (summaries pid_of s) ∷ [])

beat : (ℕ → Option ℕ) → ℕ → M (Unit {0})
unfolding send_heartbeat
beat pid_of now = do
  s ← get
  let late = leb heartbeat_every_ms (now - s.last_heartbeat)
  if late then send_heartbeat pid_of now else return tt

send_expire : ℕ → M (Unit {0})
send_expire now = do change (λ s. record s { last_expire = now }); await (λ went. expire_stale ∷ [])

expire : ℕ → M (Unit {0})
unfolding send_expire
expire now = do
  s ← get
  let late = leb expire_every_ms (now - s.last_expire)
  if late then send_expire now else return tt

-- What the database and the clock answer in one tick.
pub record Answers : Type 0 where
  pub now : ℕ
  pub config : CoreConfig
  pub profiles : List CoreProfile
  pub claims : List CoreCommand
  pub pid_of : ℕ → Option ℕ

tick_body : Answers → M (Unit {0})
unfolding beat expire
tick_body a = do
  await silent
  change (λ s. record s { cfg = a.config })
  await silent
  change (reconcile a.profiles a.now)
  process_commands a.claims a.now
  change (enforce_deadlines a.now)
  finish_commands
  beat a.pid_of a.now
  expire a.now

-- The `catch` of `tick`: whatever is thrown, the tick ends normally.
unfoldable pub tick : Answers → M (Unit {0})
unfolding tick_body
tick a = catch tt (tick_body a)

-- A life of the supervisor: ticks, with what happens before each.
unfoldable pub run : List (List Event × Answers) → World → World
run [] w = w
run ((es, a) ∷ rounds) w =
    let w' : World = record w { sup = all_happen es w.sup } in run rounds (tick a w').1
