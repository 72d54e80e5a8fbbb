-- ===== src/Supervisor/Tests.antt =====
-- The supervisor at concrete inputs.
use catworld.Common.{
  ℕ, ◌+◌, ◌≡◌, refl, true, false, none, some, List, [], ◌∷◌, arith, lookup, insert, remove, Each,
}
use mathlib.Core.List.{Memᴰ}
use catworld.Worker.Commands.{restart_profile, safe, draining as draining_status}
use catworld.Worker.Profiles.{needs_restart}
use catworld.Supervisor.{
  starting, running, draining, backoff, stopped, CoreProfile, CoreConfig, CoreCommand, Slot,
  ChildSummary, spawn, send_drain, sigterm, sigkill, audit, heartbeat, Supervisor, initial,
}
use catworld.Supervisor.Slots.{
  settings, new_slot, spawn_slot, child_exit, backoff_delay, on_child_exit, begin_drain,
  enforce_slot, promote, disable_slot, summary,
}
use catworld.Supervisor.Reconcile.{
  reconcile_profiles, sweep, enforce_deadlines, enforce_from, reconcile_slot, slot_for, reconcile,
  child_exits, names,
}
use catworld.Supervisor.Commands.{slot_by_id, restart_profile_part, command_done, stores}
use catworld.Supervisor.Await.{◌>>=◌, await, Event, exits, World}
use catworld.Supervisor.Tick.{process_commands, finish_commands, summaries, Answers, tick, run}
use catworld.Supervisor.SlotWise.{AllSlots}
use catworld.Supervisor.WellFormed.{IsWellFormed, run-IsWellFormed}
use catworld.Supervisor.Shutdown.{run_shutdown_spawns_nothing}
use catworld.Supervisor.Lifecycle.{Crash, crash_all, crash_all-backoff, drain_escalates}
use catworld.Supervisor.Completion.{IsSettled, IsLeaving, reconcile_converges}
use catworld.Supervisor.Restarts.{restart_of, restart_completes}

abbrev general : CoreProfile
general = record {
  id = "1";
  name = "geral";
  enabled = true;
  revision = 1;
  job_types = "IMPORT_UPLOAD" ∷ "SOURCE_REFRESH" ∷ [];
  concurrency = 2;
  weights = some [];
}

abbrev heavy : CoreProfile
heavy = record {
  id = "2";
  name = "pesado";
  enabled = false;
  revision = 3;
  job_types = "DERIVED_REFRESH" ∷ [];
  concurrency = 1;
  weights = some (2 ∷ []);
}

abbrev config : CoreConfig
config = record { stop_timeout_ms = 600000; backoff_max_ms = 60000 }

abbrev answers : ℕ → List CoreCommand → Answers
answers t claims = record {
  now = t;
  config = config;
  profiles = general ∷ heavy ∷ [];
  claims = claims;
  pid_of = λ c. some (c + 4000);
}

abbrev restart_general : CoreCommand
restart_general = record {
  id = "c1";
  action = restart_profile;
  mode = safe;
  profile_id = some "1";
  timeout_ms = 30000;
}

-- A worker that has run for a while as the process 7.
abbrev busy : Slot
busy = record {
  profile = general;
  child = some 7;
  state = running;
  spawned = some (settings general);
  started_at = some 1000;
  spawn_count = 1;
  crashes = 0;
  backoff_until = none;
  last_exit_code = none;
  last_exit_at = none;
  draining = false;
  drain_deadline = none;
  term_sent = false;
  kill_at = none;
  forced = false;
}

abbrev busy_supervisor : Supervisor
busy_supervisor = record initial { slots = ("geral", busy) ∷ []; next_child = 8 }

abbrev at_rest : World
at_rest = record { sup = initial; script = [] }

abbrev summary_of_general : ℕ → ChildSummary
summary_of_general started = record {
  profile_id = "1";
  name = "geral";
  pid = some 4000;
  state = starting;
  restarts = 0;
  last_exit_code = none;
  last_exit_at = none;
  started_at = some started;
  restart_pending = false;
  backoff_until = none;
}

abbrev summary_of_heavy : ChildSummary
summary_of_heavy = record {
  profile_id = "2";
  name = "pesado";
  pid = none;
  state = stopped;
  restarts = 0;
  last_exit_code = none;
  last_exit_at = none;
  started_at = none;
  restart_pending = false;
  backoff_until = none;
}

-- The first tick starts the enabled profile and tells the database.
first_tick :
    (tick (answers 20000 []) at_rest).1.sup.out
    ≡ spawn "geral" 0
      ∷ audit "WORKER_STARTED" "geral" true
      ∷ heartbeat (summary_of_general 20000 ∷ summary_of_heavy ∷ [])
      ∷ []
unfolding ◌>>=◌ await tick reconcile reconcile_profiles reconcile_slot promote new_slot spawn_slot
    disable_slot sweep lookup insert remove needs_restart process_commands enforce_deadlines
    enforce_from enforce_slot finish_commands summaries summary
first_tick = refl

-- A worker that dies while the supervisor waits for the profiles is started again only once its
-- backoff of one second is over.
abbrev crash_during_wait : List (List Event × Answers)
crash_during_wait =
    ([], answers 20000 [])
    ∷ (exits "geral" 0 (some 1) 20500 ∷ [], answers 21000 [])
    ∷ ([], answers 21500 [])
    ∷ []

crash_then_restart :
    ((run crash_during_wait at_rest).sup.next_child ≡ 2)
    × ((run
          (([], answers 20000 []) ∷ (exits "geral" 0 (some 1) 20500 ∷ [], answers 21000 []) ∷ [])
          at_rest).sup.next_child
        ≡ 1)
unfolding ◌>>=◌ await run tick reconcile reconcile_profiles reconcile_slot promote new_slot
    spawn_slot disable_slot sweep lookup insert process_commands enforce_deadlines enforce_from
    enforce_slot finish_commands child_exits on_child_exit child_exit backoff_delay
crash_then_restart = (refl, refl)

run-IsWellFormed_example : AllSlots IsWellFormed (run crash_during_wait at_rest).sup
run-IsWellFormed_example = run-IsWellFormed crash_during_wait at_rest tt

run_shutdown_spawns_nothing_example :
    ((run crash_during_wait (record {
      sup = record busy_supervisor { shutting_down = true };
      script = [];
    })).sup.shutting_down
      ≡ true)
    × ((run crash_during_wait (record {
      sup = record busy_supervisor { shutting_down = true };
      script = [];
    })).sup.next_child
        ≡ 8)
run_shutdown_spawns_nothing_example =
    run_shutdown_spawns_nothing crash_during_wait
      (record { sup = record busy_supervisor { shutting_down = true }; script = [] }) refl

abbrev quick : ℕ → Crash
quick t = record { handle = t; start = t; lasted = 50; code = some 1 }

crash_all-backoff_example :
    let y = crash_all config (quick 50000 ∷ quick 9000 ∷ quick 3000 ∷ []) (new_slot general) in
    (y.child ≡ none) × (y.backoff_until ≡ some 54050) × (y.state ≡ backoff)
crash_all-backoff_example =
    crash_all-backoff config (quick 50000) (quick 9000 ∷ quick 3000 ∷ []) general
      ((omega arith, refl), ((omega arith, refl), ((omega arith, refl), tt)))

abbrev leaving : Slot
leaving = record busy { draining = true; state = draining; drain_deadline = some 60000 }

busy-IsWellFormed : IsWellFormed 8 "geral" busy
busy-IsWellFormed = ground arith

drain_escalates_example :
    let drained = begin_drain safe 30000 5000 busy in
    let early = enforce_slot 34999 drained.0 in
    let late = enforce_slot 35000 early.0 in
    let waits = enforce_slot (35000 + 29999) late.0 in
    let last = enforce_slot 65000 late.0 in
    (drained.1 ≡ send_drain 7 ∷ [])
    × ((early.1 ≡ []) × (early.2 ≡ false))
    × ((late.1 ≡ sigterm 7 ∷ []) × (late.2 ≡ true) × (late.0.forced ≡ true))
    × (waits.1 ≡ [])
    × (last.1 ≡ sigkill 7 ∷ [])
drain_escalates_example =
    drain_escalates 7 5000 30000 34999 35000 65000 "geral" 8 busy busy-IsWellFormed refl refl
      (omega arith) (omega arith) (omega arith)

-- A profile that is gone from the list leaves its worker to drain.
reconcile_converges_example :
    ((p : CoreProfile)
      → Memᴰ p (heavy ∷ [])
      → IsSettled 20000 (reconcile (heavy ∷ []) 20000 busy_supervisor) p)
    × Each (IsLeaving (names (heavy ∷ []))) (reconcile (heavy ∷ []) 20000 busy_supervisor).slots
reconcile_converges_example = reconcile_converges 20000 (heavy ∷ []) busy_supervisor (tt, tt)

restart_completes_example :
    let drained = (restart_profile_part restart_general 20000 busy_supervisor).0 in
    let exited = child_exits "geral" 7 (some 0) 21000 drained in
    let restarted = reconcile_slot 22000 general (slot_for 22000 general exited) exited in
    ((restart_profile_part restart_general 20000 busy_supervisor).1 ≡ stores draining_status)
    × (lookup "c1" drained.active ≡ some (restart_of restart_general busy))
    × (command_done (restart_of restart_general busy) drained ≡ false)
    × (command_done (restart_of restart_general busy) exited ≡ false)
    × (command_done (restart_of restart_general busy) restarted ≡ true)
unfolding slot_by_id lookup
restart_completes_example =
    restart_completes restart_general 20000 busy_supervisor busy 7 21000 22000 (some 0) general
      (busy-IsWellFormed, tt) refl refl refl refl refl refl refl
