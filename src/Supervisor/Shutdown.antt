-- ===== src/Supervisor/Shutdown.antt =====
-- Once the shutdown has begun, no process is started again.
use catworld.Common.{ℕ, String, ◌≡◌, refl, true, List, [], ◌∷◌, arith}
use catworld.Supervisor.{CoreProfile, CoreCommand, Slot, Supervisor}
use catworld.Supervisor.Reconcile.{
  reconcile_slot, reconcile_profiles, slot_for, reconcile, enforce_deadlines, child_exits,
  begin_shutdown,
}
use catworld.Supervisor.Commands.{
  restart_profile_part, stop_profile_part, start_profile_part, restart_all_part,
  restart_supervisor_part, retire,
}
use catworld.Supervisor.Await.{Event, exits, shuts_down, happens, World}
use catworld.Supervisor.Tick.{Answers, run}
use catworld.Supervisor.Tick.Keeps.{Stable, Keeps-run}

module _ (n : ℕ) where
  -- The shutdown has begun, and the next process would have the handle `n`.
  abbrev pub IsFrozen : Supervisor → Type 0
  IsFrozen s = (s.shutting_down ≡ true) × (s.next_child ≡ n)

  happens-IsFrozen : (e : Event) (s : Supervisor) → IsFrozen s → IsFrozen (happens e s)
  unfolding child_exits begin_shutdown
  happens-IsFrozen (exits k c code now) s h = ground arith
  happens-IsFrozen (shuts_down t now) s h = ground arith

  reconcile_slot-IsFrozen :
      (now : ℕ) (p : CoreProfile) (x : Slot) (s : Supervisor)
      → IsFrozen s
      → IsFrozen (reconcile_slot now p x s)
  unfolding reconcile_slot
  reconcile_slot-IsFrozen now p x s h = ground arith

  reconcile_profiles-IsFrozen :
      (now : ℕ) (ps : List CoreProfile) (s : Supervisor)
      → IsFrozen s
      → IsFrozen (reconcile_profiles now ps s)
  unfolding reconcile_profiles
  reconcile_profiles-IsFrozen now [] s h = h
  reconcile_profiles-IsFrozen now (p ∷ ps) s h =
      reconcile_profiles-IsFrozen now ps _ (reconcile_slot-IsFrozen now p (slot_for now p s) s h)

  restart_profile-IsFrozen :
      (c : CoreCommand) (now : ℕ) (s : Supervisor)
      → IsFrozen s
      → IsFrozen (restart_profile_part c now s).0
  unfolding restart_profile_part
  restart_profile-IsFrozen c now s h = ground arith

  stop_profile-IsFrozen :
      (c : CoreCommand) (now : ℕ) (k : String) (s : Supervisor)
      → IsFrozen s
      → IsFrozen (stop_profile_part c now k s).0
  unfolding stop_profile_part
  stop_profile-IsFrozen c now k s h = ground arith

  start_profile-IsFrozen :
      (now : ℕ) (k : String) (s : Supervisor) → IsFrozen s → IsFrozen (start_profile_part now k s).0
  unfolding start_profile_part
  start_profile-IsFrozen now k s h = ground arith

  restart_all-IsFrozen :
      (c : CoreCommand) (now : ℕ) (s : Supervisor)
      → IsFrozen s
      → IsFrozen (restart_all_part c now s).0
  unfolding restart_all_part
  restart_all-IsFrozen c now s h = ground arith

  IsFrozen-Stable : Stable IsFrozen
  unfolding reconcile enforce_deadlines restart_supervisor_part retire
  IsFrozen-Stable = record {
    on_event = happens-IsFrozen;
    on_output = λ es s h. h;
    on_config = λ c s h. h;
    on_beat = λ t s h. h;
    on_expire = λ t s h. h;
    on_reconcile = λ ps now s h. reconcile_profiles-IsFrozen now ps s h;
    on_deadlines = λ now s h. h;
    on_restart = restart_profile-IsFrozen;
    on_stop = stop_profile-IsFrozen;
    on_start = start_profile-IsFrozen;
    on_restart_all = restart_all-IsFrozen;
    on_restart_supervisor = λ c now s h. (refl, h.1);
    on_retire = λ id s h. h;
  }

-- Once the shutdown has begun it lasts and no process is ever started, neither by a reconciliation
-- nor by a command, whatever happens during any number of ticks.
pub run_shutdown_spawns_nothing :
    (rounds : List (List Event × Answers)) (w : World)
    → w.sup.shutting_down ≡ true
    → ((run rounds w).sup.shutting_down ≡ true) × ((run rounds w).sup.next_child ≡ w.sup.next_child)
run_shutdown_spawns_nothing rounds w h =
    Keeps-run (IsFrozen w.sup.next_child) (IsFrozen-Stable w.sup.next_child) rounds w (h, refl)
