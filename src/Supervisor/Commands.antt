-- ===== src/Supervisor/Commands.antt =====
-- supervisor/core.ts: the parts of `startCommand` and `finishCommands` between two awaits.
use catworld.Common.{
  ℕ, String, Bool, true, false, ◌&&◌, not, Option, none, some, List, [], ◌∷◌, ◌++◌, if◌then◌else◌,
  ◌==◌, is_some, is_none, str_eq, every, lookup, insert, remove,
}
use catworld.Worker.Commands.{CommandStatus, draining, applying, done, forced}
use catworld.Supervisor.{
  Slot, Target, Kind, restart, stop, supervisor, CoreCommand, ActiveCommand, Effect, Supervisor,
}
use catworld.Supervisor.Slots.{begin_drain}
use catworld.Supervisor.Reconcile.{put, spawn_into}

-- What a part of a command ends with: an exception, or the status to store.
pub data Outcome : Type 0 where
  fails : Outcome
  stores : CommandStatus → Outcome

-- `s.profile.id === profileId`, where the id may be null.
abbrev same_id : Option String → String → Bool
same_id none id = false
same_id (some i) id = str_eq id i

unfoldable pub slot_by_id : Option String → List (String × Slot) → Option (String × Slot)
slot_by_id id [] = none
slot_by_id id ((name, slot) ∷ slots) =
    if same_id id slot.profile.id then some (name, slot) else slot_by_id id slots

abbrev pub activate : CoreCommand → Kind → List Target → Supervisor → Supervisor
activate cmd kind targets s =
    let a : ActiveCommand = record { cmd = cmd; kind = kind; targets = targets; forced = false } in
    record s { active = insert cmd.id a s.active }

-- The drain of the slot's child by a command, which then waits for it.
abbrev pub drain_for : CoreCommand → Kind → ℕ → String → Slot → Supervisor → Supervisor
drain_for cmd kind now name slot s =
    activate cmd kind (record { name = slot.profile.name; old = slot.child } ∷ [])
      (put name (begin_drain cmd.mode cmd.timeout_ms now slot) s)

unfoldable pub restart_profile_part : CoreCommand → ℕ → Supervisor → Supervisor × Outcome
restart_profile_part cmd now s = elim (slot_by_id cmd.profile_id s.slots) [
  | none ↦ (s, fails)
  | some (name, slot) ↦
      let ready = record slot { backoff_until = none } in
      if not slot.profile.enabled
      then (s, fails)
      else if is_none slot.child
      then (
        if s.shutting_down then put name (ready, []) s else spawn_into name now ready s,
        stores done,
      )
      else (drain_for cmd restart now name slot s, stores draining)
]

abbrev pub with_enabled : Bool → Slot → Slot
with_enabled b slot = let p = slot.profile in record slot { profile = record p { enabled = b } }

-- After `setProfileEnabled(id, false)`, on the slot found before it.
unfoldable pub stop_profile_part : CoreCommand → ℕ → String → Supervisor → Supervisor × Outcome
stop_profile_part cmd now name s = elim (lookup name s.slots) [
  | none ↦ (s, fails)
  | some found ↦
      let slot = with_enabled false found in
      if is_none slot.child
      then (put name (slot, []) s, stores done)
      else (drain_for cmd stop now name slot s, stores draining)
]

unfoldable pub start_profile_part : ℕ → String → Supervisor → Supervisor × Outcome
start_profile_part now name s = elim (lookup name s.slots) [
  | none ↦ (s, fails)
  | some found ↦
      let enabled = with_enabled true found in
      let slot = record enabled { backoff_until = none } in
      (
        if is_none slot.child && not s.shutting_down
            then spawn_into name now slot s
            else put name (slot, []) s,
        stores done,
      )
]

-- The loop of RESTART_ALL over the slots.
unfoldable pub restart_each :
    CoreCommand → ℕ → List (String × Slot) → List (String × Slot) × List Target × List Effect
restart_each cmd now [] = ([], [], [])
restart_each cmd now ((name, slot) ∷ slots) =
    let (rest, targets, effects) = restart_each cmd now slots in
    let (slot', es) = begin_drain cmd.mode cmd.timeout_ms now slot in
    if not slot.profile.enabled
    then ((name, slot) ∷ rest, targets, effects)
    else if is_some slot.child
    then (
      (name, slot') ∷ rest,
      record { name = slot.profile.name; old = slot.child } ∷ targets,
      es ++ effects,
    )
    else ((name, record slot { backoff_until = none }) ∷ rest, targets, effects)

abbrev pub is_empty {ℓ} : {A : Type ℓ} → List A → Bool
is_empty [] = true
is_empty (x ∷ xs) = false

unfoldable pub restart_all_part : CoreCommand → ℕ → Supervisor → Supervisor × Outcome
unfolding restart_each
restart_all_part cmd now s =
    let (slots, targets, effects) = restart_each cmd now s.slots in
    let s' = record s { slots = slots; out = s.out ++ effects } in
    if is_empty targets
    then (s', stores done)
    else (activate cmd restart targets s', stores draining)

-- The loop of RESTART_SUPERVISOR over the slots that have a child.
unfoldable pub shut_each :
    CoreCommand → ℕ → List (String × Slot) → List (String × Slot) × List Target × List Effect
shut_each cmd now [] = ([], [], [])
shut_each cmd now ((name, slot) ∷ slots) =
    let (rest, targets, effects) = shut_each cmd now slots in
    let (slot', es) = begin_drain cmd.mode cmd.timeout_ms now slot in
    if is_some slot.child
    then (
      (name, slot') ∷ rest,
      record { name = slot.profile.name; old = slot.child } ∷ targets,
      es ++ effects,
    )
    else ((name, slot) ∷ rest, targets, effects)

unfoldable pub restart_supervisor_part : CoreCommand → ℕ → Supervisor → Supervisor × Outcome
unfolding shut_each
restart_supervisor_part cmd now s =
    let (slots, targets, effects) = shut_each cmd now s.slots in
    let s' = record s { shutting_down = true; slots = slots; out = s.out ++ effects } in
    (activate cmd supervisor targets s', stores (if is_empty targets then applying else draining))

abbrev pub same_child : Option ℕ → Option ℕ → Bool
same_child none none = true
same_child none (some d) = false
same_child (some c) none = false
same_child (some c) (some d) = c == d

abbrev pub child_of : String → List (String × Slot) → Option ℕ
child_of name slots = elim (lookup name slots) [ none ↦ none | some slot ↦ slot.child ]

abbrev is_restart : Kind → Bool
is_restart restart = true
is_restart _ = false

-- A restart is over for a target when another child runs, any other command when none runs.
unfoldable pub target_done : Kind → List (String × Slot) → Target → Bool
target_done kind slots t =
    let child = child_of t.name slots in
    if is_restart kind then is_some child && not (same_child child t.old) else is_none child

unfoldable pub command_done : ActiveCommand → Supervisor → Bool
unfolding target_done
command_done a s = every (target_done a.kind s.slots) a.targets

abbrev pub final_status : ActiveCommand → CommandStatus
final_status a = if a.forced then forced else done

unfoldable pub retire : String → Supervisor → Supervisor
retire id s = record s { active = remove id s.active }
