-- ===== src/Supervisor/Reconcile.antt =====
-- supervisor/core.ts: `reconcile`, which brings the slots in line with the profiles of the
-- database, `enforceDeadlines`, `beginShutdown` and the exit of a child.
use catworld.Common.{
  ℕ, ◌+◌, String, Bool, true, false, ◌&&◌, ◌||◌, not, Option, none, some, List, [], ◌∷◌, ◌++◌, map,
  if◌then◌else◌, ltb, is_some, is_none, get_or, any, includes, str_eq, lookup, insert,
}
use catworld.Worker.Commands.{safe}
use catworld.Supervisor.{CoreProfile, CoreConfig, Slot, ActiveCommand, Effect, Supervisor}
use catworld.Supervisor.Slots.{
  new_slot, spawn_slot, on_child_exit, begin_drain, enforce_slot, promote, disable_slot,
}

-- A slot is written back under its key, with what was done to its child.
abbrev pub put : String → Slot × List Effect → Supervisor → Supervisor
put name (slot, effects) s = record s { slots = insert name slot s.slots; out = s.out ++ effects }

-- `spawnSlot`: the new child has the next handle.
abbrev pub spawn_into : String → ℕ → Slot → Supervisor → Supervisor
spawn_into name now slot s =
    put name (spawn_slot s.next_child now slot) (record s { next_child = s.next_child + 1 })

-- `slot.backoffUntil !== null && now < slot.backoffUntil`.
abbrev pub waits : ℕ → Slot → Bool
waits now slot = elim slot.backoff_until [ none ↦ false | some t ↦ ltb now t ]

-- One round of the loop, for the profile's slot with the profile put in.
unfoldable pub reconcile_slot : ℕ → CoreProfile → Slot → Supervisor → Supervisor
reconcile_slot now p slot s =
    if not p.enabled
    then put p.name (disable_slot s.cfg now slot) s
    else if is_some slot.child || s.shutting_down
    then put p.name (slot, []) s
    else if waits now slot
    then put p.name (slot, []) s
    else spawn_into p.name now slot s

-- The slot that the loop looks at: that of the name, or a new one.
abbrev pub slot_for : ℕ → CoreProfile → Supervisor → Slot
slot_for now p s =
    let slot = get_or (lookup p.name s.slots) (new_slot p) in
    promote now (record slot { profile = p })

unfoldable pub reconcile_profiles : ℕ → List CoreProfile → Supervisor → Supervisor
unfolding reconcile_slot
reconcile_profiles now [] s = s
reconcile_profiles now (p ∷ ps) s =
    reconcile_profiles now ps (reconcile_slot now p (slot_for now p s) s)

-- A slot whose profile is gone is drained while it has a child.
abbrev pub drain_absent : CoreConfig → ℕ → Slot → Slot × List Effect
drain_absent cfg now slot =
    if is_some slot.child && not slot.draining
    then begin_drain safe cfg.stop_timeout_ms now slot
    else (slot, [])

unfoldable pub sweep :
    CoreConfig → ℕ → List String → List (String × Slot) → List (String × Slot) × List Effect
sweep cfg now seen [] = ([], [])
sweep cfg now seen ((name, slot) ∷ slots) =
    let (kept, effects) = sweep cfg now seen slots in
    if includes name seen
    then ((name, slot) ∷ kept, effects)
    else let (slot', es) = drain_absent cfg now slot in
      if is_none slot'.child then (kept, es ++ effects) else ((name, slot') ∷ kept, es ++ effects)

abbrev pub names : List CoreProfile → List String
names = map (λ p. p.name)

unfoldable pub reconcile : List CoreProfile → ℕ → Supervisor → Supervisor
unfolding reconcile_profiles
reconcile profiles now s =
    let s' = reconcile_profiles now profiles s in
    let (slots, effects) = sweep s'.cfg now (names profiles) s'.slots in
    record s' { slots = slots; out = s'.out ++ effects }

-- `a.forced = true` for the commands that name the slot.
abbrev pub force_one : String → ActiveCommand → ActiveCommand
force_one name a = if any (λ t. str_eq t.name name) a.targets then record a { forced = true } else a

pub force_commands : String → List (String × ActiveCommand) → List (String × ActiveCommand)
force_commands name [] = []
force_commands name ((id, a) ∷ rest) = (id, force_one name a) ∷ force_commands name rest

unfoldable pub enforce_from :
    ℕ
    → List (String × Slot)
    → List (String × ActiveCommand)
    → List (String × Slot) × List (String × ActiveCommand) × List Effect
unfolding force_commands
enforce_from now [] active = ([], active, [])
enforce_from now ((name, slot) ∷ slots) active =
    let (slot', es, forced) = enforce_slot now slot in
    let active' = if forced then force_commands slot.profile.name active else active in
    let (rest, active'', effects) = enforce_from now slots active' in
    ((name, slot') ∷ rest, active'', es ++ effects)

unfoldable pub enforce_deadlines : ℕ → Supervisor → Supervisor
unfolding enforce_from
enforce_deadlines now s =
    let (slots, active, effects) = enforce_from now s.slots s.active in
    record s { slots = slots; active = active; out = s.out ++ effects }

-- The `exit` of a child, at a time of its own: the closure holds the slot and the child.
unfoldable pub child_exits : String → ℕ → Option ℕ → ℕ → Supervisor → Supervisor
child_exits name handle code now s = elim (lookup name s.slots) [
  | none ↦ s
  | some slot ↦ put name (on_child_exit s.cfg now handle code slot) s
]

abbrev pub drain_all : ℕ → ℕ → List (String × Slot) → List (String × Slot) × List Effect
drain_all timeout now [] = ([], [])
drain_all timeout now ((name, slot) ∷ slots) =
    let (slot', es) = begin_drain safe timeout now slot in
    let (rest, effects) = drain_all timeout now slots in ((name, slot') ∷ rest, es ++ effects)

unfoldable pub begin_shutdown : ℕ → ℕ → Supervisor → Supervisor
begin_shutdown timeout now s =
    let (slots, effects) = drain_all timeout now s.slots in
    record s { shutting_down = true; slots = slots; out = s.out ++ effects }

-- `hasChildren`.
unfoldable pub has_children : Supervisor → Bool
has_children s = any (λ e. is_some e.1.child) s.slots
