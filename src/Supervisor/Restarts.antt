-- ===== src/Supervisor/Restarts.antt =====
-- A restart by command runs to its end.
use catworld.Common.{
  ℕ, String, ◌≡◌, refl, sym, ◌∙◌, ap, true, false, ◌&&◌, ◌||◌, not, Option, none, some, List, [],
  ◌∷◌, arith, is_some, lookup, lookup-insert_self, Each-lookup,
}
use catworld.Worker.Commands.{CommandMode, draining}
use catworld.Supervisor.{
  CoreProfile, CoreConfig, CoreCommand, ActiveCommand, restart, Slot, Supervisor,
}
use catworld.Supervisor.Slots.{spawn_slot, on_child_exit, child_exit, begin_drain, promote}
use catworld.Supervisor.Reconcile.{reconcile_slot, slot_for, waits, child_exits}
use catworld.Supervisor.Commands.{
  slot_by_id, restart_profile_part, command_done, target_done, stores, same_child, child_of,
  drain_for,
}
use catworld.Supervisor.SlotWise.{AllSlots}
use catworld.Supervisor.Completion.{spawn_round}
use catworld.Supervisor.WellFormed.{IsWellFormed}

-- The active command that a restart of a slot's process leaves.
abbrev pub restart_of : CoreCommand → Slot → ActiveCommand
restart_of cmd x = record {
  cmd = cmd;
  kind = restart;
  targets = record { name = x.profile.name; old = x.child } ∷ [];
  forced = false;
}

target_done-at :
    (name : String) (old : Option ℕ) (m : List (String × Slot)) (y : Slot)
    → lookup name m ≡ some y
    → target_done restart m (record { name = name; old = old })
      ≡ (is_some y.child && not (same_child y.child old))
unfolding target_done
target_done-at name old m y e = rw (e, target_done, child_of) refl

restart_done_at :
    (cmd : CoreCommand) (x y : Slot) (s : Supervisor)
    → lookup x.profile.name s.slots ≡ some y
    → command_done (restart_of cmd x) s ≡ (is_some y.child && not (same_child y.child x.child))
unfolding command_done
restart_done_at cmd x y s e = ground (arith, target_done-at x.profile.name x.child s.slots y e)

drained_facts :
    (m : CommandMode) (timeout now c : ℕ) (x : Slot)
    → x.child ≡ some c
    → let y = (begin_drain m timeout now x).0 in (y.child ≡ some c) × (y.draining ≡ true)
unfolding begin_drain
drained_facts m timeout now c x e = ground arith

-- The slot after the exit of the process that it drains.
exit_facts :
    (cfg : CoreConfig) (now c : ℕ) (code : Option ℕ) (y : Slot)
    → y.child ≡ some c
    → y.draining ≡ true
    → let z = (on_child_exit cfg now c code y).0 in (z.child ≡ none) × (z.backoff_until ≡ none)
unfolding on_child_exit child_exit
exit_facts cfg now c code y e d = (ground arith, ground arith)

abbrev IsVacant : String → Supervisor → Supervisor → Type 0
IsVacant name s s' =
    (z : Slot) × (lookup name s'.slots ≡ some z)
    × (z.child ≡ none)
    × (z.backoff_until ≡ none)
    × (s'.shutting_down ≡ s.shutting_down)
    × (s'.next_child ≡ s.next_child)

exits-IsVacant :
    (name : String) (c now : ℕ) (code : Option ℕ) (s : Supervisor) (y : Slot)
    → lookup name s.slots ≡ some y
    → y.child ≡ some c
    → y.draining ≡ true
    → IsVacant name s (child_exits name c code now s)
unfolding child_exits
exits-IsVacant name c now code s y at e d =
    rw (at, child_exits)
      (let r = on_child_exit s.cfg now c code y in
        let (gone, free) = exit_facts s.cfg now c code y e d in
        (r.0, lookup-insert_self name r.0 s.slots, gone, free, refl, refl))

promote_vacant : (now : ℕ) (x : Slot) → x.child ≡ none → promote now x ≡ x
unfolding promote
promote_vacant now x e = ground arith

spawn_facts : (n now : ℕ) (x : Slot) → (spawn_slot n now x).0.child ≡ some n
unfolding spawn_slot
spawn_facts n now x = refl

vacant_restarts :
    (now : ℕ) (p : CoreProfile) (s s' : Supervisor)
    → IsVacant p.name s s'
    → s.shutting_down ≡ false
    → p.enabled ≡ true
    → (v : Slot) × (lookup p.name (reconcile_slot now p (slot_for now p s') s').slots ≡ some v)
      × (v.child ≡ some s.next_child)
vacant_restarts now p s s' (z, at, gone, free, down, next) up on =
    let z' : Slot = record z { profile = p } in
    let slot : slot_for now p s' ≡ z' = rw (at) (promote_vacant now z' gone) in
    let idle : (is_some z'.child || s'.shutting_down) ≡ false = ground arith in
    let ready : waits now z' ≡ false = ground arith in
    rw (slot, spawn_round now p z' s' on idle ready)
      (
        (spawn_slot s'.next_child now z').0,
        lookup-insert_self p.name _ s'.slots,
        spawn_facts _ now z' ∙ ap some next,
      )

-- The parts of a restart: the drain, the exit of the process and the next reconciliation.
module _ (cmd : CoreCommand) (now : ℕ) (s : Supervisor) (x : Slot) (c : ℕ) where
  restart_begins :
      slot_by_id cmd.profile_id s.slots ≡ some (x.profile.name, x)
      → x.profile.enabled ≡ true
      → x.child ≡ some c
      → restart_profile_part cmd now s
        ≡ (drain_for cmd restart now x.profile.name x s, stores draining)
  unfolding restart_profile_part begin_drain
  restart_begins found on running = rw (found, restart_profile_part) (simp (on, running))

  -- A restart of an enabled profile's running process is not over while the process drains, nor when
  -- it has exited, and is over as soon as the next reconciliation has started another in its place.
  pub restart_completes :
      (t later : ℕ) (code : Option ℕ) (p : CoreProfile)
      → AllSlots IsWellFormed s
      → slot_by_id cmd.profile_id s.slots ≡ some (x.profile.name, x)
      → lookup x.profile.name s.slots ≡ some x
      → x.profile.enabled ≡ true
      → x.child ≡ some c
      → s.shutting_down ≡ false
      → p.name ≡ x.profile.name
      → p.enabled ≡ true
      → let drained = (restart_profile_part cmd now s).0 in
        let exited = child_exits x.profile.name c code t drained in
        let restarted = reconcile_slot later p (slot_for later p exited) exited in
        let a = restart_of cmd x in
        ((restart_profile_part cmd now s).1 ≡ stores draining)
        × (lookup cmd.id drained.active ≡ some a)
        × (command_done a drained ≡ false)
        × (command_done a exited ≡ false)
        × (command_done a restarted ≡ true)
  restart_completes t later code p wf found at on running up same on' =
      let y = (begin_drain cmd.mode cmd.timeout_ms now x).0 in
      let d = drain_for cmd restart now x.profile.name x s in
      let begins = restart_begins found on running in
      let (busy, drains) = drained_facts cmd.mode cmd.timeout_ms now c x running in
      let at_y : lookup x.profile.name d.slots ≡ some y =
        lookup-insert_self x.profile.name y s.slots in
      let exited = child_exits x.profile.name c code t d in
      let vacant : IsVacant x.profile.name d exited =
        exits-IsVacant x.profile.name c t code d y at_y busy drains in
      let given = (Each-lookup (IsWellFormed s.next_child) x.profile.name x s.slots wf at).given in
      let vacant' : IsVacant p.name d exited = rw (same) vacant in
      let (v, at_v, other) = vacant_restarts later p d exited vacant' up on' in
      let restarted = reconcile_slot later p (slot_for later p exited) exited in
      let at_v' : lookup x.profile.name restarted.slots ≡ some v =
        ap (λ k. lookup k restarted.slots) (sym same) ∙ at_v in
      let (z, at_z, gone, _, _, _) = vacant in
      rw (begins) (
        refl,
        lookup-insert_self cmd.id (restart_of cmd x) s.active,
        restart_done_at cmd x y d at_y ∙ ground (arith, busy, running),
        restart_done_at cmd x z exited at_z ∙ ground (arith, gone),
        restart_done_at cmd x v restarted at_v' ∙ ground (arith, other, running, given),
      )
