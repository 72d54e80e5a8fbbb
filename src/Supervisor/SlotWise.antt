-- ===== src/Supervisor/SlotWise.antt =====
-- Invariants of the single slots: what each operation on a slot keeps, with `n` the next handle,
-- every part of the supervisor keeps for all of its slots.
use catworld.Common.{
  ℕ, ◌+◌, String, ◌≡◌, refl, Bool, true, false, ◌||◌, Option, none, some, List, [], ◌∷◌, arith,
  is_some, get_or, Option-cases, Bool-cases, inl, inr, lookup, Each, Each-lookup, Each-insert,
}
use catworld.Worker.Commands.{CommandMode, safe}
use catworld.Supervisor.{
  CoreProfile, CoreConfig, CoreCommand, Slot, ActiveCommand, Effect, Supervisor,
}
use catworld.Supervisor.Slots.{
  new_slot, spawn_slot, on_child_exit, begin_drain, enforce_slot, promote, disable_slot,
}
use catworld.Supervisor.Reconcile.{
  put, spawn_into, waits, reconcile_slot, slot_for, reconcile_profiles, sweep, names, reconcile,
  enforce_from, enforce_deadlines, child_exits, drain_all, begin_shutdown,
}
use catworld.Supervisor.Commands.{
  slot_by_id, with_enabled, restart_profile_part, stop_profile_part, start_profile_part,
  restart_each, restart_all_part, shut_each, restart_supervisor_part, retire,
}
use catworld.Supervisor.Await.{Event, exits, shuts_down, happens}
use catworld.Supervisor.Tick.Keeps.{Stable}

pub record SlotStable (Q : ℕ → String → Slot → Type 0) : Type 0 where
  pub mono : (n : ℕ) (k : String) (x : Slot) → Q n k x → Q (n + 1) k x
  pub fresh : (n : ℕ) (p : CoreProfile) → Q n p.name (new_slot p)
  pub profiled :
      (n : ℕ) (p : CoreProfile) (x : Slot) → Q n p.name x → Q n p.name (record x { profile = p })
  pub promoted : (n now : ℕ) (k : String) (x : Slot) → Q n k x → Q n k (promote now x)
  pub spawned :
      (n now : ℕ) (k : String) (x : Slot)
      → Q n k x
      → is_some x.child ≡ false
      → Q (n + 1) k (spawn_slot n now x).0
  pub exited :
      (n now h : ℕ) (cfg : CoreConfig) (code : Option ℕ) (k : String) (x : Slot)
      → Q n k x
      → Q n k (on_child_exit cfg now h code x).0
  pub drained :
      (n t now : ℕ) (m : CommandMode) (k : String) (x : Slot)
      → Q n k x
      → Q n k (begin_drain m t now x).0
  pub enforced : (n now : ℕ) (k : String) (x : Slot) → Q n k x → Q n k (enforce_slot now x).0
  pub disabled :
      (n now : ℕ) (cfg : CoreConfig) (k : String) (x : Slot)
      → Q n k x
      → Q n k (disable_slot cfg now x).0
  pub unblocked :
      (n : ℕ) (k : String) (x : Slot) → Q n k x → Q n k (record x { backoff_until = none })
  pub enabled : (n : ℕ) (b : Bool) (k : String) (x : Slot) → Q n k x → Q n k (with_enabled b x)

module _ (Q : ℕ → String → Slot → Type 0) where
  abbrev pub AllSlots : Supervisor → Type 0
  AllSlots s = Each (Q s.next_child) s.slots

module _ (Q : ℕ → String → Slot → Type 0) (st : SlotStable Q) where
  Each-mono : (n : ℕ) (m : List (String × Slot)) → Each (Q n) m → Each (Q (n + 1)) m
  Each-mono n [] h = tt
  Each-mono n ((k, x) ∷ m) h = (st.mono n k x h.0, Each-mono n m h.1)

  slot_for-Q :
      (now : ℕ) (p : CoreProfile) (s : Supervisor)
      → AllSlots Q s
      → Q s.next_child p.name (slot_for now p s)
  slot_for-Q now p s h =
      st.promoted _ now p.name _ (st.profiled _ p _ (found (lookup p.name s.slots) refl))
    where
      found :
          (o : Option Slot)
          → lookup p.name s.slots ≡ o
          → Q s.next_child p.name (get_or o (new_slot p))
      found none e = st.fresh _ p
      found (some x) e = Each-lookup (Q s.next_child) p.name x s.slots h e

  put-Q :
      (k : String) (r : Slot × List Effect) (s : Supervisor)
      → AllSlots Q s
      → Q s.next_child k r.0
      → AllSlots Q (put k r s)
  put-Q k r s h q = Each-insert (Q s.next_child) k r.0 s.slots h q

  spawn_into-Q :
      (k : String) (now : ℕ) (x : Slot) (s : Supervisor)
      → AllSlots Q s
      → Q s.next_child k x
      → is_some x.child ≡ false
      → AllSlots Q (spawn_into k now x s)
  spawn_into-Q k now x s h q e =
      Each-insert (Q (s.next_child + 1)) k _ s.slots (Each-mono _ s.slots h)
        (st.spawned _ now k x q e)

  reconcile_slot-Q :
      (now : ℕ) (p : CoreProfile) (x : Slot) (s : Supervisor)
      → AllSlots Q s
      → Q s.next_child p.name x
      → AllSlots Q (reconcile_slot now p x s)
  unfolding reconcile_slot
  reconcile_slot-Q now p x s h q = elim (Bool-cases p.enabled) [
    | inr off ↦
        rw off (put-Q p.name (disable_slot s.cfg now x) s h (st.disabled _ now s.cfg p.name x q))
    | inl on ↦ elim (Bool-cases (is_some x.child || s.shutting_down)) [
      | inl busy ↦ rw (on, busy) (put-Q p.name (x, []) s h q)
      | inr free ↦ elim (Bool-cases (waits now x)) [
        | inl late ↦ rw (on, free, late) (put-Q p.name (x, []) s h q)
        | inr ready ↦ rw (on, free, ready) (spawn_into-Q p.name now x s h q (ground (arith, free)))
      ]
    ]
  ]

  reconcile_profiles-Q :
      (now : ℕ) (ps : List CoreProfile) (s : Supervisor)
      → AllSlots Q s
      → AllSlots Q (reconcile_profiles now ps s)
  unfolding reconcile_profiles
  reconcile_profiles-Q now [] s h = h
  reconcile_profiles-Q now (p ∷ ps) s h =
      reconcile_profiles-Q now ps _ (reconcile_slot-Q now p _ s h (slot_for-Q now p s h))

  sweep-Q :
      (n now : ℕ) (cfg : CoreConfig) (seen : List String) (m : List (String × Slot))
      → Each (Q n) m
      → Each (Q n) (sweep cfg now seen m).0
  unfolding sweep
  sweep-Q n now cfg seen [] h = tt
  sweep-Q n now cfg seen ((k, x) ∷ m) h =
      ground
        (arith, sweep-Q n now cfg seen m h.1, st.drained n cfg.stop_timeout_ms now safe k x h.0)

  reconcile-Q :
      (ps : List CoreProfile) (now : ℕ) (s : Supervisor)
      → AllSlots Q s
      → AllSlots Q (reconcile ps now s)
  unfolding reconcile
  reconcile-Q ps now s h = sweep-Q _ now _ (names ps) _ (reconcile_profiles-Q now ps s h)

  enforce_from-Q :
      (n now : ℕ) (m : List (String × Slot)) (active : List (String × ActiveCommand))
      → Each (Q n) m
      → Each (Q n) (enforce_from now m active).0
  unfolding enforce_from
  enforce_from-Q n now [] active h = tt
  enforce_from-Q n now ((k, x) ∷ m) active h =
      (st.enforced n now k x h.0, enforce_from-Q n now m _ h.1)

  drain_all-Q :
      (n t now : ℕ) (m : List (String × Slot)) → Each (Q n) m → Each (Q n) (drain_all t now m).0
  drain_all-Q n t now [] h = tt
  drain_all-Q n t now ((k, x) ∷ m) h = (st.drained n t now safe k x h.0, drain_all-Q n t now m h.1)

  happens-Q : (e : Event) (s : Supervisor) → AllSlots Q s → AllSlots Q (happens e s)
  unfolding child_exits begin_shutdown
  happens-Q (exits k c code now) s h = elim (Option-cases (lookup k s.slots)) [
    | inl e ↦ rw (e, child_exits) h
    | inr (x, e) ↦
        rw (e, child_exits)
          (put-Q k (on_child_exit s.cfg now c code x) s h
            (st.exited _ now c s.cfg code k x (Each-lookup (Q s.next_child) k x s.slots h e)))
  ]
  happens-Q (shuts_down t now) s h = drain_all-Q _ t now s.slots h

  slot_by_id-Q :
      (n : ℕ) (id : Option String) (m : List (String × Slot)) (k : String) (x : Slot)
      → Each (Q n) m
      → slot_by_id id m ≡ some (k, x)
      → Q n k x
  unfolding slot_by_id
  slot_by_id-Q n id [] k x h e = cc
  slot_by_id-Q n id ((j, y) ∷ m) k x h e = ground (arith, slot_by_id-Q n id m k x h.1)

  restart_profile-Q :
      (c : CoreCommand) (now : ℕ) (s : Supervisor)
      → AllSlots Q s
      → AllSlots Q (restart_profile_part c now s).0
  unfolding restart_profile_part
  restart_profile-Q c now s h = elim (Option-cases (slot_by_id c.profile_id s.slots)) [
    | inl e ↦ rw (e, restart_profile_part) h
    | inr ((k, x), e) ↦
        let q = slot_by_id-Q s.next_child c.profile_id s.slots k x h e in
        rw (e, restart_profile_part)
          (ground (
            arith,
            spawn_into-Q k now (record x { backoff_until = none }) s h (st.unblocked _ k x q),
            put-Q k (record x { backoff_until = none }, []) s h (st.unblocked _ k x q),
            put-Q k (begin_drain c.mode c.timeout_ms now x) s h
                (st.drained _ c.timeout_ms now c.mode k x q),
          ))
  ]

  found-Q :
      (k : String) (s : Supervisor) (x : Slot)
      → AllSlots Q s
      → lookup k s.slots ≡ some x
      → Q s.next_child k x
  found-Q k s x h e = Each-lookup (Q s.next_child) k x s.slots h e

  stop_profile-Q :
      (c : CoreCommand) (now : ℕ) (k : String) (s : Supervisor)
      → AllSlots Q s
      → AllSlots Q (stop_profile_part c now k s).0
  unfolding stop_profile_part
  stop_profile-Q c now k s h = elim (Option-cases (lookup k s.slots)) [
    | inl e ↦ rw (e, stop_profile_part) h
    | inr (x, e) ↦
        let q = st.enabled _ false k x (found-Q k s x h e) in
        rw (e, stop_profile_part)
          (ground (
            arith,
            put-Q k (with_enabled false x, []) s h q,
            put-Q k (begin_drain c.mode c.timeout_ms now (with_enabled false x)) s h
                (st.drained _ c.timeout_ms now c.mode k (with_enabled false x) q),
          ))
  ]

  start_profile-Q :
      (now : ℕ) (k : String) (s : Supervisor)
      → AllSlots Q s
      → AllSlots Q (start_profile_part now k s).0
  unfolding start_profile_part
  start_profile-Q now k s h = elim (Option-cases (lookup k s.slots)) [
    | inl e ↦ rw (e, start_profile_part) h
    | inr (x, e) ↦
        let y : Slot = record (with_enabled true x) { backoff_until = none } in
        let q : Q s.next_child k y =
          st.unblocked _ k _ (st.enabled _ true k x (found-Q k s x h e)) in
        rw (e, start_profile_part)
          (ground (arith, spawn_into-Q k now y s h q, put-Q k (y, []) s h q))
  ]

  restart_each-Q :
      (n now : ℕ) (c : CoreCommand) (m : List (String × Slot))
      → Each (Q n) m
      → Each (Q n) (restart_each c now m).0
  unfolding restart_each
  restart_each-Q n now c [] h = tt
  restart_each-Q n now c ((k, x) ∷ m) h = ground (
    arith,
    restart_each-Q n now c m h.1,
    st.drained n c.timeout_ms now c.mode k x h.0,
    st.unblocked n k x h.0,
  )

  restart_all-Q :
      (c : CoreCommand) (now : ℕ) (s : Supervisor)
      → AllSlots Q s
      → AllSlots Q (restart_all_part c now s).0
  unfolding restart_all_part
  restart_all-Q c now s h = ground (arith, restart_each-Q s.next_child now c s.slots h)

  shut_each-Q :
      (n now : ℕ) (c : CoreCommand) (m : List (String × Slot))
      → Each (Q n) m
      → Each (Q n) (shut_each c now m).0
  unfolding shut_each
  shut_each-Q n now c [] h = tt
  shut_each-Q n now c ((k, x) ∷ m) h =
      ground (arith, shut_each-Q n now c m h.1, st.drained n c.timeout_ms now c.mode k x h.0)

  pub AllSlots-Stable : Stable (AllSlots Q)
  unfolding enforce_deadlines restart_supervisor_part retire
  AllSlots-Stable = record {
    on_event = happens-Q;
    on_output = λ es s h. h;
    on_config = λ c s h. h;
    on_beat = λ t s h. h;
    on_expire = λ t s h. h;
    on_reconcile = reconcile-Q;
    on_deadlines = λ now s h. enforce_from-Q _ now s.slots s.active h;
    on_restart = restart_profile-Q;
    on_stop = stop_profile-Q;
    on_start = start_profile-Q;
    on_restart_all = restart_all-Q;
    on_restart_supervisor = λ c now s h. shut_each-Q _ now c s.slots h;
    on_retire = λ id s h. h;
  }
