-- ===== src/Supervisor/Completion.antt =====
-- A reconciliation brings the slots in line with the profiles, and a restart by command completes.
use catworld.Common.{
  ℕ, ◌+◌, String, ◌≡◌, ◌≢◌, refl, ◌∙◌, ◌⊎◌, inl, inr, Bool, true, false, ◌&&◌, ◌||◌, some, List, [],
  ◌∷◌, arith, is_some, if◌then◌else◌, All, includes, eq_iff, str_eq_refl, lookup, insert,
  lookup-cons, lookup-insert, lookup-insert_self, Each, get_or, Bool-cases,
}
use mathlib.Core.List.{Memᴰ}
use catworld.Supervisor.{SlotState, stopped, CoreProfile, CoreConfig, Slot, Effect, Supervisor}
use catworld.Supervisor.Slots.{new_slot, spawn_slot, begin_drain, disable_slot, promote}
use catworld.Supervisor.Reconcile.{
  put, spawn_into, reconcile_slot, slot_for, waits, reconcile_profiles, drain_absent, sweep, names,
  reconcile,
}

abbrev pub is_stopped : SlotState → Bool
is_stopped stopped = true
is_stopped _ = false

-- The slot does what its profile asks for: an enabled profile has a process, unless the supervisor is
-- shutting down or a backoff runs; a disabled one has none, or one that drains.
abbrev pub obeys : ℕ → Bool → CoreProfile → Slot → Bool
obeys now shutting_down p x =
    if p.enabled
    then is_some x.child || (shutting_down || waits now x)
    else if is_some x.child
    then x.draining
    else is_stopped x.state

abbrev pub IsSettled : ℕ → Supervisor → CoreProfile → Type 0
IsSettled now s p =
    (x : Slot) × (lookup p.name s.slots ≡ some x)
    × (x.profile ≡ p)
    × (obeys now s.shutting_down p x ≡ true)

module _ (now : ℕ) where
  put-IsSettled :
      (p : CoreProfile) (r : Slot × List Effect) (s : Supervisor)
      → r.0.profile ≡ p
      → obeys now s.shutting_down p r.0 ≡ true
      → IsSettled now (put p.name r s) p
  put-IsSettled p r s e o = (r.0, lookup-insert_self p.name r.0 s.slots, e, o)

  profile-promote : (x : Slot) → (promote now x).profile ≡ x.profile
  unfolding promote
  profile-promote x = ground arith

  profile-disable : (cfg : CoreConfig) (x : Slot) → (disable_slot cfg now x).0.profile ≡ x.profile
  unfolding disable_slot begin_drain
  profile-disable cfg x = ground arith

  disabled_obeys :
      (cfg : CoreConfig) (b : Bool) (p : CoreProfile) (x : Slot)
      → p.enabled ≡ false
      → obeys now b p (disable_slot cfg now x).0 ≡ true
  unfolding disable_slot begin_drain
  disabled_obeys cfg b p x off = ground arith

  -- The four outcomes of a round.
  module _ (p : CoreProfile) (x : Slot) (s : Supervisor) where
    off_round :
        p.enabled ≡ false → reconcile_slot now p x s ≡ put p.name (disable_slot s.cfg now x) s
    unfolding reconcile_slot
    off_round off = simp off

    busy_round :
        p.enabled ≡ true
        → (is_some x.child || s.shutting_down) ≡ true
        → reconcile_slot now p x s ≡ put p.name (x, []) s
    unfolding reconcile_slot
    busy_round on busy = simp (on, busy)

    waiting_round :
        p.enabled ≡ true
        → (is_some x.child || s.shutting_down) ≡ false
        → waits now x ≡ true
        → reconcile_slot now p x s ≡ put p.name (x, []) s
    unfolding reconcile_slot
    waiting_round on free late = simp (on, free, late)

    pub spawn_round :
        p.enabled ≡ true
        → (is_some x.child || s.shutting_down) ≡ false
        → waits now x ≡ false
        → reconcile_slot now p x s ≡ spawn_into p.name now x s
    unfolding reconcile_slot
    spawn_round on free ready = simp (on, free, ready)

    reconcile_slot-settles : x.profile ≡ p → IsSettled now (reconcile_slot now p x s) p
    reconcile_slot-settles e = elim (Bool-cases p.enabled) [
      | inr off ↦ rw (off_round off) (
          put-IsSettled p (disable_slot s.cfg now x) s (profile-disable s.cfg x ∙ e)
            (disabled_obeys s.cfg s.shutting_down p x off))
      | inl on ↦ elim (Bool-cases (is_some x.child || s.shutting_down)) [
        | inl busy ↦ rw (busy_round on busy) (put-IsSettled p (x, []) s e (ground arith))
        | inr free ↦ elim (Bool-cases (waits now x)) [
          | inl late ↦ rw (waiting_round on free late) (put-IsSettled p (x, []) s e (ground arith))
          | inr ready ↦ rw (spawn_round on free ready) (
              put-IsSettled p (spawn_slot s.next_child now x)
                (record s { next_child = s.next_child + 1 }) (unfold spawn_slot in e)
                (unfold spawn_slot in ground arith))
        ]
      ]
    ]

  reconcile_slot-frame :
      (p q : CoreProfile) (x : Slot) (s : Supervisor)
      → q.name ≢ p.name
      → IsSettled now s p
      → IsSettled now (reconcile_slot now q x s) p
  unfolding reconcile_slot
  reconcile_slot-frame p q x s ne (y, found, e, o) = (
    y,
    ground (
      arith,
      frame (disable_slot s.cfg now x).0,
      frame x,
      frame (spawn_slot s.next_child now x).0,
    ),
    e,
    ground arith,
  )
    where
      frame : (z : Slot) → lookup p.name (insert q.name z s.slots) ≡ some y
      frame z = rw (lookup-insert q.name p.name z s.slots) (ground (arith, eq_iff q.name p.name))

  reconcile_profiles-frame :
      (p : CoreProfile) (ps : List CoreProfile) (s : Supervisor)
      → All (λ q. q.name ≢ p.name) ps
      → IsSettled now s p
      → IsSettled now (reconcile_profiles now ps s) p
  unfolding reconcile_profiles
  reconcile_profiles-frame p [] s ne h = h
  reconcile_profiles-frame p (q ∷ ps) s ne h =
      reconcile_profiles-frame p ps _ ne.1 (reconcile_slot-frame p q (slot_for now q s) s ne.0 h)

-- The slot of a profile that is listed, or one with a process that drains.
abbrev pub IsLeaving : List String → String → Slot → Type 0
IsLeaving seen k x = (includes k seen ≡ true) ⊎ ((is_some x.child && x.draining) ≡ true)

-- No two profiles have one name, which the database guarantees.
abbrev pub DistinctNames : List CoreProfile → Type 0
DistinctNames [] = Unit
DistinctNames (p ∷ ps) = All (λ q. q.name ≢ p.name) ps × DistinctNames ps

module _ (now : ℕ) where
  reconcile_profiles-settles :
      (ps : List CoreProfile) (s : Supervisor) (p : CoreProfile)
      → DistinctNames ps
      → Memᴰ p ps
      → IsSettled now (reconcile_profiles now ps s) p
  unfolding reconcile_profiles
  reconcile_profiles-settles (q ∷ ps) s p d (Memᴰ.head e) = rw (e) (
      reconcile_profiles-frame now q ps _ d.0 (
        reconcile_slot-settles now q (slot_for now q s) s (
          profile-promote now
            (record (get_or (lookup q.name s.slots) (new_slot q)) { profile = q }))))
  reconcile_profiles-settles (q ∷ ps) s p d (Memᴰ.tail m) = reconcile_profiles-settles ps _ p d.1 m
  reconcile_profiles-settles [] s p d m = elim m [ ]

  sweep-lookup :
      (cfg : CoreConfig) (seen : List String) (k : String) (m : List (String × Slot))
      → includes k seen ≡ true
      → lookup k (sweep cfg now seen m).0 ≡ lookup k m
  unfolding sweep
  sweep-lookup cfg seen k [] h = refl
  sweep-lookup cfg seen k ((j, x) ∷ m) h = ground (
    arith,
    eq_iff j k,
    lookup-cons k j x m,
    lookup-cons k j x (sweep cfg now seen m).0,
    lookup-cons k j (drain_absent cfg now x).0 (sweep cfg now seen m).0,
    sweep-lookup cfg seen k m h,
  )

  names-includes :
      (p : CoreProfile) (ps : List CoreProfile) → Memᴰ p ps → includes p.name (names ps) ≡ true
  names-includes p (q ∷ ps) (Memᴰ.head e) = rw (e, str_eq_refl q.name) refl
  names-includes p (q ∷ ps) (Memᴰ.tail m) = ground (arith, names-includes p ps m)
  names-includes p [] m = elim m [ ]

  sweep-leaves :
      (cfg : CoreConfig) (seen : List String) (m : List (String × Slot))
      → Each (IsLeaving seen) (sweep cfg now seen m).0
  unfolding sweep begin_drain
  sweep-leaves cfg seen [] = tt
  sweep-leaves cfg seen ((j, x) ∷ m) = ground (arith, sweep-leaves cfg seen m)

  -- After a reconciliation with profiles of distinct names, each profile has a slot that holds it and
  -- does what it asks for, and every other slot that is left holds a process that drains.
  pub reconcile_converges :
      (ps : List CoreProfile) (s : Supervisor)
      → DistinctNames ps
      → ((p : CoreProfile) → Memᴰ p ps → IsSettled now (reconcile ps now s) p)
        × Each (IsLeaving (names ps)) (reconcile ps now s).slots
  unfolding reconcile
  reconcile_converges ps s d = (
    λ p m.
        let (x, found, e, o) = reconcile_profiles-settles ps s p d m in
        (x, sweep-lookup _ (names ps) p.name _ (names-includes p ps m) ∙ found, e, o),
    sweep-leaves _ (names ps) _,
  )
