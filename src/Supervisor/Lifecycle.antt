-- ===== src/Supervisor/Lifecycle.antt =====
-- The life of a worker process in its slot: starts, crashes with backoff, drains and kills.
use catworld.Common.{
  ℕ, ◌+◌, ◌*◌, ◌^◌, ◌<◌, ◌≤◌, min, String, ◌≡◌, ◌≢◌, ◌↔◌, refl, true, false, ◌&&◌, Option, none,
  some, List, [], ◌∷◌, arith, length, All, if◌then◌else◌, leb,
}
use catworld.Worker.Commands.{safe, immediate}
use catworld.Supervisor.{
  backoff, crash_loop, stopped, CoreProfile, CoreConfig, Slot, sigterm, sigkill, send_drain,
  Supervisor,
}
use catworld.Supervisor.Slots.{
  new_slot, spawn_slot, on_child_exit, child_exit, begin_drain, enforce_slot, backoff_delay,
  is_zero,
}
use catworld.Supervisor.Reconcile.{reconcile_slot, waits}
use catworld.Supervisor.WellFormed.{IsWellFormed}

-- A reconciliation starts a process for a profile exactly when it is enabled, has no process, no
-- backoff runs and the supervisor is not shutting down.
pub reconcile_slot-spawns_iff :
    (now : ℕ) (p : CoreProfile) (x : Slot) (s : Supervisor)
    → ((reconcile_slot now p x s).next_child ≡ s.next_child + 1)
      ↔ ((p.enabled ≡ true) × (x.child ≡ none) × (s.shutting_down ≡ false) × (waits now x ≡ false))
unfolding reconcile_slot
reconcile_slot-spawns_iff now p x s = (λ e. ground arith, λ h. ground arith)

-- A process that is started at a time, lasts so long and ends unasked with a code.
pub record Crash : Type 0 where
  pub handle : ℕ
  pub start : ℕ
  pub lasted : ℕ
  pub code : Option ℕ

-- It did not run for a minute, nor end by itself with code 0 after five seconds.
abbrev pub IsQuick : Crash → Type 0
IsQuick c = (c.lasted < 60000) × ((is_zero c.code && leb 5000 c.lasted) ≡ false)

pub crash_once : CoreConfig → Crash → Slot → Slot
crash_once cfg c x =
    (on_child_exit cfg (c.start + c.lasted) c.handle c.code (spawn_slot c.handle c.start x).0).0

-- Crashes in a row, the last one first.
pub crash_all : CoreConfig → List Crash → Slot → Slot
crash_all cfg [] x = x
crash_all cfg (c ∷ cs) x = crash_once cfg c (crash_all cfg cs x)

crash_once-counts :
    (cfg : CoreConfig) (c : Crash) (x : Slot)
    → IsQuick c
    → let y = crash_once cfg c x in
      (y.crashes ≡ x.crashes + 1)
      × (y.child ≡ none)
      × (y.backoff_until
          ≡ some (c.start + c.lasted + min (1000 * 2 ^ x.crashes) cfg.backoff_max_ms))
      × (y.state ≡ (if leb 5 (x.crashes + 1) then crash_loop else backoff))
unfolding crash_once on_child_exit child_exit spawn_slot backoff_delay
crash_once-counts cfg c x q = (ground arith, ground arith, ground arith, ground arith)

crash_all-counts :
    (cfg : CoreConfig) (cs : List Crash) (p : CoreProfile)
    → All IsQuick cs
    → (crash_all cfg cs (new_slot p)).crashes ≡ length cs
unfolding crash_all new_slot
crash_all-counts cfg [] p h = refl
crash_all-counts cfg (c ∷ cs) p h = omega (
  arith,
  (crash_once-counts cfg c (crash_all cfg cs (new_slot p)) h.0).0,
  crash_all-counts cfg cs p h.1,
)

-- After k + 1 quick crashes in a row of a new worker, it has no process, waits for 1000 · 2^k ms (at
-- most the configured limit) from its last exit, and is in a crash loop from the fifth crash on.
pub crash_all-backoff :
    (cfg : CoreConfig) (c : Crash) (cs : List Crash) (p : CoreProfile)
    → All IsQuick (c ∷ cs)
    → let y = crash_all cfg (c ∷ cs) (new_slot p) in
      (y.child ≡ none)
      × (y.backoff_until
          ≡ some (c.start + c.lasted + min (1000 * 2 ^ length cs) cfg.backoff_max_ms))
      × (y.state ≡ (if leb 5 (length cs + 1) then crash_loop else backoff))
unfolding crash_all
crash_all-backoff cfg c cs p h = rw (← crash_all-counts cfg cs p h.1) (
    let (_, gone, until, state) = crash_once-counts cfg c (crash_all cfg cs (new_slot p)) h.0 in
    (gone, until, state))

-- A child that another process has replaced cannot touch the slot.
stale_exit :
    (cfg : CoreConfig) (now c d : ℕ) (code : Option ℕ) (x : Slot)
    → x.child ≡ some d
    → c ≢ d
    → on_child_exit cfg now c code x ≡ (x, [])
unfolding on_child_exit
stale_exit cfg now c d code x e ne = ground arith

-- A process that was asked to end leaves no backoff and no crash behind, whatever its exit code, so
-- the next reconciliation starts an enabled profile again at once.
pub drained_exit_restarts :
    (cfg : CoreConfig) (now c : ℕ) (code : Option ℕ) (x : Slot) (p : CoreProfile) (s : Supervisor)
    (later : ℕ)
    → x.child ≡ some c
    → x.draining ≡ true
    → p.enabled ≡ true
    → s.shutting_down ≡ false
    → let y = (on_child_exit cfg now c code x).0 in
      (y.crashes ≡ 0)
      × (y.state ≡ stopped)
      × ((reconcile_slot later p y s).next_child ≡ s.next_child + 1)
unfolding on_child_exit child_exit reconcile_slot
drained_exit_restarts cfg now c code x p s later e d on up =
    (ground arith, ground arith, ground arith)

-- A safe drain that a running worker ignores: nothing more is sent before its deadline, SIGTERM at
-- the first check from the deadline on (and the drain counts as forced), nothing for 30 seconds, and
-- SIGKILL at the first check after that.
pub drain_escalates :
    (c start timeout t u v : ℕ) (name : String) (n : ℕ) (x : Slot)
    → IsWellFormed n name x
    → x.child ≡ some c
    → x.draining ≡ false
    → t < start + timeout
    → start + timeout ≤ u
    → u + 30000 ≤ v
    → let drained = begin_drain safe timeout start x in
      let early = enforce_slot t drained.0 in
      let late = enforce_slot u early.0 in
      let waits = enforce_slot (u + 29999) late.0 in
      let last = enforce_slot v late.0 in
      (drained.1 ≡ send_drain c ∷ [])
      × ((early.1 ≡ []) × (early.2 ≡ false))
      × ((late.1 ≡ sigterm c ∷ []) × (late.2 ≡ true) × (late.0.forced ≡ true))
      × (waits.1 ≡ [])
      × (last.1 ≡ sigkill c ∷ [])
unfolding enforce_slot begin_drain
drain_escalates c start timeout t u v name n x wf e d before after over = (
  ground arith,
  (ground arith, ground arith),
  (ground arith, ground arith, ground arith),
  ground arith,
  ground arith,
)

-- An immediate drain sends SIGTERM at once, and SIGKILL at the first check ten seconds later or
-- after.
pub drain_immediate :
    (c start timeout t v : ℕ) (name : String) (n : ℕ) (x : Slot)
    → IsWellFormed n name x
    → x.child ≡ some c
    → x.draining ≡ false
    → t < start + 10000
    → start + 10000 ≤ v
    → let drained = begin_drain immediate timeout start x in
      let early = enforce_slot t drained.0 in
      (drained.1 ≡ sigterm c ∷ []) × (early.1 ≡ []) × ((enforce_slot v early.0).1 ≡ sigkill c ∷ [])
unfolding enforce_slot begin_drain
drain_immediate c start timeout t v name n x wf e d before over =
    (ground arith, ground arith, ground arith)
