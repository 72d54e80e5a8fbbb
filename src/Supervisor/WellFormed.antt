-- ===== src/Supervisor/WellFormed.antt =====
-- What holds of every slot at every time: how its child, state, timers and counters fit together.
use catworld.Common.{
  ℕ, ◌+◌, ◌<◌, ◌≤◌, String, ◌≡◌, ◌≢◌, ◌⊎◌, Bool, true, false, ◌&&◌, not, Option, none, List, arith,
  is_some, is_none, IfSome,
}
use catworld.Worker.Commands.{CommandMode, safe, immediate}
use catworld.Supervisor.{
  SlotState, draining, backoff, crash_loop, stopped, CoreProfile, CoreConfig, Slot,
}
use catworld.Supervisor.Slots.{
  new_slot, spawn_slot, on_child_exit, begin_drain, enforce_slot, promote, disable_slot, child_exit,
}
use catworld.Supervisor.Await.{Event, World}
use catworld.Supervisor.Tick.{Answers, run}
use catworld.Supervisor.Tick.Keeps.{Keeps-run}
use catworld.Supervisor.SlotWise.{SlotStable, AllSlots, AllSlots-Stable}

-- The states of a slot with no child.
abbrev pub rests : SlotState → Bool
rests backoff = true
rests crash_loop = true
rests stopped = true
rests _ = false

abbrev pub is_draining : SlotState → Bool
is_draining draining = true
is_draining _ = false

pub record IsWellFormed (n : ℕ) (name : String) (x : Slot) : Type 0 where
  -- the slot stands under its profile's name
  pub named : x.profile.name ≡ name
  -- a child is running exactly in the states for it, and has a handle that was given out
  pub vacant : rests x.state ≡ is_none x.child
  pub given : IfSome (λ c. c < n) x.child
  -- a child has a time of start and settings, and no backoff runs
  pub started : (is_some x.child && is_none x.started_at) ≡ false
  pub settled : (is_some x.child && is_none x.spawned) ≡ false
  pub unblocked : (is_some x.child && is_some x.backoff_until) ≡ false
  pub counted : (x.child ≡ none) ⊎ (0 < x.spawn_count)
  -- the flag of a drain is its state; a drain has a deadline or the child was told to end
  pub drains : x.draining ≡ is_draining x.state
  pub bounded : (x.draining && (is_none x.drain_deadline && not x.term_sent)) ≡ false
  pub idle_deadline : (is_some x.drain_deadline && not x.draining) ≡ false
  -- a kill is planned exactly once the child was told to end, which only a drain does
  pub told : (x.term_sent && not x.draining) ≡ false
  pub planned : is_some x.kill_at ≡ x.term_sent
  -- five crashes in a row make a crash loop
  pub few : (x.state ≢ backoff) ⊎ (x.crashes < 5)
  pub many : (x.state ≢ crash_loop) ⊎ (5 ≤ x.crashes)

abbrev pub Q : ℕ → String → Slot → Type 0
Q = IsWellFormed

fresh : (n : ℕ) (p : CoreProfile) → Q n p.name (new_slot p)
unfolding new_slot
fresh n p = ground arith

mono : (n : ℕ) (k : String) (x : Slot) → Q n k x → Q (n + 1) k x
mono n k x h = ground arith

profiled :
    (n : ℕ) (p : CoreProfile) (x : Slot) → Q n p.name x → Q n p.name (record x { profile = p })
profiled n p x h = ground arith

promoted : (n now : ℕ) (k : String) (x : Slot) → Q n k x → Q n k (promote now x)
unfolding promote
promoted n now k x h = ground arith

spawned :
    (n now : ℕ) (k : String) (x : Slot)
    → Q n k x
    → is_some x.child ≡ false
    → Q (n + 1) k (spawn_slot n now x).0
unfolding spawn_slot
spawned n now k x h e = ground arith

exited :
    (n now c : ℕ) (cfg : CoreConfig) (code : Option ℕ) (k : String) (x : Slot)
    → Q n k x
    → Q n k (on_child_exit cfg now c code x).0
unfolding on_child_exit child_exit
exited n now c cfg code k x h = ground arith

drained :
    (n t now : ℕ) (m : CommandMode) (k : String) (x : Slot)
    → Q n k x
    → Q n k (begin_drain m t now x).0
unfolding begin_drain
drained n t now safe k x h = ground arith
drained n t now immediate k x h = ground arith

enforced : (n now : ℕ) (k : String) (x : Slot) → Q n k x → Q n k (enforce_slot now x).0
unfolding enforce_slot
enforced n now k x h = ground arith

disabled :
    (n now : ℕ) (cfg : CoreConfig) (k : String) (x : Slot)
    → Q n k x
    → Q n k (disable_slot cfg now x).0
unfolding disable_slot begin_drain
disabled n now cfg k x h = ground arith

IsWellFormed-SlotStable : SlotStable IsWellFormed
IsWellFormed-SlotStable = record {
  mono = mono;
  fresh = fresh;
  profiled = profiled;
  promoted = promoted;
  spawned = spawned;
  exited = exited;
  drained = drained;
  enforced = enforced;
  disabled = disabled;
  unblocked = λ n k x h. ground arith;
  enabled = λ n b k x h. ground arith;
}

-- Whatever the database answers, whichever calls throw, and whichever children exit while the
-- supervisor waits, all slots stay well formed through any number of ticks.
pub run-IsWellFormed :
    (rounds : List (List Event × Answers)) (w : World)
    → AllSlots IsWellFormed w.sup
    → AllSlots IsWellFormed (run rounds w).sup
run-IsWellFormed =
    Keeps-run (AllSlots IsWellFormed) (AllSlots-Stable IsWellFormed IsWellFormed-SlotStable)
