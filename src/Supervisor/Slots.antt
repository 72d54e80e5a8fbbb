-- ===== src/Supervisor/Slots.antt =====
-- supervisor/core.ts: what happens to one slot. Each function returns the slot and its effects.
use catworld.Common.{
  ℕ, ◌+◌, ◌-◌, ◌*◌, ◌^◌, min, Bool, true, false, ◌&&◌, not, Option, none, some, List, [], ◌∷◌, ◌++◌,
  if◌then◌else◌, leb, ◌==◌, is_some, is_none, get_or,
}
use catworld.Worker.Commands.{CommandMode, safe, immediate}
use catworld.Worker.Profiles.{Restartable, needs_restart}
use catworld.Supervisor.{
  SlotState, starting, running, draining, backoff, crash_loop, stopped, CoreProfile, CoreConfig,
  ChildSummary, Slot, Effect, spawn, send_drain, sigterm, sigkill, audit, stable_ms,
  crash_loop_after, running_after_ms, sigkill_after_ms, immediate_kill_after_ms,
}

unfoldable pub new_slot : CoreProfile → Slot
new_slot p = record {
  profile = p;
  child = none;
  state = stopped;
  spawned = none;
  started_at = none;
  spawn_count = 0;
  crashes = 0;
  backoff_until = none;
  last_exit_code = none;
  last_exit_at = none;
  draining = false;
  drain_deadline = none;
  term_sent = false;
  kill_at = none;
  forced = false;
}

abbrev pub settings : CoreProfile → Restartable
settings p = record {
  job_types = p.job_types;
  concurrency = p.concurrency;
  weights = some (get_or p.weights []);
}

-- `forced` and the last exit are kept from the process before.
unfoldable pub spawn_slot : ℕ → ℕ → Slot → Slot × List Effect
spawn_slot handle now s = (
  record s {
    child = some handle;
    state = starting;
    started_at = some now;
    backoff_until = none;
    draining = false;
    drain_deadline = none;
    term_sent = false;
    kill_at = none;
    spawn_count = s.spawn_count + 1;
    spawned = some (settings s.profile);
  },
  spawn s.profile.name handle ∷ audit "WORKER_STARTED" s.profile.name true ∷ [],
)

-- `now - slot.startedAt`: below 0, where a clock runs back, it is 0, which passes the same tests.
abbrev pub uptime : ℕ → Slot → ℕ
uptime now s = elim s.started_at [ none ↦ 0 | some t ↦ now - t ]

abbrev pub is_zero : Option ℕ → Bool
is_zero none = false
is_zero (some c) = c == 0

unfoldable pub backoff_delay : ℕ → ℕ → ℕ
backoff_delay max_ms crashes = min (1000 * 2 ^ (crashes - 1)) max_ms

-- The child is gone: what is cleared whatever the reason.
abbrev pub vacate : Option ℕ → ℕ → Slot → Slot
vacate code now s = record s {
  child = none;
  last_exit_code = code;
  last_exit_at = some now;
  draining = false;
  drain_deadline = none;
  term_sent = false;
  kill_at = none;
}

crash_slot : CoreConfig → ℕ → ℕ → Slot → Slot × List Effect
unfolding backoff_delay
crash_slot cfg now up s =
    let crashes' : ℕ = if leb stable_ms up then 1 else s.crashes + 1 in
    (
      record s {
        crashes = crashes';
        backoff_until = some (now + backoff_delay cfg.backoff_max_ms crashes');
        state = if leb crash_loop_after crashes' then crash_loop else backoff;
      },
      audit "WORKER_CRASHED" s.profile.name false ∷ [],
    )

-- `onChildExit`, of a child that the slot holds.
unfoldable pub child_exit : CoreConfig → ℕ → Option ℕ → Slot → Slot × List Effect
unfolding crash_slot
child_exit cfg now code s =
    let up = uptime now s in
    let gone = vacate code now s in
    if s.draining
    then (record gone { crashes = 0; backoff_until = none; state = stopped }, [])
    else if is_zero code && leb 5000 up
    then (record gone { crashes = 0; state = stopped }, [])
    else crash_slot cfg now up gone

-- `if (slot.child !== child) return`.
unfoldable pub on_child_exit : CoreConfig → ℕ → ℕ → Option ℕ → Slot → Slot × List Effect
on_child_exit cfg now handle code s = elim s.child [
  | none ↦ (s, [])
  | some c ↦ if c == handle then child_exit cfg now code s else (s, [])
]

drain_child : ℕ → CommandMode → ℕ → ℕ → Slot → Slot × List Effect
drain_child c immediate timeout now s =
    if s.term_sent then (record s { state = draining; draining = true }, []) else (
      record s {
        state = draining;
        draining = true;
        term_sent = true;
        kill_at = some (now + immediate_kill_after_ms);
      },
      sigterm c ∷ [],
    )
drain_child c safe timeout now s =
    if is_none s.drain_deadline
    then (
      record s { state = draining; draining = true; drain_deadline = some (now + timeout) },
      send_drain c ∷ [],
    )
    else (record s { state = draining; draining = true }, [])

unfoldable pub begin_drain : CommandMode → ℕ → ℕ → Slot → Slot × List Effect
unfolding drain_child
begin_drain mode timeout now s = elim s.child [
  | none ↦ (s, [])
  | some c ↦ drain_child c mode timeout now s
]

-- The tests `now >= deadline` for a deadline that may be null.
abbrev pub due : Option ℕ → ℕ → Bool
due none now = false
due (some t) now = leb t now

-- The first `if` of `enforceDeadlines`; the Boolean says that the drain was forced.
term_late : ℕ → ℕ → Slot → Slot × List Effect × Bool
term_late c now s =
    if not s.term_sent && due s.drain_deadline now
    then (
      record s { term_sent = true; forced = true; kill_at = some (now + sigkill_after_ms) },
      sigterm c ∷ [],
      true,
    )
    else (s, [], false)

-- The second `if`: the kill is sent again every 30 seconds.
kill_late : ℕ → ℕ → Slot → Slot × List Effect
kill_late c now s =
    if s.term_sent && due s.kill_at now
    then (record s { kill_at = some (now + sigkill_after_ms) }, sigkill c ∷ [])
    else (s, [])

enforce_child : ℕ → ℕ → Slot → Slot × List Effect × Bool
unfolding term_late kill_late
enforce_child c now s =
    let (s', terms, forced) = term_late c now s in
    let (s'', kills) = kill_late c now s' in (s'', terms ++ kills, forced)

unfoldable pub enforce_slot : ℕ → Slot → Slot × List Effect × Bool
unfolding enforce_child
enforce_slot now s = elim s.child [
  | none ↦ (s, [], false)
  | some c ↦ if s.draining then enforce_child c now s else (s, [], false)
]

abbrev is_starting : SlotState → Bool
is_starting starting = true
is_starting _ = false

-- A start is taken for a success after two seconds.
unfoldable pub promote : ℕ → Slot → Slot
promote now s =
    if is_starting s.state
      && is_some s.child
      && is_some s.started_at
      && leb running_after_ms (uptime now s)
    then record s { state = running }
    else s

-- What `reconcile` does for a disabled profile.
unfoldable pub disable_slot : CoreConfig → ℕ → Slot → Slot × List Effect
disable_slot cfg now s = elim s.child [
  | none ↦ (record s { state = stopped }, [])
  | some c ↦ if s.draining then (s, []) else begin_drain safe cfg.stop_timeout_ms now s
]

restart_pending : Slot → Bool
restart_pending s = is_some s.child && elim s.spawned [
  | none ↦ false
  | some r ↦ needs_restart r (record {
    job_types = s.profile.job_types;
    concurrency = s.profile.concurrency;
    weights = s.profile.weights;
  })
]

-- `pid_of` gives the process number of a handle.
unfoldable pub summary : (ℕ → Option ℕ) → Slot → ChildSummary
unfolding restart_pending
summary pid_of s = record {
  profile_id = s.profile.id;
  name = s.profile.name;
  pid = elim s.child [ none ↦ none | some c ↦ pid_of c ];
  state = s.state;
  restarts = s.spawn_count - 1;
  last_exit_code = s.last_exit_code;
  last_exit_at = s.last_exit_at;
  started_at = s.started_at;
  restart_pending = restart_pending s;
  backoff_until = s.backoff_until;
}
