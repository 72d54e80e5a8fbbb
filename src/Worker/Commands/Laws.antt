-- ===== src/Worker/Commands/Laws.antt =====
-- What the life of a command guarantees, and what the API lets through.
use catworld.Common.{
  ℕ, ◌<◌, ◌≤◌, String, ◌≡◌, ◌≢◌, ◌↔◌, refl, Bool, true, false, Option, none, some, arith, eq_iff,
  get_or, IfSome, ◌⊎◌,
}
use catworld.Worker.Commands.{
  CommandAction, CommandStatus, pending, accepted, draining, applying, failed, is_open,
  can_transition, needs_profile, start_profile, CommandBody, CommandInput, parsed, has_text,
  command_create, commands_conflict, safe, default_command_timeout_ms,
}

-- A run of a command's status through allowed transitions.
pub data Moves : CommandStatus → CommandStatus → Type 0 where
  stay : {s : CommandStatus} → Moves s s
  move : {s t u : CommandStatus} → can_transition s t ≡ true → Moves t u → Moves s u

abbrev stage : CommandStatus → ℕ
stage pending = 0
stage accepted = 1
stage draining = 2
stage applying = 3
stage _ = 4

can_transition-stage : (s t : CommandStatus) → can_transition s t ≡ true → stage s < stage t
unfolding can_transition
can_transition-stage s t h = ground arith

Moves-stage : {s t : CommandStatus} → Moves s t → stage s ≤ stage t
Moves-stage stay = omega arith
Moves-stage (move {s} {t} h m) = omega (arith, can_transition-stage s t h, Moves-stage m)

-- Once a command has left a status it never has that status again, whatever transitions follow.
pub Moves-never_back : {s t : CommandStatus} → can_transition s t ≡ true → ¬ (Moves t s)
Moves-never_back {s} {t} h m = omega (arith, can_transition-stage s t h, Moves-stage m)

closed_stays : (s t : CommandStatus) → is_open s ≡ false → can_transition s t ≡ true → ⊥
unfolding is_open can_transition
closed_stays s t h e = ground arith

-- A command that is not open keeps its status through every run of allowed transitions.
pub Moves-of_closed : {s t : CommandStatus} → is_open s ≡ false → Moves s t → t ≡ s
Moves-of_closed h stay = refl
Moves-of_closed h (move {s} {t} e m) = absurd (closed_stays s t h e)

-- A command is open exactly while it may still fail; otherwise no status can follow its own.
pub is_open_iff :
    (s : CommandStatus)
    → ((is_open s ≡ true) ↔ (can_transition s failed ≡ true))
      × ((is_open s ≡ false) ↔ ((t : CommandStatus) → can_transition s t ≡ false))
unfolding is_open can_transition
is_open_iff s = (ground arith, (λ h t. ground arith, λ h. ground (arith, h failed)))

-- A command that the API accepts.
pub record IsAccepted (is_uuid : String → Bool) (b : CommandBody) (c : CommandInput) : Type 0 where
  pub action : c.action ≡ b.action
  pub mode : c.mode ≡ get_or b.mode safe
  pub profile_id : c.profile_id ≡ b.profile_id
  pub timeout : c.timeout_ms ≡ get_or b.timeout_ms default_command_timeout_ms
  pub targeted : has_text c.profile_id ≡ needs_profile c.action
  pub uuid : IfSome (λ s. is_uuid s ≡ true) c.profile_id
  pub in_range : (1000 ≤ c.timeout_ms) × (c.timeout_ms ≤ 3600000)
  pub start_is_safe : (c.action ≢ start_profile) ⊎ (c.mode ≡ safe)

-- A body is accepted exactly when its profile is given for an action on one profile and left out for
-- the others, the profile is a UUID, the timeout (ten minutes if left out) lies between a second
-- and an hour, and a start is not asked for in immediate mode.
pub command_create_iff :
    (is_uuid : String → Bool) (b : CommandBody) (c : CommandInput)
    → (command_create is_uuid b ≡ parsed c) ↔ IsAccepted is_uuid b c
unfolding command_create needs_profile
command_create_iff is_uuid b c = (λ e. ground arith, λ h. ground arith)

-- Conflict is symmetric, and two commands that do not conflict name two different profiles.
pub commands_conflict_iff :
    (a b : CommandAction) (p q : Option String)
    → (commands_conflict (a, p) (b, q) ≡ commands_conflict (b, q) (a, p))
      × ((commands_conflict (a, p) (b, q) ≡ false)
          ↔ ((needs_profile a ≡ true) × (needs_profile b ≡ true) × (p ≢ q)))
unfolding commands_conflict
commands_conflict_iff a b none none = (ground arith, (ground arith, ground arith))
commands_conflict_iff a b (some p) none = (ground arith, (ground arith, ground arith))
commands_conflict_iff a b none (some q) = (ground arith, (ground arith, ground arith))
commands_conflict_iff a b (some p) (some q) = (
  ground (arith, eq_iff p q, eq_iff q p),
  (ground (arith, eq_iff p q), ground (arith, eq_iff p q)),
)
