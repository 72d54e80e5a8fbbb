-- ===== src/Worker/Commands/Tests.antt =====
-- Commands at concrete inputs.
use catworld.Common.{String, ◌≡◌, ◌↔◌, refl, Bool, true, false, Option, none, some, [], ◌∷◌, str_eq}
use catworld.Worker.Commands.{
  restart_profile, start_profile, restart_all, safe, immediate, CommandStatus, draining, done,
  failed, CommandBody, CommandInput, parsed, issues, start_has_no_immediate_mode, bad_timeout,
  is_open, can_transition, command_create, needs_profile,
}
use catworld.Worker.Commands.Laws.{Moves, Moves-of_closed, is_open_iff}

-- One UUID is enough here.
abbrev is_one : String → Bool
is_one s = str_eq s "6f2c"

abbrev body : CommandBody
body = record { action = restart_profile; mode = none; profile_id = some "6f2c"; timeout_ms = none }

abbrev input : CommandInput
input = record {
  action = restart_profile;
  mode = safe;
  profile_id = some "6f2c";
  timeout_ms = 600000;
}

defaults_filled_in : command_create is_one body ≡ parsed input
unfolding command_create needs_profile
defaults_filled_in = refl

start_refused :
    command_create is_one (record body { action = start_profile; mode = some immediate })
    ≡ issues (start_has_no_immediate_mode ∷ [])
unfolding command_create needs_profile
start_refused = refl

-- The fields are tested before the rules between them.
fields_first :
    command_create is_one (record body { action = restart_all; timeout_ms = some 999 })
    ≡ issues (bad_timeout ∷ [])
unfolding command_create needs_profile
fields_first = refl

Moves-of_closed_example : done ≡ done
unfolding is_open
Moves-of_closed_example = Moves-of_closed {s = done} {t = done} refl Moves.stay

is_open_iff_example :
    ((is_open draining ≡ true) ↔ (can_transition draining failed ≡ true))
    × ((is_open draining ≡ false) ↔ ((t : CommandStatus) → can_transition draining t ≡ false))
is_open_iff_example = is_open_iff draining

abbrev profile_a : Option String
profile_a = some "a"

abbrev profile_b : Option String
profile_b = some "b"
