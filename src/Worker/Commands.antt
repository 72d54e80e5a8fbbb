-- ===== src/Worker/Commands.antt =====
-- server/worker/commands.ts: the actions, modes and states of a system command, and the rules that
-- the API applies before one is stored. `is_uuid` stands for zod's test of a UUID.
pub mod Laws
pub mod Tests
use catworld.Common.{
  ℕ, String, Bool, true, false, ◌&&◌, ◌||◌, not, Option, none, some, List, [], ◌∷◌, ◌++◌,
  if◌then◌else◌, leb, str_eq, any, get_or,
}
use mathlib.Core.Bool.{decide}

pub data CommandAction : Type 0 where
  restart_profile stop_profile start_profile restart_all restart_supervisor : CommandAction

pub data CommandMode : Type 0 where
  safe immediate : CommandMode

pub data CommandStatus : Type 0 where
  pending accepted draining applying done forced failed cancelled expired : CommandStatus

CommandStatus-discrete : Discrete CommandStatus
CommandStatus-discrete = hlevel

abbrev pub default_command_timeout_ms : ℕ
default_command_timeout_ms = 600000

abbrev status_eq : CommandStatus → CommandStatus → Bool
status_eq s t = decide (CommandStatus-discrete s t)

terminal : List CommandStatus
terminal = done ∷ forced ∷ failed ∷ cancelled ∷ expired ∷ []

-- Open: it can still change, and blocks another command for the same profile.
pub is_open : CommandStatus → Bool
unfolding terminal decide CommandStatus-discrete
is_open status = not (any (λ t. status_eq t status) terminal)

pub transitions : CommandStatus → List CommandStatus
transitions pending = accepted ∷ cancelled ∷ expired ∷ failed ∷ []
transitions accepted = draining ∷ applying ∷ done ∷ failed ∷ []
transitions draining = applying ∷ done ∷ forced ∷ failed ∷ []
transitions applying = done ∷ forced ∷ failed ∷ []
transitions done = []
transitions forced = []
transitions failed = []
transitions cancelled = []
transitions expired = []

unfoldable pub can_transition : CommandStatus → CommandStatus → Bool
unfolding transitions decide CommandStatus-discrete
can_transition from to = any (λ t. status_eq t to) (transitions from)

-- The actions that name a profile.
unfoldable pub needs_profile : CommandAction → Bool
needs_profile restart_profile = true
needs_profile stop_profile = true
needs_profile start_profile = true
needs_profile restart_all = false
needs_profile restart_supervisor = false

-- A request body: a field that the client leaves out is `none`.
pub record CommandBody : Type 0 where
  pub action : CommandAction
  pub mode : Option CommandMode
  pub profile_id : Option String
  pub timeout_ms : Option ℕ

pub record CommandInput : Type 0 where
  pub action : CommandAction
  pub mode : CommandMode
  pub profile_id : Option String
  pub timeout_ms : ℕ

pub data Issue : Type 0 where
  bad_uuid bad_timeout profile_missing profile_unexpected start_has_no_immediate_mode : Issue

pub data Parsed : Type 0 where
  parsed : CommandInput → Parsed
  issues : List Issue → Parsed

abbrev issue_if : Bool → Issue → List Issue
issue_if true i = i ∷ []
issue_if false i = []

abbrev is_immediate : CommandMode → Bool
is_immediate safe = false
is_immediate immediate = true

abbrev is_start : CommandAction → Bool
is_start start_profile = true
is_start _ = false

-- `Boolean(profileId)`: the empty text is falsy.
abbrev pub has_text : Option String → Bool
has_text none = false
has_text (some s) = not (str_eq s "")

abbrev bad_id : (String → Bool) → Option String → Bool
bad_id is_uuid none = false
bad_id is_uuid (some s) = not (is_uuid s)

abbrev bad_time : Option ℕ → Bool
bad_time none = false
bad_time (some t) = not (leb 1000 t && leb t 3600000)

-- The tests of the single fields.
field_issues : (String → Bool) → CommandBody → List Issue
field_issues is_uuid b =
    issue_if (bad_id is_uuid b.profile_id) bad_uuid ++ issue_if (bad_time b.timeout_ms) bad_timeout

-- `superRefine`, which runs once the fields are right.
refine_issues : CommandInput → List Issue
unfolding needs_profile
refine_issues c =
    issue_if (needs_profile c.action && not (has_text c.profile_id)) profile_missing
    ++ (issue_if (not (needs_profile c.action) && has_text c.profile_id) profile_unexpected
        ++ issue_if (is_start c.action && is_immediate c.mode) start_has_no_immediate_mode)

abbrev accept : CommandInput → List Issue → Parsed
accept c [] = parsed c
accept c (i ∷ is) = issues (i ∷ is)

abbrev refine : CommandInput → List Issue → Parsed
unfolding refine_issues
refine c [] = accept c (refine_issues c)
refine c (i ∷ is) = issues (i ∷ is)

pub command_create : (String → Bool) → CommandBody → Parsed
unfolding field_issues refine_issues
command_create is_uuid b =
    refine
      (record {
        action = b.action;
        mode = get_or b.mode safe;
        profile_id = b.profile_id;
        timeout_ms = get_or b.timeout_ms default_command_timeout_ms;
      })
      (field_issues is_uuid b)

-- `a.profileId === b.profileId`, where either may be null.
abbrev same_profile : Option String → Option String → Bool
same_profile none none = true
same_profile none (some t) = false
same_profile (some s) none = false
same_profile (some s) (some t) = str_eq s t

-- Two open commands conflict if they reach the same profile, or one is for all of them.
unfoldable pub commands_conflict :
    CommandAction × Option String → CommandAction × Option String → Bool
unfolding needs_profile
commands_conflict (a, p) (b, q) = not (needs_profile a) || not (needs_profile b) || same_profile p q
