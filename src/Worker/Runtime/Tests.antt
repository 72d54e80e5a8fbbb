-- ===== src/Worker/Runtime/Tests.antt =====
-- The worker process at concrete inputs.
use catworld.Common.{
  ℕ, String, ◌≡◌, refl, Bool, true, false, Option, none, some, [], ◌∷◌, if◌then◌else◌, ltb, str_eq,
}
use catworld.Worker.Runtime.{
  parse_profile_arg, assert_known_types, Identity, parse_liveness, identity_conflict, got, taken,
  error, retake_leadership,
}

spaced : parse_profile_arg ("--verbose" ∷ "--profile" ∷ "worker-sync" ∷ []) ≡ some "worker-sync"
unfolding parse_profile_arg
spaced = refl

joined : parse_profile_arg ("--profile=worker-sync" ∷ []) ≡ some "worker-sync"
unfolding parse_profile_arg
joined = refl

option_is_no_name : parse_profile_arg ("--profile" ∷ "--verbose" ∷ []) ≡ none
unfolding parse_profile_arg
option_is_no_name = refl

unknown_type : assert_known_types ("IMPORT_UPLOAD" ∷ "DROP" ∷ []) ≡ none
unfolding assert_known_types
unknown_type = refl

-- Enough of `Date.parse` and `Number` for these tests.
abbrev parse_date : String → Option ℕ
parse_date s = if str_eq s "T" then some 1000 else none

abbrev number : String → ℕ
number s = if str_eq s "42" then 42 else 0

pulse_read :
    parse_liveness parse_date number "T|web1|42"
    ≡ record { at = 1000; host = some "web1"; pid = some 42 }
unfolding parse_liveness
pulse_read = refl

abbrev me : Identity
me = record { host = "web1"; pid = 42 }

abbrev nobody : ℕ → Bool
nobody p = false

-- A fresh pulse of the old format is taken for a living process, its own is not.
old_format_conflicts :
    (identity_conflict parse_date number (some "T") me 2000 nobody ≡ true)
    × (identity_conflict parse_date number (some "T|web1|42") me 2000 nobody ≡ false)
unfolding identity_conflict parse_liveness
old_format_conflicts = (refl, refl)

taken_by_another :
    retake_leadership {T = String} none none (error ∷ error ∷ taken ∷ got "lock" ∷ [])
    ≡ (none, 1000 ∷ 2000 ∷ [])
unfolding retake_leadership
taken_by_another = refl

-- One job that runs until the time 120.
abbrev one_job : ℕ → ℕ
one_job t = if ltb t 120 then 1 else 0
