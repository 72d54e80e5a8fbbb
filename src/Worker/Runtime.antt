-- ===== src/Worker/Runtime.antt =====
-- worker/runtime.ts: the identity of a worker process, its state, and its waits; and the retaking of
-- the leadership of supervisor/leadership.ts. Waits poll: what is polled is a function of the time, and
-- sleeping takes exactly as long as asked. `parse_date` and `number` stand for `Date.parse` (`none` is
-- NaN) and `Number` on the text of a process number.
pub mod Waits
pub mod Tests
use Prim.Native.Char.{code}
use Prim.Native.String
use catworld.Common.{
  ℕ, zero, suc, ◌+◌, ◌-◌, ◌*◌, String, Bool, true, false, ◌&&◌, ◌||◌, not, Option, none, some, List,
  [], ◌∷◌, map, if◌then◌else◌, leb, ltb, ◌==◌, is_some, keep, includes, str_eq, get_or,
}
use catworld.Worker.Profiles.{known_job_types}

-- The text after a prefix, if it begins with it.
abbrev strip_prefix : String → String → Option String
strip_prefix String.[] s = some s
strip_prefix (String.◌∷◌ c p) String.[] = none
strip_prefix (String.◌∷◌ c p) (String.◌∷◌ d s) = if code c == code d then strip_prefix p s else none

abbrev non_empty : String → Option String
non_empty s = if str_eq s "" then none else some s

-- The next argument, unless it is an option, missing or empty.
abbrev value_after : List String → Option String
value_after [] = none
value_after (s ∷ args) = if is_some (strip_prefix "--" s) then none else non_empty s

unfoldable pub parse_profile_arg : List String → Option String
parse_profile_arg [] = none
parse_profile_arg (a ∷ args) =
    if str_eq a "--profile" then value_after args else elim (strip_prefix "--profile=" a) [
      | some name ↦ non_empty name
      | none ↦ parse_profile_arg args
    ]

abbrev is_empty {ℓ} : {A : Type ℓ} → List A → Bool
is_empty [] = true
is_empty (x ∷ xs) = false

-- `none` is the exception.
unfoldable pub assert_known_types : List String → Option (List String)
assert_known_types types =
    if not (is_empty (keep (λ t. not (includes t known_job_types)) types)) || is_empty types
    then none
    else some types

pub record WorkerState : Type 0 where
  pub stopping : Bool
  pub draining : Bool
  pub inflight : ℕ

abbrev pub can_claim : WorkerState → Bool
can_claim s = not s.stopping && not s.draining

abbrev pub job_started : WorkerState → WorkerState
job_started s = record s { inflight = s.inflight + 1 }

abbrev pub job_finished : WorkerState → WorkerState
job_finished s = record s { inflight = s.inflight - 1 }

abbrev pub is_finished : WorkerState → Bool
is_finished s = not (can_claim s) && s.inflight == 0

-- The loop of `abortAndWait`, with fuel; `none` is fuel that ran out.
unfoldable pub wait_idle : ℕ → (ℕ → ℕ) → ℕ → ℕ → ℕ → Option Bool
wait_idle zero inflight_at limit poll now = none
wait_idle (suc f) inflight_at limit poll now =
    let later = wait_idle f inflight_at limit poll (now + poll) in
    if inflight_at now == 0 then some true else if leb limit now then some false else later

-- The tokens, all cancelled, and whether everything stopped in time.
unfoldable pub abort_and_wait : ℕ → List Bool → (ℕ → ℕ) → ℕ → ℕ → ℕ → List Bool × Option Bool
abort_and_wait f tokens inflight_at grace poll now =
    (map (λ _. true) tokens, wait_idle f inflight_at (now + grace) poll now)

pub record Liveness : Type 0 where
  pub at : ℕ
  pub host : Option String
  pub pid : Option ℕ

abbrev bar : ℕ
bar = 124

-- `raw.split("|")`: the part before the first bar, and the other parts.
split_bar : String → String × List String
split_bar String.[] = ("", [])
split_bar (String.◌∷◌ c s) =
    let (first, rest) = split_bar s in
    if code c == bar then ("", first ∷ rest) else (String.◌∷◌ c first, rest)

abbrev second : List String → Option String
second [] = none
second (s ∷ ss) = some s

abbrev third : List String → Option String
third [] = none
third (s ∷ ss) = second ss

abbrev number_of : (String → ℕ) → Option String → Option ℕ
number_of number none = none
number_of number (some s) = if str_eq s "" then none else some (number s)

unfoldable pub parse_liveness : (String → Option ℕ) → (String → ℕ) → String → Liveness
unfolding split_bar
parse_liveness parse_date number raw =
    let (ts, rest) = split_bar raw in
    record {
      at = get_or (parse_date ts) 0;
      host = second rest;
      pid = number_of number (third rest);
    }

abbrev pub liveness_fresh_ms : ℕ
liveness_fresh_ms = 45000

pub record Identity : Type 0 where
  pub host : String
  pub pid : ℕ

-- A pulse that is fresh, against the identity of this process.
unfoldable pub pulse_conflicts : Liveness → Identity → (ℕ → Bool) → Bool
pulse_conflicts l me is_pid_alive = elim l.host [
  | none ↦ true
  | some host ↦ elim l.pid [
    | none ↦ true
    | some pid ↦
        if str_eq host me.host then if pid == me.pid then false else is_pid_alive pid else true
  ]
]

unfoldable pub identity_conflict :
    (String → Option ℕ) → (String → ℕ) → Option String → Identity → ℕ → (ℕ → Bool) → Bool
unfolding pulse_conflicts parse_liveness
identity_conflict parse_date number none me now is_pid_alive = false
identity_conflict parse_date number (some raw) me now is_pid_alive =
    let l = parse_liveness parse_date number raw in
    if str_eq raw ""
    then false
    else if ltb (l.at + liveness_fresh_ms) now
    then false
    else pulse_conflicts l me is_pid_alive

-- The loop of `waitIdentityFree`, with fuel.
unfoldable pub wait_free : ℕ → (ℕ → Bool) → ℕ → ℕ → ℕ → Option Bool
wait_free zero conflict_at limit poll now = none
wait_free (suc f) conflict_at limit poll now =
    let later = wait_free f conflict_at limit poll (now + poll) in
    if not (conflict_at now) then some true else if leb limit now then some false else later

-- With the default of 60 seconds and polls every two.
unfoldable pub wait_identity_free : ℕ → (ℕ → Bool) → Option ℕ → Option ℕ → ℕ → Option Bool
wait_identity_free f check max_wait poll start =
    wait_free f check (start + get_or max_wait 60000) (get_or poll 2000) start

-- supervisor/leadership.ts: an attempt gets the lock, finds that another has it, or fails.
pub data Attempt {ℓ} (T : Type ℓ) : Type ℓ where
  got : T → Attempt T
  taken error : Attempt T

-- The outcome and the sleeps; `left` attempts are left, and `i` is the number of the next.
retake_from {ℓ} : {T : Type ℓ} → ℕ → ℕ → ℕ → List (Attempt T) → Option T × List ℕ
retake_from base zero i tries = (none, [])
retake_from base (suc left) i [] = (none, [])
retake_from base (suc left) i (got t ∷ tries) = (some t, [])
retake_from base (suc left) i (taken ∷ tries) = (none, [])
retake_from base (suc left) i (error ∷ tries) =
    let (outcome, sleeps) = retake_from base left (i + 1) tries in
    (outcome, if left == 0 then sleeps else base * i ∷ sleeps)

unfoldable pub retake_leadership {ℓ} :
    {T : Type ℓ} → Option ℕ → Option ℕ → List (Attempt T) → Option T × List ℕ
unfolding retake_from
retake_leadership attempts base tries = retake_from (get_or base 1000) (get_or attempts 6) 1 tries
