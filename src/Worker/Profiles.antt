-- ===== src/Worker/Profiles.antt =====
-- server/worker/profiles.ts: the job types and weights that a worker profile covers, and when a
-- change of a profile needs a restart of its process. A job type is a text, as in the source.
-- `sort` is JavaScript's sort of texts, by code points (job types and digits are ASCII).
pub mod Coverage
pub mod Restart
pub mod Tests
use catworld.Common.{
  ℕ, ◌+◌, ◌/◌, ◌%◌, zero, suc, String, Bool, true, false, ◌&&◌, ◌||◌, not, Option, none, some, List,
  [], ◌∷◌, ◌++◌, map, if◌then◌else◌, ◌==◌, ltb, str_eq, any, keep, includes, includes_nat, get_or,
}
use catworld.Common.TextOrder.{text_leb}
use Prim.Native.String

abbrev pub known_job_types : List String
known_job_types =
    "PREVIEW_UPLOAD" ∷ "IMPORT_UPLOAD" ∷ "SOURCE_REFRESH" ∷ "DERIVED_REFRESH" ∷ "METADATA_CLEANUP"
    ∷ "MIGRATE_STORAGE_PROJECT" ∷ "MIGRATE_STORAGE_DATASET" ∷ []

-- The weights that each type of job can have, in the order of `known_job_types`.
abbrev pub job_weights_by_type : List (String × List ℕ)
job_weights_by_type =
    ("PREVIEW_UPLOAD", 0 ∷ 2 ∷ [])
    ∷ ("IMPORT_UPLOAD", 1 ∷ 2 ∷ [])
    ∷ ("SOURCE_REFRESH", 0 ∷ 2 ∷ [])
    ∷ ("DERIVED_REFRESH", 2 ∷ [])
    ∷ ("METADATA_CLEANUP", 0 ∷ [])
    ∷ ("MIGRATE_STORAGE_PROJECT", 2 ∷ [])
    ∷ ("MIGRATE_STORAGE_DATASET", 2 ∷ [])
    ∷ []

-- What a running process was started with; `weights` may be left out.
pub record Restartable : Type 0 where
  pub job_types : List String
  pub concurrency : ℕ
  pub weights : Option (List ℕ)

pub insert_sorted : String → List String → List String
insert_sorted s [] = s ∷ []
insert_sorted s (t ∷ ts) = if text_leb s t then s ∷ t ∷ ts else t ∷ insert_sorted s ts

pub sort : List String → List String
unfolding insert_sorted
sort [] = []
sort (s ∷ ss) = insert_sorted s (sort ss)

-- `xs.join(",")`.
pub join : List String → String
join [] = ""
join (s ∷ []) = s
join (s ∷ t ∷ ts) = String.◌++◌ s (String.◌++◌ "," (join (t ∷ ts)))

-- The decimal digits of a number, as `String(n)` writes them.
digit : ℕ → String
digit n =
    if n == 0
    then "0"
    else if n == 1
    then "1"
    else if n == 2
    then "2"
    else if n == 3
    then "3"
    else if n == 4
    then "4"
    else if n == 5
    then "5"
    else if n == 6
    then "6"
    else if n == 7
    then "7"
    else if n == 8
    then "8"
    else "9"

to_text_fuel : ℕ → ℕ → String
unfolding digit
to_text_fuel zero n = ""
to_text_fuel (suc f) n =
    let front = to_text_fuel f (n / 10) in
    if ltb n 10 then digit n else String.◌++◌ front (digit (n % 10))

-- `n + 1` rounds are enough, since each takes one digit away.
unfoldable pub to_text : ℕ → String
unfolding to_text_fuel
to_text n = to_text_fuel (n + 1) n

pub sorted_key : List String → String
unfolding sort join
sorted_key xs = join (sort xs)

unfoldable pub needs_restart : Restartable → Restartable → Bool
unfolding sorted_key to_text
needs_restart before after =
    not (before.concurrency == after.concurrency)
    || not (str_eq (sorted_key before.job_types) (sorted_key after.job_types))
    || not (
        str_eq (sorted_key (map to_text (get_or before.weights [])))
          (sorted_key (map to_text (get_or after.weights []))))

pub record Profile : Type 0 where
  pub enabled : Bool
  pub job_types : List String
  pub weights : Option (List ℕ)

abbrev pub enabled_only : List Profile → List Profile
enabled_only = keep (λ p. p.enabled)

-- `flatMap((p) => p.jobTypes)`.
pub types_of : List Profile → List String
types_of [] = []
types_of (p ∷ ps) = p.job_types ++ types_of ps

-- The job types that no enabled profile takes.
pub uncovered_job_types : List Profile → List String
uncovered_job_types profiles =
    keep (λ t. not (includes t (types_of (enabled_only profiles)))) known_job_types

-- An empty list of weights, or none, stands for all.
unfoldable pub accepts_weight : Option (List ℕ) → ℕ → Bool
accepts_weight none weight = true
accepts_weight (some []) weight = true
accepts_weight (some (w ∷ ws)) weight = includes_nat weight (w ∷ ws)

unfoldable pub covers : List Profile → String → ℕ → Bool
unfolding accepts_weight
covers profiles type weight =
    any (λ p. includes type p.job_types && accepts_weight p.weights weight) (enabled_only profiles)

uncovered_weights : List Profile → String → List ℕ → List (String × ℕ)
uncovered_weights profiles type weights =
    map (λ w. (type, w)) (keep (λ w. not (covers profiles type w)) weights)

uncovered_from : List Profile → List (String × List ℕ) → List (String × ℕ)
unfolding uncovered_weights
uncovered_from profiles [] = []
uncovered_from profiles ((type, weights) ∷ rest) =
    uncovered_weights profiles type weights ++ uncovered_from profiles rest

-- The pairs of a type and one of its weights that no enabled profile takes: such jobs stay queued.
pub uncovered_lanes : List Profile → List (String × ℕ)
unfolding uncovered_from
uncovered_lanes profiles = uncovered_from profiles job_weights_by_type

pub data Warning : Type 0 where
  no_profile : List String → Warning
  no_lane : (type : String) (weight : ℕ) → Warning

lane_warnings : List String → List (String × ℕ) → List Warning
lane_warnings uncovered [] = []
lane_warnings uncovered ((type, weight) ∷ lanes) =
    let rest = lane_warnings uncovered lanes in
    if includes type uncovered then rest else no_lane type weight ∷ rest

abbrev type_warnings : List String → List Warning
type_warnings [] = []
type_warnings (t ∷ ts) = no_profile (t ∷ ts) ∷ []

-- A warning for the types with no profile, then one for each further lane.
pub coverage_warnings : List Profile → List Warning
unfolding lane_warnings
coverage_warnings profiles =
    type_warnings (uncovered_job_types profiles)
    ++ lane_warnings (uncovered_job_types profiles) (uncovered_lanes profiles)
