-- ===== src/Source.antt =====
-- server/connections/source-guards.ts and the mark of source-delta.ts: the settings of connected
-- sources, when the mark of what was read is given up, what detects deletions, and the largest value
-- read so far. The order of marks (by kind) and `Number` are parameters.
pub mod Marks
pub mod Tests
use Prim.Native.Char.{code}
use Prim.Native.String
use catworld.Common.{
  ℕ, ◌+◌, ◌*◌, ◌^◌, ◌/◌, ◌%◌, String, Bool, true, false, ◌&&◌, ◌||◌, not, Option, none, some, List,
  [], ◌∷◌, if◌then◌else◌, str_eq, is_none, is_some, get_or, lookup,
}
use catworld.Settings.{is_blank, pick_int}
use catworld.Worker.Profiles.{to_text}

-- A field that may be left out (`absent`, undefined), or be null or a text.
pub data Field : Type 0 where
  absent : Field
  given : Option String → Field

pub record DeltaInput : Type 0 where
  pub delta_column : Field
  pub key_column : Field
  pub source_sql : Field
  pub mode : Option String

pub record DeltaCurrent : Type 0 where
  pub delta_column : Option String
  pub key_column : Option String
  pub source_sql : Option String
  pub mode : String

abbrev pub same_text : Option String → Option String → Bool
same_text none none = true
same_text none (some b) = false
same_text (some a) none = false
same_text (some a) (some b) = str_eq a b

abbrev pub differs : Field → Option String → Bool
differs absent b = false
differs (given a) b = not (same_text a b)

unfoldable pub should_reset_delta : DeltaInput → DeltaCurrent → Bool
should_reset_delta input current =
    differs input.delta_column current.delta_column
    || differs input.key_column current.key_column
    || differs input.source_sql current.source_sql
    || elim input.mode [ none ↦ false | some m ↦ not (str_eq m current.mode) ]

pub record SourceSettings : Type 0 where
  pub lookback_minutes : ℕ
  pub future_tolerance_hours : ℕ
  pub keys_escalate_after : ℕ
  pub stale_lease_minutes : ℕ

abbrev pub source_defaults : SourceSettings
source_defaults = record {
  lookback_minutes = 10;
  future_tolerance_hours = 24;
  keys_escalate_after = 3;
  stale_lease_minutes = 15;
}

-- `int`, whose body is that of `pickInt`.
unfoldable pub int : (String → Option ℕ) → Option String → ℕ → ℕ → ℕ → ℕ
unfolding pick_int
int number v d low high = pick_int number v d low high

-- `none` stands for a query that fails.
unfoldable pub get_source_settings :
    (String → Option ℕ) → Option (List (String × String)) → SourceSettings
unfolding int
get_source_settings number none = source_defaults
get_source_settings number (some by) = record {
  lookback_minutes =
      int number (lookup "source.delta_lookback_minutes" by) source_defaults.lookback_minutes 0
        10080;
  future_tolerance_hours =
      int number (lookup "source.delta_future_tolerance_hours" by)
        source_defaults.future_tolerance_hours 0 8760;
  keys_escalate_after =
      int number (lookup "source.keys_skip_escalate_after" by) source_defaults.keys_escalate_after 0
        1000;
  stale_lease_minutes =
      int number (lookup "source.stale_lease_minutes" by) source_defaults.stale_lease_minutes 2
        1440;
}

abbrev pub default_reconciliation_cron : String
default_reconciliation_cron = "15 3 * * *"

pub record DeletionCoverageInput : Type 0 where
  pub mode : Option String
  pub key_column : Option String
  pub detect_deletions : Bool
  pub reconciliation_cron : Field
  pub source_kind : Option String
  pub source_sql_reconciliation : Option String

-- `!!s?.trim()`.
abbrev pub filled : Option String → Bool
filled none = false
filled (some s) = not (is_blank s)

abbrev pub is_text : Option String → String → Bool
is_text none t = false
is_text (some s) t = str_eq s t

abbrev pub text_of : Field → Option String
text_of absent = none
text_of (given o) = o

-- The two texts after `NO_DELETION_DETECTION`.
pub data DeletionWarning : Type 0 where
  no_detection_query no_detection_table : DeletionWarning

unfoldable pub deletion_coverage_warning : DeletionCoverageInput → Option DeletionWarning
deletion_coverage_warning s =
    if not (is_text s.mode "extract") || not (filled s.key_column)
    then none
    else if s.detect_deletions || filled (text_of s.reconciliation_cron)
    then none
    else if is_text s.source_kind "query"
    then some no_detection_query
    else some no_detection_table

pub data DeltaKind : Type 0 where
  temporal integer decimal text_kind : DeltaKind

-- The fields of WatermarkTracker.
pub record WatermarkTracker : Type 0 where
  pub max_read : Option String
  pub future_count : ℕ
  pub future_max : Option String
  pub null_count : ℕ
  pub kind : DeltaKind
  pub cap : Option String

unfoldable pub new_tracker : DeltaKind → Option String → WatermarkTracker
new_tracker kind cap = record {
  max_read = none;
  future_count = 0;
  future_max = none;
  null_count = 0;
  kind = kind;
  cap = cap;
}

-- `above kind a b` is `compareWatermark(a, b, kind) > 0`.
module _ (above : DeltaKind → String → String → Bool) where
  abbrev pub larger : DeltaKind → String → Option String → Option String
  larger kind v none = some v
  larger kind v (some m) = if above kind v m then some v else some m

  -- `this.cap` is a text; an empty one counts as none.
  abbrev pub over_cap : DeltaKind → Option String → String → Bool
  over_cap temporal none v = false
  over_cap temporal (some String.[]) v = false
  over_cap temporal (some (String.◌∷◌ c cs)) v = above temporal v (String.◌∷◌ c cs)
  over_cap integer cap v = false
  over_cap decimal cap v = false
  over_cap text_kind cap v = false

  unfoldable pub push : Option String → WatermarkTracker → WatermarkTracker
  push none t = record t { null_count = t.null_count + 1 }
  push (some v) t =
      if over_cap t.kind t.cap v
      then record t { future_count = t.future_count + 1; future_max = larger t.kind v t.future_max }
      else record t { max_read = larger t.kind v t.max_read }

  unfoldable pub push_all : List (Option String) → WatermarkTracker → WatermarkTracker
  unfolding push
  push_all [] t = t
  push_all (v ∷ vs) t = push_all vs (push v t)
