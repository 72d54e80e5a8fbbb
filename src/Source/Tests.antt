-- ===== src/Source/Tests.antt =====
-- Sources at concrete inputs.
use catworld.Common.{String, ◌≡◌, refl, Bool, true, false, Option, none, some, List, [], ◌∷◌, not}
use catworld.Common.TextOrder.{text_leb}
use catworld.Settings.{is_blank}
use catworld.Source.{
  DeltaKind, temporal, WatermarkTracker, new_tracker, push, push_all, absent, given,
  should_reset_delta, deletion_coverage_warning, no_detection_table, get_source_settings,
  source_defaults,
}

abbrev above : DeltaKind → String → String → Bool
above kind a b = not (text_leb a b)

abbrev start : WatermarkTracker
start = record {
  max_read = none;
  future_count = 0;
  future_max = none;
  null_count = 0;
  kind = temporal;
  cap = some "2026-01-02";
}

abbrev read : List (Option String)
read = some "2026-01-01" ∷ some "2099-01-01" ∷ none ∷ some "2025-12-31" ∷ []

kept : (push_all above read start).max_read ≡ some "2026-01-01"
unfolding push_all push
kept = refl

fresh : new_tracker temporal (some "2026-01-02") ≡ start
unfolding new_tracker
fresh = refl

-- Only the mode is given, and it is the one before: the mark stays.
stays :
    should_reset_delta
      (record {
        delta_column = absent;
        key_column = absent;
        source_sql = absent;
        mode = some "extract";
      })
      (record { delta_column = some "id"; key_column = none; source_sql = none; mode = "extract" })
    ≡ false
unfolding should_reset_delta
stays = refl

-- A column that is set to null was one: the mark goes.
goes :
    should_reset_delta
      (record { delta_column = given none; key_column = absent; source_sql = absent; mode = none })
      (record { delta_column = some "id"; key_column = none; source_sql = none; mode = "extract" })
    ≡ true
unfolding should_reset_delta
goes = refl

undetected :
    deletion_coverage_warning (record {
      mode = some "extract";
      key_column = some "id";
      detect_deletions = false;
      reconciliation_cron = given (some " ");
      source_kind = none;
      source_sql_reconciliation = none;
    })
    ≡ some no_detection_table
unfolding deletion_coverage_warning is_blank
undetected = refl

unreadable : get_source_settings (λ s. none) none ≡ source_defaults
unfolding get_source_settings
unreadable = refl
