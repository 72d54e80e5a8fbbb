-- ===== src/Refresh/Tests.antt =====
-- Rounds on concrete sources.
use catworld.Common.{
  ℕ, ◌-◌, ◌*◌, ◌≤◌, ◌<◌, String, ◌≡◌, ◌⊎◌, ◌↔◌, refl, inl, Bool, true, false, ◌&&◌, ◌||◌, Option,
  none, some, [], ◌∷◌, arith, str_eq, All, if◌then◌else◌,
}
use catworld.Jobs.{count}
use catworld.Jobs.Finish.{given}
use catworld.Source.{DeltaKind, temporal, new_tracker, push_all}
use catworld.Integrity.{integrity_defaults, evaluate_load}
use catworld.Refresh.Plan.{
  Column, RefreshSource, Findings, Plan, done, throws, source_schema_changed, is_table, plan,
  next_mark, SourceOptions, RunMarker, may_swap, effective_integrity,
}
use catworld.Refresh.Keys.{
  keys_due, counted, no_keys, check_keys, keys_check_exceeds, swap_has_keys, escalated, Checked,
  skips_after, is_skipped,
}
use catworld.Refresh.Skips.{skips_after-escalated_iff}
use catworld.Refresh.Whole.{plan-replaces_whole, swap_has_keys-bounded}
use catworld.Refresh.Marks.{IsRaised, next_mark-IsRaised}
use catworld.Refresh.Guard.{may_swap-keeps_share}
use catworld.Jobs.{running, Payload, parsed, Job, Source, same_text}
use catworld.Jobs.Finish.{Failure, fail_source}
use catworld.Source.{get_source_settings}
use catworld.Refresh.{
  SourceRow, leased_row, take_lease, new_round, max_heartbeat_failures, renew, beat_missed,
  end_round, is_source_busy_error,
}
use catworld.Refresh.Steps.{World, passes, begins, misses, Rounds, no_step, one_more}
use catworld.Refresh.Held.{IsExclusive}
use catworld.Refresh.Exclusion.{Rounds-IsExclusive}
use catworld.Refresh.Late.{late_end_frees, lost_failure_frees}

abbrev no_number : String → Option ℕ
no_number s = none

abbrev idle_row : SourceRow
idle_row = record { last_status = some "queued"; last_error = none; updated_at = 0 }

abbrev idle : World
idle = record { now = 100000; row = idle_row; rounds = [] }

abbrev begun : World
begun = record {
  now = 100000;
  row = leased_row "lease:a" 100000 idle_row;
  rounds = new_round "lease:a" 100000 ∷ [];
}

abbrev later : World
later = record begun { now = 160000 }

abbrev missed : World
missed = record later { rounds = beat_missed 15 160000 (new_round "lease:a" 100000) ∷ [] }

-- A round begins, and its first heartbeat fails.
first_minute : Rounds (get_source_settings no_number none).stale_lease_minutes idle missed
unfolding take_lease beat_missed max_heartbeat_failures get_source_settings
first_minute =
    one_more
      (one_more
        (one_more no_step (begins "lease:a" idle (leased_row "lease:a" 100000 idle_row) refl))
        (passes 60000 begun ((λ _. omega arith), tt)))
      (misses "lease:a" later)

Rounds-IsExclusive_example :
    IsExclusive (get_source_settings no_number none).stale_lease_minutes missed
unfolding first_minute
Rounds-IsExclusive_example =
    Rounds-IsExclusive no_number none first_minute (((tt, tt), tt), tt)
      (record { held = tt; single = omega arith })

-- The failure that loses the lease comes after half of the fifteen minutes.
misses_to_lose : (max_heartbeat_failures 15 ≡ 7) × (max_heartbeat_failures 2 ≡ 2)
unfolding max_heartbeat_failures
misses_to_lose = (refl, refl)

-- Fifteen minutes without a renewal, and not a moment less.
takeover :
    ((take_lease 15 "lease:b" 1000000 (leased_row "lease:a" 100000 idle_row)).1 ≡ false)
    × ((take_lease 15 "lease:b" 1000001 (leased_row "lease:a" 100000 idle_row)).1 ≡ true)
unfolding take_lease
takeover = (refl, refl)

abbrev taken_over : SourceRow
taken_over = leased_row "lease:b" 1000001 idle_row

late_end_frees_example :
    let row' = end_round "completed" none 1000005 taken_over in
    ((renew "lease:b" 1000009 taken_over).1 ≡ true)
    × (take_lease 15 "lease:c" 1000009 row' ≡ (leased_row "lease:c" 1000009 row', true))
    × (renew "lease:b" 1000009 row' ≡ (row', false))
late_end_frees_example =
    late_end_frees 15 1000005 1000009 taken_over "lease:b" "lease:c" "completed" none refl refl

abbrev no_run : String → ℕ → Option ℕ
no_run cron now = none

abbrev payload : Payload
payload = record {
  dataset_source_id = some "s1";
  derived_table_id = none;
  project_id = none;
  dataset_id = none;
  target_storage_server_id = none;
  reconciliation = false;
  manual = false;
  accept_drop = false;
}

abbrev refresh_job : Job
refresh_job = record {
  id = "j1";
  type = "SOURCE_REFRESH";
  status = running;
  upload_id = none;
  payload_json = parsed payload;
  attempts = 1;
  max_attempts = 3;
  available_at = 0;
  locked_at = none;
  locked_by = none;
  heartbeat_at = none;
  weight = 0;
  storage_server_id = none;
  last_error = none;
}

abbrev lost : Failure
lost = record { message = "lease"; non_retryable = false; source_busy = false }

abbrev held_by_other : Source
held_by_other = record {
  id = "s1";
  last_status = some "running";
  last_error = some "lease:b";
  refresh_cron = none;
  reconciliation_cron = none;
  next_refresh_at = none;
  next_reconciliation_at = none;
}

lost_failure_frees_example :
    All
      (λ s. str_eq s.id "s1" ≡ true → same_text s.last_status (some "running") ≡ false)
      (fail_source no_run refresh_job lost 5 (held_by_other ∷ []))
unfolding is_source_busy_error
lost_failure_frees_example =
    lost_failure_frees no_run refresh_job lost payload "s1" 5 (held_by_other ∷ []) refl refl refl
      refl

abbrev columns : String → Option Column
columns name =
    if str_eq name "id" || str_eq name "changed_at"
    then some (record { sql_name = name; kind = temporal; legacy_round = false })
    else none

abbrev id_column : Column
id_column = record { sql_name = "id"; kind = temporal; legacy_round = false }

abbrev changed_at : Column
changed_at = record { sql_name = "changed_at"; kind = temporal; legacy_round = false }

abbrev as_is : String → DeltaKind → Option String
as_is v kind = if str_eq v "" then none else some v

-- Marks of one digit.
abbrev greater : DeltaKind → String → String → Bool
greater kind a b = str_eq b "5" && str_eq a "7"

abbrev orders : RefreshSource
orders = record {
  source_kind = "table";
  key_column = some "id";
  delta_column = some "changed_at";
  last_delta_value = some "5";
  source_sql_reconciliation = none;
  detect_deletions = true;
  keys_min_interval_minutes = some 60;
  last_keys_check_at = some 0;
}

abbrev found : Findings
found = record { resolve = columns; has_target = true; changed = false; cap = none }

abbrev incremental : Plan
incremental = record {
  key = some id_column;
  delta = some changed_at;
  mark = record { value = some "5"; poisoned = false };
  use_delta = true;
  use_key_merge = true;
  full_snapshot = false;
}

abbrev reload : Plan
reload = record {
  key = some id_column;
  delta = some changed_at;
  mark = record { value = some "5"; poisoned = false };
  use_delta = false;
  use_key_merge = false;
  full_snapshot = true;
}

plans_incremental : plan as_is greater orders false found ≡ done incremental
unfolding plan
plans_incremental = refl

-- A query with a window does not reload itself when its columns change.
refuses_window :
    plan as_is greater
      (record orders { source_kind = "query" })
      false
      (record found { changed = true })
    ≡ throws source_schema_changed
unfolding plan
refuses_window = refl

plan-replaces_whole_example :
    (true ≡ true
      → reload.use_key_merge ≡ false
      → (reload.full_snapshot ≡ true)
        ⊎ ((given orders.key_column ≡ none) × (is_table orders ≡ false) × (false ≡ false)))
    × (reload.full_snapshot ≡ true
        → (reload.use_delta ≡ false) × ((false ≡ true) ⊎ (is_table orders ≡ true)))
unfolding plan
plan-replaces_whole_example =
    plan-replaces_whole as_is greater orders false (record found { changed = true }) reload
      (inl refl) refl

swap_has_keys-bounded_example :
    (incremental.use_key_merge ≡ true)
    × (incremental.full_snapshot ≡ false)
    × ((candidates : ℕ) × (live : ℕ) × (counted 3 100 ≡ counted candidates live)
        × ((live < 50) ⊎ (10 * candidates ≤ 3 * live)))
unfolding swap_has_keys keys_due check_keys keys_check_exceeds
swap_has_keys-bounded_example =
    swap_has_keys-bounded orders incremental 3600000 (counted 3 100) refl

next_mark-IsRaised_example : IsRaised greater incremental changed_at none (some "5") (
    next_mark greater incremental
      (push_all greater (some "5" ∷ none ∷ some "7" ∷ []) (new_tracker temporal none)))
next_mark-IsRaised_example =
    next_mark-IsRaised greater incremental changed_at none (some "5" ∷ none ∷ some "7" ∷ []) refl

abbrev skipped : Checked
skipped = record { source = orders; plan = incremental; now = 3600000; read = counted 50 100 }

abbrev early : Checked
early = record { source = orders; plan = incremental; now = 1000; read = no_keys }

skips_after-escalated_iff_example :
    (skips_after (skipped ∷ early ∷ skipped ∷ []) 0
      ≡ count is_skipped (skipped ∷ early ∷ skipped ∷ []))
    × ((escalated 2 (skips_after (skipped ∷ early ∷ skipped ∷ []) 0) ≡ true)
        ↔ ((0 < 2) × (2 ≤ count is_skipped (skipped ∷ early ∷ skipped ∷ []))))
unfolding keys_due check_keys keys_check_exceeds
skips_after-escalated_iff_example =
    skips_after-escalated_iff (skipped ∷ early ∷ skipped ∷ []) 2 (refl, (refl, (refl, tt)))

abbrev plain : SourceOptions
plain = record { allow_empty = false; max_drop_pct = none }

abbrev unmarked : RunMarker
unmarked = record { manual = false; accept_drop = false; allow_drop_pct = none }

may_swap-keeps_share_example : 100 * (100 - 30) ≤ 80 * 100
unfolding may_swap effective_integrity evaluate_load
may_swap-keeps_share_example =
    may_swap-keeps_share integrity_defaults plain unmarked orders false found reload 80 100 refl
      refl refl refl refl refl refl (omega arith) refl
