-- ===== src/Integrity/Tests.antt =====
-- Loads at concrete inputs.
use catworld.Common.{
  ℕ, ◌-◌, ◌*◌, ◌≤◌, ◌<◌, String, ◌≡◌, ◌≢◌, ◌↔◌, ◌⊎◌, refl, true, false, ◌&&◌, ◌||◌, not, Option,
  none, some, List, [], ◌∷◌, arith,
}
use catworld.Integrity.{
  suspect, failed, drop_gt_pct, LoadFacts, enforce, integrity_defaults, evaluate_load,
}
use catworld.Integrity.Verdicts.{is_barred, evaluate_load-failed_iff, published_is_complete}

abbrev refresh : LoadFacts
refresh = record {
  full_state = true;
  delta_only = false;
  expected_rows = 0;
  parsed_rows = 60;
  staged_rows = some 60;
  prev_rows = 100;
  was_retry_reusing_staging = false;
  scheduled = true;
  soft_empty = false;
  expected_unverified = false;
  client_count_disagrees = false;
}

-- 60 of 100 rows are a drop of more than 30 percent.
drop_refused : (evaluate_load refresh integrity_defaults).verdict ≡ failed
unfolding evaluate_load
drop_refused = refl

drop_marked_for_upload :
    evaluate_load (record refresh { scheduled = false }) integrity_defaults
    ≡ record { verdict = suspect; reasons = record { code = drop_gt_pct; blocking = false } ∷ [] }
unfolding evaluate_load
drop_marked_for_upload = refl

evaluate_load-failed_iff_example :
    ((evaluate_load refresh integrity_defaults).verdict ≡ failed)
    ↔ ((integrity_defaults.mode ≡ enforce) × (is_barred refresh integrity_defaults ≡ true))
evaluate_load-failed_iff_example = evaluate_load-failed_iff refresh integrity_defaults

abbrev whole : LoadFacts
whole = record refresh { parsed_rows = 70; staged_rows = some 70; expected_rows = 70 }

whole_passes : (evaluate_load whole integrity_defaults).verdict ≢ failed
unfolding evaluate_load
whole_passes = λ e. ground arith

published_is_complete_example :
    ((whole.delta_only ≡ true) ⊎ (whole.expected_rows ≤ whole.parsed_rows))
    × ((whole.was_retry_reusing_staging ≡ true)
        ⊎ ((whole.staged_rows ≡ none) ⊎ (whole.staged_rows ≡ some whole.parsed_rows)))
    × ((((whole.full_state && not whole.delta_only) && whole.scheduled) ≡ false)
        ⊎ ((whole.prev_rows < 50)
            ⊎ (((integrity_defaults.allow_empty || whole.soft_empty) ≡ true)
                ⊎ (whole.prev_rows * (100 - integrity_defaults.max_drop_pct)
                    ≤ whole.parsed_rows * 100))))
published_is_complete_example = published_is_complete whole integrity_defaults refl whole_passes

abbrev no_number : String → Option ℕ
no_number s = none

abbrev shouted : List (String × String)
shouted = ("integrity.mode", "WARN") ∷ []
