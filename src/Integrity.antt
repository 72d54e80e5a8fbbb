-- ===== src/Integrity.antt =====
-- server/integrity/policy.ts: the verdict on a load. A field that may be left out is false, or 0, or
-- `none`, as the code reads it. Messages are left out. The drop is compared in whole numbers, where
-- the source multiplies floating-point numbers.
pub mod Verdicts
pub mod Tests
use catworld.Common.{
  ℕ, ◌-◌, ◌*◌, String, Bool, true, false, ◌&&◌, ◌||◌, not, Option, none, some, List, [], ◌∷◌, ◌++◌,
  if◌then◌else◌, leb, ltb, ◌==◌, any, keep, get_or, lookup, str_eq,
}
use catworld.Settings.{pick_int}

pub data Verdict : Type 0 where
  ok suspect failed : Verdict

pub data ReasonCode : Type 0 where
  rows_below_expected rows_above_expected empty_replace drop_gt_pct staged_mismatch : ReasonCode
  retry_without_expected expected_unverified client_count_mismatch : ReasonCode

pub record Reason : Type 0 where
  pub code : ReasonCode
  pub blocking : Bool

pub record LoadFacts : Type 0 where
  pub full_state : Bool
  pub delta_only : Bool
  pub expected_rows : ℕ
  pub parsed_rows : ℕ
  pub staged_rows : Option ℕ
  pub prev_rows : ℕ
  pub was_retry_reusing_staging : Bool
  pub scheduled : Bool
  pub soft_empty : Bool
  pub expected_unverified : Bool
  pub client_count_disagrees : Bool

pub data Mode : Type 0 where
  enforce warn : Mode

pub record IntegritySettings : Type 0 where
  pub mode : Mode
  pub max_drop_pct : ℕ
  pub allow_empty : Bool

abbrev pub integrity_defaults : IntegritySettings
integrity_defaults = record { mode = enforce; max_drop_pct = 30; allow_empty = false }

pub record Evaluation : Type 0 where
  pub verdict : Verdict
  pub reasons : List Reason

abbrev pub min_rows_for_drop_check : ℕ
min_rows_for_drop_check = 50

abbrev reason_if : Bool → ReasonCode → Bool → List Reason
reason_if true code blocking = record { code = code; blocking = blocking } ∷ []
reason_if false code blocking = []

-- The count of the load against the count of its source.
count_reasons : LoadFacts → List Reason
count_reasons f =
    reason_if (not f.delta_only && ltb 0 f.expected_rows && ltb f.parsed_rows f.expected_rows)
      rows_below_expected true
    ++ reason_if (not f.delta_only && ltb 0 f.expected_rows && ltb f.expected_rows f.parsed_rows)
        rows_above_expected false

-- What is not known for certain.
doubt_reasons : LoadFacts → List Reason
doubt_reasons f =
    reason_if (f.expected_unverified && not f.delta_only) expected_unverified false
    ++ (reason_if (f.client_count_disagrees && not f.delta_only) client_count_mismatch false
        ++ reason_if (f.was_retry_reusing_staging && f.expected_rows == 0 && not f.delta_only)
            retry_without_expected false)

abbrev differs : Option ℕ → ℕ → Bool
differs none n = false
differs (some m) n = not (m == n)

staging_reasons : LoadFacts → List Reason
staging_reasons f =
    reason_if (differs f.staged_rows f.parsed_rows && not f.was_retry_reusing_staging)
      staged_mismatch true

abbrev pub is_emptied : LoadFacts → IntegritySettings → Bool
is_emptied f cfg =
    f.full_state
    && not f.delta_only
    && f.parsed_rows == 0
    && ltb 0 f.prev_rows
    && not cfg.allow_empty

-- `parsedRows < prev * (1 - maxDropPct / 100)`, times 100.
abbrev pub is_dropped : LoadFacts → IntegritySettings → Bool
is_dropped f cfg =
    f.full_state
    && not f.delta_only
    && leb min_rows_for_drop_check f.prev_rows
    && ltb (f.parsed_rows * 100) (f.prev_rows * (100 - cfg.max_drop_pct))
    && ltb 0 f.parsed_rows

previous_reasons : LoadFacts → IntegritySettings → List Reason
previous_reasons f cfg =
    if is_emptied f cfg
    then record { code = empty_replace; blocking = not f.soft_empty } ∷ []
    else reason_if (is_dropped f cfg) drop_gt_pct f.scheduled

abbrev is_enforce : Mode → Bool
is_enforce enforce = true
is_enforce warn = false

abbrev verdict_of : Mode → List Reason → Verdict
verdict_of mode [] = ok
verdict_of mode (r ∷ rs) =
    if any (λ r. r.blocking) (r ∷ rs) && is_enforce mode then failed else suspect

unfoldable pub evaluate_load : LoadFacts → IntegritySettings → Evaluation
unfolding count_reasons doubt_reasons staging_reasons previous_reasons
evaluate_load f cfg =
    let reasons =
      count_reasons f ++ (doubt_reasons f ++ (staging_reasons f ++ previous_reasons f cfg)) in
    record { verdict = verdict_of cfg.mode reasons; reasons = reasons }

abbrev mode_of : Option String → Mode
mode_of none = enforce
mode_of (some s) = if str_eq s "warn" then warn else enforce

abbrev flag_of : Option String → Bool
flag_of none = false
flag_of (some s) = str_eq s "true"

-- `none` where the query fails.
unfoldable pub get_integrity_settings :
    (String → Option ℕ) → Option (List (String × String)) → IntegritySettings
unfolding pick_int
get_integrity_settings number none = integrity_defaults
get_integrity_settings number (some rows) = record {
  mode = mode_of (lookup "integrity.mode" rows);
  max_drop_pct =
      pick_int number (lookup "integrity.max_drop_pct" rows) integrity_defaults.max_drop_pct 1 99;
  allow_empty = flag_of (lookup "integrity.allow_empty" rows);
}
