-- ===== src/Integrity/Verdicts.antt =====
-- When a load is published, published with a mark, or refused.
use catworld.Common.{
  ℕ, ◌-◌, ◌*◌, ◌≤◌, ◌<◌, String, ◌≡◌, ◌≢◌, ◌↔◌, ◌⊎◌, refl, Bool, true, false, ◌&&◌, ◌||◌, not,
  Option, none, some, List, [], ◌∷◌, ◌++◌, arith, ltb, any, lookup, eq_iff,
}
use catworld.Settings.Range.{pick_int_range}
use catworld.Integrity.{
  failed, LoadFacts, enforce, warn, IntegritySettings, evaluate_load, is_emptied, is_dropped,
  count_reasons, doubt_reasons, staging_reasons, previous_reasons, get_integrity_settings, differs,
  reason_if, verdict_of, Reason, mode_of, flag_of,
}

-- The four facts that bar a load: rows are missing, the staging table is not what was read, a full
-- replacement is empty (and that is not usual for it), or a scheduled one shrinks too much.
abbrev pub is_barred : LoadFacts → IntegritySettings → Bool
is_barred f cfg =
    (not f.delta_only && (ltb 0 f.expected_rows && ltb f.parsed_rows f.expected_rows))
    || ((differs f.staged_rows f.parsed_rows && not f.was_retry_reusing_staging)
        || ((is_emptied f cfg && not f.soft_empty)
            || (not (is_emptied f cfg) && (is_dropped f cfg && f.scheduled))))

any-append :
    (xs ys : List Reason)
    → any (λ r. r.blocking) (xs ++ ys) ≡ (any (λ r. r.blocking) xs || any (λ r. r.blocking) ys)
any-append [] ys = refl
any-append (x ∷ xs) ys = ground (arith, any-append xs ys)

any-reason_if : (b c : Bool) (code : _) → any (λ r. r.blocking) (reason_if b code c) ≡ (b && c)
any-reason_if true true code = refl
any-reason_if true false code = refl
any-reason_if false c code = refl

module _ (f : LoadFacts) (cfg : IntegritySettings) where
  abbrev reasons : List Reason
  reasons = count_reasons f ++ (doubt_reasons f ++ (staging_reasons f ++ previous_reasons f cfg))

  count_blocks :
      any (λ r. r.blocking) (count_reasons f)
      ≡ (not f.delta_only && (ltb 0 f.expected_rows && ltb f.parsed_rows f.expected_rows))
  unfolding count_reasons
  count_blocks = ground arith

  doubt_blocks : any (λ r. r.blocking) (doubt_reasons f) ≡ false
  unfolding doubt_reasons
  doubt_blocks = ground arith

  staging_blocks :
      any (λ r. r.blocking) (staging_reasons f)
      ≡ (differs f.staged_rows f.parsed_rows && not f.was_retry_reusing_staging)
  unfolding staging_reasons
  staging_blocks = ground arith

  previous_blocks : any (λ r. r.blocking) (previous_reasons f cfg) ≡ (
      (is_emptied f cfg && not f.soft_empty)
      || (not (is_emptied f cfg) && (is_dropped f cfg && f.scheduled)))
  unfolding previous_reasons
  previous_blocks = ground arith

  reasons-block : any (λ r. r.blocking) reasons ≡ is_barred f cfg
  reasons-block = ground (
    arith,
    any-append (count_reasons f) (doubt_reasons f ++ (staging_reasons f ++ previous_reasons f cfg)),
    any-append (doubt_reasons f) (staging_reasons f ++ previous_reasons f cfg),
    any-append (staging_reasons f) (previous_reasons f cfg),
    count_blocks,
    doubt_blocks,
    staging_blocks,
    previous_blocks,
  )

  -- A load is refused exactly if the policy is enforced and rows are missing, the staging table is not
  -- what was read, a full replacement is empty against the rule, or a scheduled one drops too much.
  pub evaluate_load-failed_iff :
      ((evaluate_load f cfg).verdict ≡ failed) ↔ ((cfg.mode ≡ enforce) × (is_barred f cfg ≡ true))
  unfolding evaluate_load
  evaluate_load-failed_iff = verdict_failed reasons reasons-block
    where
      verdict_failed :
          (rs : List Reason)
          → any (λ r. r.blocking) rs ≡ is_barred f cfg
          → (verdict_of cfg.mode rs ≡ failed) ↔ ((cfg.mode ≡ enforce) × (is_barred f cfg ≡ true))
      verdict_failed [] e = (λ h. ground arith, λ h. ground arith)
      verdict_failed (r ∷ rs) e = (λ h. ground arith, λ h. ground arith)

-- What is published under an enforced policy: where the source's count is known, a load that is not
-- a difference has at least as many rows; the staging table holds what was read, if its rows were
-- counted and not reused; and a scheduled full load of a table with 50 rows or more keeps all but the
-- allowed percentage of them, unless empty results are allowed.
pub published_is_complete :
    (f : LoadFacts) (cfg : IntegritySettings)
    → cfg.mode ≡ enforce
    → (evaluate_load f cfg).verdict ≢ failed
    → ((f.delta_only ≡ true) ⊎ (f.expected_rows ≤ f.parsed_rows))
      × ((f.was_retry_reusing_staging ≡ true)
          ⊎ ((f.staged_rows ≡ none) ⊎ (f.staged_rows ≡ some f.parsed_rows)))
      × ((((f.full_state && not f.delta_only) && f.scheduled) ≡ false)
          ⊎ ((f.prev_rows < 50)
              ⊎ (((cfg.allow_empty || f.soft_empty) ≡ true)
                  ⊎ (f.prev_rows * (100 - cfg.max_drop_pct) ≤ f.parsed_rows * 100))))
published_is_complete f cfg e h = (counted f cfg spared, staged f cfg spared, kept f cfg spared)
  where
    spared : is_barred f cfg ≡ false
    spared = ground (arith, h, evaluate_load-failed_iff f cfg, e)

    counted :
        (f : LoadFacts) (cfg : IntegritySettings)
        → is_barred f cfg ≡ false
        → (f.delta_only ≡ true) ⊎ (f.expected_rows ≤ f.parsed_rows)
    counted f cfg s = ground arith

    staged :
        (f : LoadFacts) (cfg : IntegritySettings)
        → is_barred f cfg ≡ false
        → (f.was_retry_reusing_staging ≡ true)
          ⊎ ((f.staged_rows ≡ none) ⊎ (f.staged_rows ≡ some f.parsed_rows))
    staged f cfg s = ground arith

    kept :
        (f : LoadFacts) (cfg : IntegritySettings)
        → is_barred f cfg ≡ false
        → (((f.full_state && not f.delta_only) && f.scheduled) ≡ false)
          ⊎ ((f.prev_rows < 50)
              ⊎ (((cfg.allow_empty || f.soft_empty) ≡ true)
                  ⊎ (f.prev_rows * (100 - cfg.max_drop_pct) ≤ f.parsed_rows * 100)))
    kept f cfg s = ground arith

-- The protection is never turned off by accident: whatever the database holds, or if it fails, the
-- largest drop lies between 1 and 99 percent, the mode is `warn` only if the text is exactly "warn",
-- and empty replacements pass only if the text is exactly "true".
pub get_integrity_settings_safe :
    (number : String → Option ℕ) (rows : List (String × String))
    → let cfg = get_integrity_settings number (some rows) in
      ((1 ≤ cfg.max_drop_pct) × (cfg.max_drop_pct ≤ 99))
      × ((cfg.mode ≡ warn) ↔ (lookup "integrity.mode" rows ≡ some "warn"))
      × ((cfg.allow_empty ≡ true) ↔ (lookup "integrity.allow_empty" rows ≡ some "true"))
      × ((get_integrity_settings number none).mode ≡ enforce)
unfolding get_integrity_settings
get_integrity_settings_safe number rows = (
  pick_int_range number (lookup "integrity.max_drop_pct" rows) 30 1 99 (omega arith) (omega arith),
  mode_iff (lookup "integrity.mode" rows),
  flag_iff (lookup "integrity.allow_empty" rows),
  refl,
)
  where
    mode_iff : (o : Option String) → (mode_of o ≡ warn) ↔ (o ≡ some "warn")
    mode_iff none = (λ h. ground arith, λ h. ground arith)
    mode_iff (some s) = ground (arith, eq_iff s "warn")

    flag_iff : (o : Option String) → (flag_of o ≡ true) ↔ (o ≡ some "true")
    flag_iff none = (λ h. ground arith, λ h. ground arith)
    flag_iff (some s) = ground (arith, eq_iff s "true")
