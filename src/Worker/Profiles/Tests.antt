-- ===== src/Worker/Profiles/Tests.antt =====
-- Profiles at concrete inputs.
use catworld.Common.{◌≡◌, ◌↔◌, refl, true, none, some, [], ◌∷◌}
use catworld.Worker.Profiles.{
  types_of, covers, Profile, Restartable, uncovered_job_types, uncovered_lanes, job_weights_by_type,
  coverage_warnings, no_profile, no_lane, to_text,
}
use catworld.Worker.Profiles.Coverage.{all_covered, coverage_warnings-nil_iff}

abbrev light : Profile
light = record {
  enabled = true;
  job_types = "PREVIEW_UPLOAD" ∷ "IMPORT_UPLOAD" ∷ "SOURCE_REFRESH" ∷ "METADATA_CLEANUP" ∷ [];
  weights = some (0 ∷ 1 ∷ []);
}

abbrev heavy : Profile
heavy = record {
  enabled = true;
  job_types = "DERIVED_REFRESH" ∷ "IMPORT_UPLOAD" ∷ "PREVIEW_UPLOAD" ∷ [];
  weights = some (2 ∷ []);
}

two_digits : to_text 20 ≡ "20"
unfolding to_text
two_digits = refl

-- Moving storage has no profile, and heavy refreshes have no lane.
warned :
    coverage_warnings (light ∷ heavy ∷ [])
    ≡ no_profile ("MIGRATE_STORAGE_PROJECT" ∷ "MIGRATE_STORAGE_DATASET" ∷ [])
      ∷ no_lane "SOURCE_REFRESH" 2
      ∷ []
unfolding coverage_warnings uncovered_lanes uncovered_job_types types_of covers
warned = refl

coverage_warnings-nil_iff_example :
    (coverage_warnings (light ∷ heavy ∷ []) ≡ [])
    ↔ (all_covered (light ∷ heavy ∷ []) job_weights_by_type ≡ true)
coverage_warnings-nil_iff_example = coverage_warnings-nil_iff (light ∷ heavy ∷ [])

abbrev before : Restartable
before = record { job_types = "A" ∷ "B" ∷ []; concurrency = 2; weights = none }

abbrev after : Restartable
after = record { job_types = "B" ∷ "A" ∷ []; concurrency = 2; weights = some [] }
