-- ===== src/Worker/Profiles/Coverage.antt =====
-- What the warnings about uncovered lanes mean.
use catworld.Common.{
  ℕ, String, ◌≡◌, ◌↔◌, refl, Bool, true, ◌&&◌, ◌||◌, List, [], ◌∷◌, ◌++◌, arith, any, every,
  includes,
}
use catworld.Worker.Profiles.{
  Profile, job_weights_by_type, types_of, enabled_only, uncovered_job_types, accepts_weight, covers,
  uncovered_weights, uncovered_from, uncovered_lanes, lane_warnings, type_warnings,
  coverage_warnings,
}

includes-append :
    (t : String) (xs ys : List String) → includes t (xs ++ ys) ≡ (includes t xs || includes t ys)
includes-append t [] ys = refl
includes-append t (x ∷ xs) ys = ground (arith, includes-append t xs ys)

-- A lane that is covered has a type that some enabled profile lists.
includes_of_covers :
    (ps : List Profile) (t : String) (w : ℕ)
    → any (λ p. includes t p.job_types && accepts_weight p.weights w) ps ≡ true
    → includes t (types_of ps) ≡ true
unfolding types_of
includes_of_covers [] t w h = cc
includes_of_covers (p ∷ ps) t w h =
    ground (arith, includes-append t p.job_types (types_of ps), includes_of_covers ps t w)

uncovered_weights-nil_iff :
    (ps : List Profile) (t : String) (ws : List ℕ)
    → (uncovered_weights ps t ws ≡ []) ↔ (every (covers ps t) ws ≡ true)
unfolding uncovered_weights
uncovered_weights-nil_iff ps t [] = (λ _. refl, λ _. refl)
uncovered_weights-nil_iff ps t (w ∷ ws) = ground (arith, uncovered_weights-nil_iff ps t ws)

abbrev pub all_covered : List Profile → List (String × List ℕ) → Bool
all_covered ps = every (λ e. every (covers ps e.0) e.1)

pub append-nil_iff {ℓ} : {A : Type ℓ} (xs ys : List A) → ((xs ++ ys) ≡ []) ↔ ((xs ≡ []) × (ys ≡ []))
append-nil_iff [] ys = (λ e. (refl, e), λ h. h.1)
append-nil_iff (x ∷ xs) ys = (λ e. cc, λ h. cc h.0)

uncovered_from-nil_iff :
    (ps : List Profile) (table : List (String × List ℕ))
    → (uncovered_from ps table ≡ []) ↔ (all_covered ps table ≡ true)
unfolding uncovered_from
uncovered_from-nil_iff ps [] = (λ _. refl, λ _. refl)
uncovered_from-nil_iff ps ((t, ws) ∷ rest) = ground (
  arith,
  append-nil_iff (uncovered_weights ps t ws) (uncovered_from ps rest),
  uncovered_weights-nil_iff ps t ws,
  uncovered_from-nil_iff ps rest,
)

type_listed :
    (ps : List Profile) (t : String) (w : ℕ)
    → covers ps t w ≡ true
    → includes t (types_of (enabled_only ps)) ≡ true
unfolding covers
type_listed ps t w h = includes_of_covers (enabled_only ps) t w h

type_warnings-nil : (u : List String) → type_warnings u ≡ [] → u ≡ []
type_warnings-nil [] e = refl
type_warnings-nil (t ∷ ts) e = cc

lane_warnings-nil : (l : List (String × ℕ)) → lane_warnings [] l ≡ [] → l ≡ []
unfolding lane_warnings
lane_warnings-nil [] e = refl
lane_warnings-nil ((t, w) ∷ l) e = cc

lanes-nil : (u : List String) (l : List (String × ℕ)) → u ≡ [] → lane_warnings u l ≡ [] → l ≡ []
lanes-nil u l h e = lane_warnings-nil l (rw h at e)

-- Each type of the table has a weight, so with every lane covered every type is listed.
uncovered_job_types-nil :
    (ps : List Profile) → all_covered ps job_weights_by_type ≡ true → uncovered_job_types ps ≡ []
unfolding uncovered_job_types
uncovered_job_types-nil ps h = ground (
  arith,
  type_listed ps "PREVIEW_UPLOAD" 0,
  type_listed ps "IMPORT_UPLOAD" 1,
  type_listed ps "SOURCE_REFRESH" 0,
  type_listed ps "DERIVED_REFRESH" 2,
  type_listed ps "METADATA_CLEANUP" 0,
  type_listed ps "MIGRATE_STORAGE_PROJECT" 2,
  type_listed ps "MIGRATE_STORAGE_DATASET" 2,
)

-- Nothing is warned of exactly when every pair of a job type and one of its weights is taken by an
-- enabled profile that lists the type and accepts the weight.
pub coverage_warnings-nil_iff :
    (ps : List Profile) → (coverage_warnings ps ≡ []) ↔ (all_covered ps job_weights_by_type ≡ true)
unfolding coverage_warnings uncovered_lanes lane_warnings
coverage_warnings-nil_iff ps = (
  λ e.
      let (no_types, no_lanes) = (append-nil_iff (type_warnings (uncovered_job_types ps)) _).0 e in
      let types = type_warnings-nil (uncovered_job_types ps) no_types in
      (uncovered_from-nil_iff ps job_weights_by_type).0
        (lanes-nil (uncovered_job_types ps) _ types no_lanes),
  λ h. rw (uncovered_job_types-nil ps h, (uncovered_from-nil_iff ps job_weights_by_type).1 h) refl,
)
