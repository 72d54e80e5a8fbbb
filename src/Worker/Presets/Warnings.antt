-- ===== src/Worker/Presets/Warnings.antt =====
-- The warnings of applying a preset.
use catworld.Common.{
  ℕ, String, ◌≡◌, refl, ap, ◌∙◌, inl, inr, true, Option, some, List, [], ◌∷◌, ◌++◌, arith, every,
  str_eq, Bool-cases, lookup,
}
use catworld.Worker.Profiles.{
  Profile, job_weights_by_type, accepts_weight, covers, coverage_warnings,
}
use catworld.Worker.Profiles.Coverage.{all_covered, coverage_warnings-nil_iff}
use catworld.Worker.Presets.{
  Preset, PresetId, economico, equilibrado, alto, preset_of, get_preset, heavy_caution,
  storage_caution, memory_caution, validate_capacity,
}
use catworld.Worker.Presets.Applying.{
  Row, Op, ApplyResult, others, final_lanes, apply_known, apply_found, apply_preset,
}

covers-append :
    (xs ys : List Profile) (t : String) (w : ℕ)
    → covers ys t w ≡ true
    → covers (xs ++ ys) t w ≡ true
unfolding covers accepts_weight
covers-append [] ys t w h = h
covers-append (x ∷ xs) ys t w h = ground (arith, covers-append xs ys t w h)

every-covers-append :
    (xs ys : List Profile) (t : String) (ws : List ℕ)
    → every (covers ys t) ws ≡ true
    → every (covers (xs ++ ys) t) ws ≡ true
every-covers-append xs ys t [] h = refl
every-covers-append xs ys t (w ∷ ws) h =
    ground (arith, covers-append xs ys t w, every-covers-append xs ys t ws)

all_covered-append :
    (xs ys : List Profile) (table : List (String × List ℕ))
    → all_covered ys table ≡ true
    → all_covered (xs ++ ys) table ≡ true
all_covered-append xs ys [] h = refl
all_covered-append xs ys ((t, ws) ∷ table) h =
    ground (arith, every-covers-append xs ys t ws, all_covered-append xs ys table)

lanes_cover : all_covered final_lanes job_weights_by_type ≡ true
unfolding covers accepts_weight
lanes_cover = refl

nothing_uncovered : (profiles : List Row) → coverage_warnings (others profiles ++ final_lanes) ≡ []
nothing_uncovered profiles =
    (coverage_warnings-nil_iff (others profiles ++ final_lanes)).1
      (all_covered-append (others profiles) final_lanes job_weights_by_type lanes_cover)

no_cautions : (id : PresetId) → (validate_capacity (preset_of id).capacity 0).warnings ≡ []
unfolding validate_capacity heavy_caution storage_caution memory_caution lookup
no_cautions economico = refl
no_cautions equilibrado = refl
no_cautions alto = refl

-- Only the three names give a preset.
get_preset_known :
    (id : String) (p : Preset) → get_preset id ≡ some p → (i : PresetId) × (p ≡ preset_of i)
unfolding get_preset
get_preset_known id p h = elim (Bool-cases (str_eq id "economico")) [
  | inl e ↦ (economico, ground arith)
  | inr e ↦ elim (Bool-cases (str_eq id "equilibrado")) [
    | inl e' ↦ (equilibrado, ground arith)
    | inr e' ↦ (alto, ground arith)
  ]
]

known_quiet :
    (number : String → Option ℕ) (id : PresetId) (profiles : List Row)
    (settings : List (String × String))
    → let r = (apply_known number (preset_of id) profiles settings).1 in
      (r.cautions ≡ []) × (r.uncovered ≡ [])
known_quiet number id profiles settings = (no_cautions id, nothing_uncovered profiles)

-- A name that is a preset's can be applied to any profiles and settings, and it gives no warning: its
-- ceilings let its lanes run side by side, and afterwards every pair of a job type and a weight has an
-- enabled profile, whatever the profiles were.
pub apply_preset_quiet :
    (number : String → Option ℕ) (id : String) (preset : Preset) (profiles : List Row)
    (settings : List (String × String))
    → get_preset id ≡ some preset
    → (ops : List Op) × (r : ApplyResult) × (apply_preset number id profiles settings
        ≡ some (ops, r))
      × (r.cautions ≡ [])
      × (r.uncovered ≡ [])
unfolding apply_preset
apply_preset_quiet number id preset profiles settings h =
    let (i, e) = get_preset_known id preset h in
    let result = apply_known number (preset_of i) profiles settings in
    let (cautions, uncovered) = known_quiet number i profiles settings in
    let known : get_preset id ≡ some (preset_of i) = h ∙ ap some e in
    (result.0, result.1, ap (apply_found number profiles settings) known, cautions, uncovered)
