-- ===== src/Worker/Presets/Differences.antt =====
-- When a preset counts as the current one, and when applying it changes nothing.
use catworld.Common.{
  ℕ, ◌≡◌, ◌↔◌, inl, inr, true, some, [], ◌∷◌, ◌++◌, arith, lookup, refl, every, Option-cases,
}
use catworld.Worker.Profiles.Coverage.{append-nil_iff}
use catworld.Worker.Presets.{
  Capacity, PresetId, economico, equilibrado, alto, preset_of, Lane, lane_fast, lane_long,
  lane_light, lane_heavy, lanes, lane_names, slots_of, lanes_row, slots_row, slots_rows, number_row,
  diff_capacity, same_number, same_capacity,
}

-- A lane gives no row exactly when its slots are those that the target gives it.
slots_row-nil_iff :
    (current target : Capacity) (lane : Lane) (n : ℕ)
    → lookup lane.name target.slots ≡ some n
    → (slots_row current target lane ≡ [])
      ↔ (same_number (some n) (lookup lane.name current.slots) ≡ true)
unfolding slots_row
slots_row-nil_iff current target lane n e = elim (Option-cases (lookup lane.name current.slots)) [
  | inl h ↦ simp h (ground arith)
  | inr (m, h) ↦ simp h (ground arith)
]

module _ (current : Capacity) (fast long light heavy max_heavy max_syncs delay : ℕ) where
  abbrev target : Capacity
  target = record {
    slots = slots_of fast long light heavy;
    lanes_on = true;
    max_heavy_jobs = max_heavy;
    max_syncs_per_storage = max_syncs;
    import_batch_delay_ms = delay;
  }

  slots_rows-nil_iff : (slots_rows current target lanes ≡ []) ↔ (
      every (λ n. same_number (lookup n target.slots) (lookup n current.slots)) lane_names ≡ true)
  unfolding slots_rows lookup
  slots_rows-nil_iff = ground (
    arith,
    slots_row-nil_iff current target lane_fast fast refl,
    slots_row-nil_iff current target lane_long long refl,
    slots_row-nil_iff current target lane_light light refl,
    slots_row-nil_iff current target lane_heavy heavy refl,
    append-nil_iff (slots_row current target lane_fast)
        (slots_rows current target (lane_long ∷ lane_light ∷ lane_heavy ∷ [])),
    append-nil_iff (slots_row current target lane_long)
        (slots_rows current target (lane_light ∷ lane_heavy ∷ [])),
    append-nil_iff (slots_row current target lane_light)
        (slots_rows current target (lane_heavy ∷ [])),
    append-nil_iff (slots_row current target lane_heavy) [],
  )

  diff_capacity-nil_iff :
      (diff_capacity current target ≡ []) ↔ (same_capacity target current ≡ true)
  unfolding diff_capacity lanes_row number_row same_capacity
  diff_capacity-nil_iff = ground (
    arith,
    slots_rows-nil_iff,
    append-nil_iff (lanes_row current target) (slots_rows current target lanes ++ _),
    append-nil_iff (slots_rows current target lanes) _,
  )

-- A preset would change nothing exactly when each number of the current capacity is its own and the
-- lanes are on: the rows of the difference are empty just when the comparison that detects the preset
-- holds.
pub preset_changes_nothing_iff :
    (current : Capacity) (id : PresetId)
    → (diff_capacity current (preset_of id).capacity ≡ [])
      ↔ (same_capacity (preset_of id).capacity current ≡ true)
preset_changes_nothing_iff current economico = diff_capacity-nil_iff current 1 1 1 1 2 1 500
preset_changes_nothing_iff current equilibrado = diff_capacity-nil_iff current 3 1 2 1 2 2 150
preset_changes_nothing_iff current alto = diff_capacity-nil_iff current 5 2 3 2 4 4 0
