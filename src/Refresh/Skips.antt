-- ===== src/Refresh/Skips.antt =====
-- The rounds in a row that skip the check of keys.
use catworld.Common.{
  ℕ, suc, ◌+◌, ◌≤◌, ◌<◌, ◌≡◌, true, ◌||◌, List, [], ◌∷◌, ◌↔◌, arith, if◌then◌else◌, All,
}
use catworld.Jobs.{count}
use catworld.Refresh.Keys.{keys_skips, escalated, Checked, skips_after, is_skipped, is_passed}

skips_step :
    (c : Checked) (previous : ℕ)
    → (is_skipped c || is_passed c) ≡ true
    → keys_skips c.source c.plan c.now c.read previous
      ≡ (if is_skipped c then suc previous else previous)
unfolding keys_skips
skips_step c previous h = ground arith

skips_counted :
    (cs : List Checked) (previous : ℕ)
    → All (λ c. (is_skipped c || is_passed c) ≡ true) cs
    → skips_after cs previous ≡ previous + count is_skipped cs
unfolding skips_after
skips_counted [] previous h = omega arith
skips_counted (c ∷ cs) previous h =
    let step = skips_step c previous h.0 in
    let rest = skips_counted cs (keys_skips c.source c.plan c.now c.read previous) h.1 in
    ground (arith, step, rest)

-- Of rounds each of which either skips a check of keys that is due, or has none due while the detection
-- of deletions is on and it reads no full snapshot, exactly the skipped ones are counted; and the source
-- is escalated exactly when there are as many of them as the setting says, or more, if it is not 0.
pub skips_after-escalated_iff :
    (cs : List Checked) (escalate_after : ℕ)
    → All (λ c. (is_skipped c || is_passed c) ≡ true) cs
    → (skips_after cs 0 ≡ count is_skipped cs)
      × ((escalated escalate_after (skips_after cs 0) ≡ true)
          ↔ ((0 < escalate_after) × (escalate_after ≤ count is_skipped cs)))
unfolding escalated
skips_after-escalated_iff cs escalate_after h =
    let counted = skips_counted cs 0 h in
    (omega (arith, counted), (λ e. ground (arith, counted), λ e. ground (arith, counted)))
