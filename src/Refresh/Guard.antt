-- ===== src/Refresh/Guard.antt =====
-- The guard before the swap, with the policy of a round.
use catworld.Common.{
  ℕ, ◌-◌, ◌*◌, ◌≤◌, ◌≡◌, ◌≢◌, refl, Bool, true, false, ◌&&◌, ◌||◌, not, none, arith, is_none,
  get_or,
}
use catworld.Integrity.{Verdict, failed, enforce, IntegritySettings, evaluate_load}
use catworld.Integrity.Verdicts.{published_is_complete}
use catworld.Refresh.Plan.{
  RefreshSource, Findings, Plan, SourceOptions, RunMarker, is_query, full_state, allowed_drop,
  effective_integrity, load_facts, verdict_throws, policy_of, may_swap,
}

spared : (v : Verdict) → not (verdict_throws v) ≡ true → v ≢ failed
spared v h e = ground arith

-- Under the enforced policy, a scheduled round without a mark of its own that replaces the whole state
-- of a table of 50 rows or more swaps only if it read all but the allowed share of them: the share of
-- the source, or else of the settings. Empty results are not allowed, and the source is no query with
-- no key outside a reconciliation.
pub may_swap-keeps_share :
    (base : IntegritySettings) (opts : SourceOptions) (marker : RunMarker) (s : RefreshSource)
    (reconciliation : Bool) (f : Findings) (p : Plan) (row_count prev_rows : ℕ)
    → base.mode ≡ enforce
    → (base.allow_empty || opts.allow_empty || marker.accept_drop) ≡ false
    → marker.manual ≡ false
    → marker.allow_drop_pct ≡ none
    → (is_query s && is_none p.key && not reconciliation) ≡ false
    → full_state p ≡ true
    → f.has_target ≡ true
    → 50 ≤ prev_rows
    → may_swap base opts marker s reconciliation f p row_count prev_rows ≡ true
    → prev_rows * (100 - get_or opts.max_drop_pct base.max_drop_pct) ≤ row_count * 100
unfolding may_swap effective_integrity
may_swap-keeps_share base opts marker s reconciliation f p row_count prev_rows mode strict scheduled
      own keyed whole there big h =
    let eff = policy_of base opts marker s reconciliation p in
    let goes_on : not
          (verdict_throws (evaluate_load (load_facts eff row_count prev_rows) eff.settings).verdict)
        ≡ true =
      simp (whole, there) at h in
    let (_, _, kept) =
      published_is_complete (load_facts eff row_count prev_rows) eff.settings mode
        (spared _ goes_on) in
    let own_share : allowed_drop marker.allow_drop_pct (get_or opts.max_drop_pct base.max_drop_pct)
        ≡ get_or opts.max_drop_pct base.max_drop_pct =
      rw own refl in
    ground (arith, kept, own_share)
