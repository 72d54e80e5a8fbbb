-- ===== src/Refresh/Plan.antt =====
-- server/connections/sources.ts, the body of `refreshDatasetSource` inside its lease: what a round
-- reads, what it does to the table, and what it leaves in the row of the source. The columns that
-- `resolveColumn` finds, the canonical form of a mark (`normalise`), its order (`above`) and the cap from
-- the origin's clock are parameters. The texts of errors and notes are left out.
use catworld.Common.{
  ℕ, min, max, String, Bool, true, false, ◌&&◌, ◌||◌, not, Option, none, some, if◌then◌else◌,
  str_eq, is_some, is_none, get_or,
}
use catworld.Jobs.Finish.{given}
use catworld.Source.{DeltaKind, over_cap, WatermarkTracker}
use catworld.Integrity.{Verdict, ok, suspect, failed, LoadFacts, IntegritySettings, evaluate_load}

pub record Column : Type 0 where
  pub sql_name : String
  pub kind : DeltaKind
  pub legacy_round : Bool

pub record RefreshSource : Type 0 where
  pub source_kind : String
  pub key_column : Option String
  pub delta_column : Option String
  pub last_delta_value : Option String
  pub source_sql_reconciliation : Option String
  pub detect_deletions : Bool
  pub keys_min_interval_minutes : Option ℕ
  pub last_keys_check_at : Option ℕ

-- What the round finds: the columns of the origin, whether the target table exists, and whether the
-- columns differ from the catalogue.
pub record Findings : Type 0 where
  pub resolve : String → Option Column
  pub has_target : Bool
  pub changed : Bool
  pub cap : Option String

pub data RoundError : Type 0 where
  key_column_unknown key_column_type_unsafe delta_column_unknown : RoundError
  source_schema_changed integrity_failed : RoundError

pub data Result {ℓ} (A : Type ℓ) : Type ℓ where
  done : A → Result A
  throws : RoundError → Result A

abbrev pub is_table : RefreshSource → Bool
is_table s = str_eq s.source_kind "table"

abbrev pub is_query : RefreshSource → Bool
is_query s = str_eq s.source_kind "query"

abbrev pub schema_change : Findings → Bool
schema_change f = f.has_target && f.changed

abbrev pub checked_key : Option Column → Result (Option Column)
checked_key none = throws key_column_unknown
checked_key (some c) = if c.legacy_round then throws key_column_type_unsafe else done (some c)

abbrev pub key_of : (String → Option Column) → Option String → Result (Option Column)
key_of resolve none = done none
key_of resolve (some name) = checked_key (resolve name)

abbrev pub checked_delta : Option Column → Result (Option Column)
checked_delta none = throws delta_column_unknown
checked_delta (some c) = done (some c)

abbrev pub delta_of : Bool → (String → Option Column) → Option String → Result (Option Column)
delta_of table resolve none = done none
delta_of false resolve (some name) = done none
delta_of true resolve (some name) = checked_delta (resolve name)

-- `wm` and `poisoned`.
pub record Mark : Type 0 where
  pub value : Option String
  pub poisoned : Bool

pub record Plan : Type 0 where
  pub key : Option Column
  pub delta : Option Column
  pub mark : Mark
  pub use_delta : Bool
  pub use_key_merge : Bool
  pub full_snapshot : Bool

abbrev pub track_delta : Option Column → Option Column → Bool
track_delta key delta = is_some delta && is_some key

-- A load that replaces the whole state of the table.
abbrev pub full_state : Plan → Bool
full_state p = p.full_snapshot || not p.use_key_merge

module _ (normalise : String → DeltaKind → Option String)
    (above : DeltaKind → String → String → Bool) where
  abbrev pub read_mark : DeltaKind → Option String → Option String → Mark
  read_mark kind cap none = record { value = none; poisoned = true }
  read_mark kind cap (some wm) = record { value = some wm; poisoned = over_cap above kind cap wm }

  -- The recorded mark, where the round tracks one.
  abbrev pub mark_of : Bool → Option Column → Option String → Option String → Mark
  mark_of false delta cap last = record { value = none; poisoned = false }
  mark_of true none cap last = record { value = none; poisoned = false }
  mark_of true (some d) cap none = record { value = none; poisoned = false }
  mark_of true (some d) cap (some v) = read_mark d.kind cap (normalise v d.kind)

  -- With the columns resolved.
  abbrev pub plan_of : RefreshSource → Bool → Findings → Option Column → Option Column → Plan
  plan_of s reconciliation f key delta =
      let track = track_delta key delta in
      let mark = mark_of (track && not reconciliation) delta f.cap (given s.last_delta_value) in
      let use_delta =
        track
        && not reconciliation
        && is_some mark.value
        && not mark.poisoned
        && not (schema_change f) in
      record {
        key = key;
        delta = delta;
        mark = mark;
        use_delta = use_delta;
        use_key_merge = is_some key && f.has_target && not (schema_change f);
        full_snapshot = reconciliation || (is_table s && not use_delta);
      }

  abbrev pub plan_with :
      RefreshSource → Bool → Findings → Option Column → Option Column → Result Plan
  plan_with s reconciliation f key delta =
      if schema_change f && is_query s && not reconciliation
      then throws source_schema_changed
      else done (plan_of s reconciliation f key delta)

  abbrev pub plan_keyed :
      RefreshSource → Bool → Findings → Option Column → Result (Option Column) → Result Plan
  plan_keyed s reconciliation f key (throws e) = throws e
  plan_keyed s reconciliation f key (done delta) = plan_with s reconciliation f key delta

  abbrev pub plan_found : RefreshSource → Bool → Findings → Result (Option Column) → Result Plan
  plan_found s reconciliation f (throws e) = throws e
  plan_found s reconciliation f (done key) =
      plan_keyed s reconciliation f key (delta_of (is_table s) f.resolve (given s.delta_column))

  unfoldable pub plan : RefreshSource → Bool → Findings → Result Plan
  plan s reconciliation f = plan_found s reconciliation f (key_of f.resolve (given s.key_column))

module _ (above : DeltaKind → String → String → Bool) where
  -- The new mark: none where the recorded one stays, and `some none` where it is cleared. `below` is
  -- `compareWatermark(max, wm) < 0`.
  abbrev pub keep_or_raise : Bool → DeltaKind → Option String → String → Option (Option String)
  keep_or_raise use_delta kind none m = some (some m)
  keep_or_raise use_delta kind (some wm) m =
      if use_delta && above kind wm m then none else some (some m)

  -- From the test of a tracked mark, the delta column and the largest value that was read.
  abbrev pub next_mark_of : Plan → Bool → Option Column → Option String → Option (Option String)
  next_mark_of p false delta max_read = none
  next_mark_of p true delta none = if p.mark.poisoned then some none else none
  next_mark_of p true none (some m) = none
  next_mark_of p true (some d) (some m) = keep_or_raise p.use_delta d.kind p.mark.value m

  unfoldable pub next_mark : Plan → WatermarkTracker → Option (Option String)
  next_mark p t = next_mark_of p (track_delta p.key p.delta) p.delta t.max_read

-- source-options.ts: the options of a source, and the mark of a run; the fraction that a run may drop is
-- rounded up already.
pub record SourceOptions : Type 0 where
  pub allow_empty : Bool
  pub max_drop_pct : Option ℕ

pub record RunMarker : Type 0 where
  pub manual : Bool
  pub accept_drop : Bool
  pub allow_drop_pct : Option ℕ

pub record EffectiveIntegrity : Type 0 where
  pub settings : IntegritySettings
  pub scheduled : Bool
  pub soft_empty : Bool

abbrev pub allowed_drop : Option ℕ → ℕ → ℕ
allowed_drop none own = own
allowed_drop (some pct) own = max own (min 99 pct)

unfoldable pub effective_integrity :
    IntegritySettings → SourceOptions → RunMarker → Bool → EffectiveIntegrity
effective_integrity base opts marker keyless_windowed_query =
    let allowed = allowed_drop marker.allow_drop_pct (get_or opts.max_drop_pct base.max_drop_pct) in
    record {
      settings = record base {
        max_drop_pct = if marker.accept_drop then 99 else allowed;
        allow_empty = base.allow_empty || opts.allow_empty || marker.accept_drop;
      };
      scheduled = not marker.manual && not keyless_windowed_query;
      soft_empty = keyless_windowed_query;
    }

abbrev pub load_facts : EffectiveIntegrity → ℕ → ℕ → LoadFacts
load_facts eff row_count prev_rows = record {
  full_state = true;
  delta_only = false;
  expected_rows = 0;
  parsed_rows = row_count;
  staged_rows = none;
  prev_rows = prev_rows;
  was_retry_reusing_staging = false;
  scheduled = eff.scheduled;
  soft_empty = eff.soft_empty;
  expected_unverified = false;
  client_count_disagrees = false;
}

abbrev pub verdict_throws : Verdict → Bool
verdict_throws ok = false
verdict_throws suspect = false
verdict_throws failed = true

abbrev pub policy_of :
    IntegritySettings → SourceOptions → RunMarker → RefreshSource → Bool → Plan → EffectiveIntegrity
policy_of base opts marker s reconciliation p =
    effective_integrity base opts marker (is_query s && is_none p.key && not reconciliation)

-- The guard before the swap: true where the round goes on.
unfoldable pub may_swap :
    IntegritySettings
    → SourceOptions
    → RunMarker
    → RefreshSource
    → Bool
    → Findings
    → Plan
    → ℕ
    → ℕ
    → Bool
may_swap base opts marker s reconciliation f p row_count prev_rows =
    let eff = policy_of base opts marker s reconciliation p in
    if full_state p && f.has_target
    then not
        (verdict_throws (evaluate_load (load_facts eff row_count prev_rows) eff.settings).verdict)
    else true
