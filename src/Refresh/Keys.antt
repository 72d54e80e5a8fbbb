-- ===== src/Refresh/Keys.antt =====
-- The check of keys in a round (sources.ts and storage/delete-detection.ts): when it is due, what it
-- finds, whether the swap marks rows as deleted, and how rounds that skip it are counted. The count
-- lives in the text of the last error in the source; here it is a number beside the kind of warning.
use catworld.Common.{
  ℕ, ◌+◌, ◌*◌, ◌%◌, Bool, true, false, ◌&&◌, ◌||◌, not, Option, none, some, List, [], ◌∷◌,
  if◌then◌else◌, leb, ltb, ◌==◌, is_some, is_none,
}
use catworld.Source.{filled}
use catworld.Refresh.Plan.{RefreshSource, Plan, is_table}

abbrev pub interval_over : Option ℕ → Option ℕ → ℕ → Bool
interval_over none last now = true
interval_over (some minutes) none now = true
interval_over (some minutes) (some last) now = leb (last + minutes * 60000) now

unfoldable pub keys_due : RefreshSource → Plan → ℕ → Bool
keys_due s p now =
    s.detect_deletions
    && is_some p.key
    && p.use_key_merge
    && not p.full_snapshot
    && interval_over s.keys_min_interval_minutes s.last_keys_check_at now

-- `candidates / live > 0.3`, in whole numbers.
unfoldable pub keys_check_exceeds : ℕ → ℕ → Bool
keys_check_exceeds candidates live =
    if candidates == 0
    then false
    else if ltb live 50
    then false
    else ltb (3 * live) (10 * candidates)

-- What the reading of the keys and the count gave.
pub data KeysRead : Type 0 where
  read_failed no_keys count_failed : KeysRead
  counted : ℕ → ℕ → KeysRead

pub data KeysWarning : Type 0 where
  keys_read_failed keys_check_empty keys_check_failed keys_check_unsafe : KeysWarning

-- The warning, or that the swap gets the keys.
unfoldable pub check_keys : KeysRead → Option KeysWarning
unfolding keys_check_exceeds
check_keys read_failed = some keys_read_failed
check_keys no_keys = some keys_check_empty
check_keys count_failed = some keys_check_failed
check_keys (counted candidates live) =
    if keys_check_exceeds candidates live then some keys_check_unsafe else none

-- The round's `swapKeys`: the swap marks rows whose keys are gone.
unfoldable pub swap_has_keys : Bool → KeysRead → Bool
swap_has_keys due read = due && is_none (check_keys read)

-- `isSkipWarning`.
abbrev pub is_skip_warning : Option KeysWarning → Bool
is_skip_warning none = false
is_skip_warning (some keys_read_failed) = true
is_skip_warning (some keys_check_empty) = false
is_skip_warning (some keys_check_failed) = true
is_skip_warning (some keys_check_unsafe) = true

-- The count after a round: `previous` is the one that the last error holds, 0 without one.
unfoldable pub keys_skips : RefreshSource → Plan → ℕ → KeysRead → ℕ → ℕ
keys_skips s p now read previous =
    if keys_due s p now && is_skip_warning (check_keys read)
    then previous + 1
    else if not (keys_due s p now) && not p.full_snapshot && s.detect_deletions && ltb 0 previous
    then previous
    else 0

unfoldable pub escalated : ℕ → ℕ → Bool
escalated escalate_after skips = ltb 0 escalate_after && leb escalate_after skips

-- A reconciliation is queued.
unfoldable pub queues_reconciliation : RefreshSource → ℕ → ℕ → Bool
unfolding escalated
queues_reconciliation s escalate_after skips =
    escalated escalate_after skips
    && skips % escalate_after == 0
    && (is_table s || filled s.source_sql_reconciliation)

-- A round as the count sees it: the source and the plan that it had, its time, and its reading of the
-- keys.
pub record Checked : Type 0 where
  pub source : RefreshSource
  pub plan : Plan
  pub now : ℕ
  pub read : KeysRead

-- The rounds of a source, one after the other.
unfoldable pub skips_after : List Checked → ℕ → ℕ
skips_after [] previous = previous
skips_after (c ∷ cs) previous = skips_after cs (keys_skips c.source c.plan c.now c.read previous)

-- The check was due and skipped.
abbrev pub is_skipped : Checked → Bool
is_skipped c = keys_due c.source c.plan c.now && is_skip_warning (check_keys c.read)

-- The check was not due, the detection of deletions is on, and the round read no full snapshot.
abbrev pub is_passed : Checked → Bool
is_passed c =
    not (keys_due c.source c.plan c.now) && not c.plan.full_snapshot && c.source.detect_deletions
