-- ===== src/Refresh/Whole.antt =====
-- What a round may replace, and what it may take for deleted.
use catworld.Common.{
  ℕ, ◌*◌, ◌≤◌, ◌<◌, String, ◌≡◌, refl, sym, ap, subst, inl, inr, ◌⊎◌, Bool, true, false, ◌&&◌, not,
  Option, none, some, arith, is_some, Bool-cases,
}
use catworld.Jobs.Finish.{given}
use catworld.Source.{DeltaKind}
use catworld.Refresh.Plan.{
  Column, RefreshSource, Findings, Result, done, throws, is_table, is_query, schema_change,
  checked_key, key_of, delta_of, Plan, plan_of, plan_with, plan_keyed, plan_found, plan,
  key_column_type_unsafe, source_schema_changed,
}
use catworld.Refresh.Keys.{
  keys_due, KeysRead, read_failed, no_keys, count_failed, counted, check_keys, keys_check_exceeds,
  swap_has_keys,
}

module _ (normalise : String → DeltaKind → Option String)
    (above : DeltaKind → String → String → Bool) where
  key_known :
      (resolve : String → Option Column) (g : Option String) (key : Option Column)
      → key_of resolve g ≡ done key
      → is_some key ≡ is_some g
  key_known resolve none key e = let same : none ≡ key = ground arith in ap is_some (sym same)
  key_known resolve (some name) key e = go (resolve name) e
    where
      go : (o : Option Column) → checked_key o ≡ done key → is_some key ≡ true
      go none e = cc
      go (some c) e = elim (Bool-cases c.legacy_round) [
        | inl old ↦ absurd (bad (simp old at e))
        | inr fine ↦
            let e' : done (some c) ≡ done key = simp fine at e in ap is_some (sym (inner e'))
      ]
        where
          bad : throws key_column_type_unsafe ≡ done key → ⊥
          bad e = cc

          inner : {a b : Option Column} → done a ≡ done b → a ≡ b
          inner e = ground arith

  delta_known :
      (table : Bool) (resolve : String → Option Column) (g : Option String) (delta : Option Column)
      → delta_of table resolve g ≡ done delta
      → is_some delta ≡ true
      → table ≡ true
  delta_known true resolve g delta e h = refl
  delta_known false resolve none delta e h = ground arith
  delta_known false resolve (some name) delta e h = ground arith

  -- The columns with which a plan was made.
  record Columns (s : RefreshSource) (reconciliation : Bool) (f : Findings) (p : Plan)
      : Type 0 where
    key : Option Column
    delta : Option Column
    made : plan_with normalise above s reconciliation f key delta ≡ done p
    keyed : is_some key ≡ is_some (given s.key_column)
    tabled : is_some delta ≡ true → is_table s ≡ true

  plan-Columns :
      (s : RefreshSource) (reconciliation : Bool) (f : Findings) (p : Plan)
      → plan normalise above s reconciliation f ≡ done p
      → Columns s reconciliation f p
  unfolding plan
  plan-Columns s reconciliation f p e = go (key_of f.resolve (given s.key_column)) refl e
    where
      second :
          (key : Option Column) (r : Result (Option Column))
          → key_of f.resolve (given s.key_column) ≡ done key
          → delta_of (is_table s) f.resolve (given s.delta_column) ≡ r
          → plan_keyed normalise above s reconciliation f key r ≡ done p
          → Columns s reconciliation f p
      second key (throws x) k d e = cc
      second key (done delta) k d e = record {
        key = key;
        delta = delta;
        made = e;
        keyed = key_known f.resolve (given s.key_column) key k;
        tabled = delta_known (is_table s) f.resolve (given s.delta_column) delta d;
      }

      go :
          (r : Result (Option Column))
          → key_of f.resolve (given s.key_column) ≡ r
          → plan_found normalise above s reconciliation f r ≡ done p
          → Columns s reconciliation f p
      go (throws x) k e = cc
      go (done key) k e =
          second key (delta_of (is_table s) f.resolve (given s.delta_column)) k refl e

  -- What the tests of a plan say, with its columns.
  IsWhole : RefreshSource → Bool → Findings → Plan → Type 0
  IsWhole s reconciliation f p =
      (f.has_target ≡ true
        → p.use_key_merge ≡ false
        → (p.full_snapshot ≡ true)
          ⊎ ((given s.key_column ≡ none) × (is_table s ≡ false) × (reconciliation ≡ false)))
      × (p.full_snapshot ≡ true
          → (p.use_delta ≡ false) × ((reconciliation ≡ true) ⊎ (is_table s ≡ true)))

  whole_of :
      (s : RefreshSource) (reconciliation : Bool) (f : Findings) (key delta : Option Column)
      → (is_table s ≡ true) ⊎ (is_query s ≡ true)
      → (schema_change f && is_query s && not reconciliation) ≡ false
      → is_some key ≡ is_some (given s.key_column)
      → (is_some delta ≡ true → is_table s ≡ true)
      → IsWhole s reconciliation f (plan_of normalise above s reconciliation f key delta)
  unfolding IsWhole
  whole_of s reconciliation f key delta kind open_way keyed tabled =
      (λ there replaced. ground arith, λ all. ground arith)

  whole :
      (s : RefreshSource) (reconciliation : Bool) (f : Findings) (p : Plan)
      → (is_table s ≡ true) ⊎ (is_query s ≡ true)
      → Columns s reconciliation f p
      → IsWhole s reconciliation f p
  whole s reconciliation f p kind c =
      elim (Bool-cases (schema_change f && is_query s && not reconciliation)) [
        | inl shut ↦ absurd (bad (simp shut at c.made))
        | inr open_way ↦
            let same : done (plan_of normalise above s reconciliation f c.key c.delta) ≡ done p =
              simp open_way at c.made in
            subst (IsWhole s reconciliation f) (inner same)
              (whole_of s reconciliation f c.key c.delta kind open_way c.keyed c.tabled)
      ]
    where
      bad : throws source_schema_changed ≡ done p → ⊥
      bad e = cc

      inner : {q : Plan} → done q ≡ done p → q ≡ p
      inner e = ground arith

-- Of a source that is a table or a query: if the table exists and a round replaces it instead of
-- merging, the round reads the whole state, or the source is a query with no key outside a
-- reconciliation; and a round takes rows that it did not read for deleted (a full snapshot) only if it
-- reads from no mark on, and is a reconciliation or reads a table.
pub plan-replaces_whole :
    (normalise : String → DeltaKind → Option String) (above : DeltaKind → String → String → Bool)
    (s : RefreshSource) (reconciliation : Bool) (f : Findings) (p : Plan)
    → (is_table s ≡ true) ⊎ (is_query s ≡ true)
    → plan normalise above s reconciliation f ≡ done p
    → (f.has_target ≡ true
        → p.use_key_merge ≡ false
        → (p.full_snapshot ≡ true)
          ⊎ ((given s.key_column ≡ none) × (is_table s ≡ false) × (reconciliation ≡ false)))
      × (p.full_snapshot ≡ true
          → (p.use_delta ≡ false) × ((reconciliation ≡ true) ⊎ (is_table s ≡ true)))
unfolding IsWhole
plan-replaces_whole normalise above s reconciliation f p kind e =
    whole normalise above s reconciliation f p kind
      (plan-Columns normalise above s reconciliation f p e)

-- The swap marks rows by the list of keys only in a merge that is no full snapshot, and only if the keys
-- were read and counted and, of 50 live rows or more, at most three tenths would be marked.
pub swap_has_keys-bounded :
    (s : RefreshSource) (p : Plan) (now : ℕ) (read : KeysRead)
    → swap_has_keys (keys_due s p now) read ≡ true
    → (p.use_key_merge ≡ true)
      × (p.full_snapshot ≡ false)
      × ((candidates : ℕ) × (live : ℕ) × (read ≡ counted candidates live)
          × ((live < 50) ⊎ (10 * candidates ≤ 3 * live)))
unfolding swap_has_keys keys_due check_keys keys_check_exceeds
swap_has_keys-bounded s p now read_failed h = absurd (ground arith)
swap_has_keys-bounded s p now no_keys h = absurd (ground arith)
swap_has_keys-bounded s p now count_failed h = absurd (ground arith)
swap_has_keys-bounded s p now (counted candidates live) h =
    (ground arith, ground arith, (candidates, live, refl, ground arith))
