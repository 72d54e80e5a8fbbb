-- ===== src/Access/Scopes.antt =====
-- The scope of a query holds nothing that the actor may not read.
use catworld.Common.{
  String, ◌≡◌, ◌≢◌, ◌⊎◌, refl, sym, subst, ◌∙◌, Bool, true, false, Option, none, some, List, [],
  ◌∷◌, arith, keep, includes, str_eq, Memᴰ_of_keep, Bool-cases, Option-cases, inl, inr,
}
use mathlib.Core.List.{Memᴰ}
use catworld.Access.{
  Actor, Dataset, Database, QueryScope, scope, is_admin, active_datasets, accessible_datasets,
  resolve_query_scope, dataset_scope, project_scope, open_scope, find_dataset, truthy, ids,
  is_empty,
}

-- The datasets of the scope are active and their ids are among those of the accessible ones.
pub record IsSafe (admin_actor : Bool) (accessible : List Dataset) (db : Database) (q : QueryScope)
    : Type 0 where
  pub listed : q.accessible ≡ accessible
  pub readable : (d : Dataset) → Memᴰ d q.datasets → includes d.id (ids accessible) ≡ true
  pub known : (d : Dataset) → Memᴰ d q.datasets → Memᴰ d (active_datasets db)
  pub limited : (q.unrestricted ≡ false) ⊎ (admin_actor ≡ true)
  pub some_access : (admin_actor ≡ true) ⊎ (accessible ≢ [])

find_dataset-Memᴰ :
    (id : String) (d : Dataset) (ds : List Dataset) → find_dataset id ds ≡ some d → Memᴰ d ds
unfolding find_dataset
find_dataset-Memᴰ id d [] e = cc
find_dataset-Memᴰ id d (x ∷ ds) e = elim (Bool-cases (str_eq x.id id)) [
  | inl here ↦ Memᴰ.head (same (simp here at e))
  | inr later ↦ Memᴰ.tail (find_dataset-Memᴰ id d ds (simp later at e))
]
  where
    same : some x ≡ some d → d ≡ x
    same e = cc

includes_nonempty : (s : String) (ds : List Dataset) → includes s (ids ds) ≡ true → ds ≢ []
includes_nonempty s [] e = λ h. ground arith
includes_nonempty s (d ∷ ds) e = λ h. cc

scope_path : (q r : QueryScope) → scope q ≡ scope r → q ≡ r
scope_path q r e = cc

singleton_member :
    (P : Dataset → Type 0) (d : Dataset) → P d → (e : Dataset) → Memᴰ e (d ∷ []) → P e
singleton_member P d p e (Memᴰ.head same) = subst P (sym same) p
singleton_member P d p e (Memᴰ.tail m) = elim m [ ]

module _ (admin_actor : Bool) (accessible : List Dataset) (db : Database) (q : QueryScope) where
  found_scope :
      (id : String) (d : Dataset)
      → find_dataset id (active_datasets db) ≡ some d
      → dataset_scope id accessible db ≡ scope q
      → (includes d.id (ids accessible) ≡ true)
        × (record { datasets = d ∷ []; accessible = accessible; unrestricted = false } ≡ q)
  unfolding dataset_scope
  found_scope id d found e = (ground (arith, found), ground (arith, found))

  dataset_scope-IsSafe :
      (id : String) → dataset_scope id accessible db ≡ scope q → IsSafe admin_actor accessible db q
  unfolding dataset_scope
  dataset_scope-IsSafe id e = elim (Option-cases (find_dataset id (active_datasets db))) [
    | inl gone ↦ absurd (ground (arith, gone))
    | inr (d, found) ↦
        let (c, same) = found_scope id d found e in
        subst (IsSafe admin_actor accessible db) same (record {
          listed = refl;
          readable = singleton_member (λ d. includes d.id (ids accessible) ≡ true) d c;
          known =
              singleton_member (λ d. Memᴰ d (active_datasets db)) d
                (find_dataset-Memᴰ id d (active_datasets db) found);
          limited = inl refl;
          some_access = inr (includes_nonempty d.id accessible c);
        })
  ]

  -- A project's datasets that are accessible.
  allowed_in : String → List Dataset
  allowed_in id =
      keep (λ d. includes d.id (ids accessible))
        (keep (λ d. str_eq d.project_id id) (active_datasets db))

  kept_scope :
      (id : String)
      → project_scope id accessible db ≡ scope q
      → (is_empty (allowed_in id) ≡ false)
        × (record { datasets = allowed_in id; accessible = accessible; unrestricted = false } ≡ q)
  unfolding project_scope allowed_in
  kept_scope id e = (ground arith, ground arith)

  allowed_readable :
      (id : String) (d : Dataset)
      → Memᴰ d (allowed_in id)
      → Memᴰ d (active_datasets db) × (includes d.id (ids accessible) ≡ true)
  unfolding allowed_in
  allowed_readable id d m =
      let (in_project, c) = Memᴰ_of_keep (λ d. includes d.id (ids accessible)) d _ m in
      let (known, _) =
        Memᴰ_of_keep (λ d. str_eq d.project_id id) d (active_datasets db) in_project in
      (known, c)

  someone : (ds : List Dataset) → is_empty ds ≡ false → (d : Dataset) × Memᴰ d ds
  someone [] e = cc
  someone (d ∷ ds) e = (d, Memᴰ.head refl)

  project_scope-IsSafe :
      (id : String) → project_scope id accessible db ≡ scope q → IsSafe admin_actor accessible db q
  project_scope-IsSafe id e =
      let (full, same) = kept_scope id e in
      let (d, m) = someone (allowed_in id) full in
      subst (IsSafe admin_actor accessible db) same (record {
        listed = refl;
        readable = λ d m. (allowed_readable id d m).1;
        known = λ d m. (allowed_readable id d m).0;
        limited = inl refl;
        some_access = inr (includes_nonempty d.id accessible (allowed_readable id d m).1);
      })

  open_scope-IsSafe :
      open_scope admin_actor accessible ≡ scope q → IsSafe admin_actor accessible db q
  unfolding open_scope
  open_scope-IsSafe e =
      let same : record { datasets = []; accessible = accessible; unrestricted = admin_actor } ≡ q =
        ground arith in
      subst (IsSafe admin_actor accessible db) same (record {
        listed = refl;
        readable = λ d m. elim m [ ];
        known = λ d m. elim m [ ];
        limited = ground arith;
        some_access = ground arith;
      })

module _ (actor : Actor) (dataset_id project_id : Option String) (db : Database) where
  by_dataset :
      (id : String)
      → truthy dataset_id ≡ some id
      → resolve_query_scope actor dataset_id project_id db
        ≡ dataset_scope id (accessible_datasets actor db) db
  unfolding resolve_query_scope
  by_dataset id t = rw (t, resolve_query_scope) refl

  by_project :
      (id : String)
      → truthy dataset_id ≡ none
      → truthy project_id ≡ some id
      → resolve_query_scope actor dataset_id project_id db
        ≡ project_scope id (accessible_datasets actor db) db
  unfolding resolve_query_scope
  by_project id t u = rw (t, u, resolve_query_scope) refl

  by_nothing :
      truthy dataset_id ≡ none
      → truthy project_id ≡ none
      → resolve_query_scope actor dataset_id project_id db
        ≡ open_scope (is_admin actor) (accessible_datasets actor db)
  unfolding resolve_query_scope
  by_nothing t u = rw (t, u, resolve_query_scope) refl

-- A query that gets a scope sees no dataset beyond those that its actor may read: those in its scope
-- are active and listed as accessible, only an administrator is unrestricted, and anyone else has
-- access to at least one dataset.
pub resolve_query_scope-IsSafe :
    (actor : Actor) (dataset_id project_id : Option String) (db : Database) (q : QueryScope)
    → resolve_query_scope actor dataset_id project_id db ≡ scope q
    → IsSafe (is_admin actor) (accessible_datasets actor db) db q
resolve_query_scope-IsSafe actor dataset_id project_id db q e =
    elim (Option-cases (truthy dataset_id)) [
      | inr (id, t) ↦
          dataset_scope-IsSafe (is_admin actor) (accessible_datasets actor db) db q id
            (sym (by_dataset actor dataset_id project_id db id t) ∙ e)
      | inl t ↦ elim (Option-cases (truthy project_id)) [
        | inr (id, u) ↦
            project_scope-IsSafe (is_admin actor) (accessible_datasets actor db) db q id
              (sym (by_project actor dataset_id project_id db id t u) ∙ e)
        | inl u ↦
            open_scope-IsSafe (is_admin actor) (accessible_datasets actor db) db q
              (sym (by_nothing actor dataset_id project_id db t u) ∙ e)
      ]
    ]
