-- ===== src/Access/Reading.antt =====
-- The rules of the several operations agree: what is listed is what may be read, and what may be read
-- can be seen.
use catworld.Common.{
  String, ◌≡◌, ◌≢◌, ◌↔◌, refl, sym, ◌∙◌, ap, Bool, true, false, ◌&&◌, ◌||◌, Option, none, some,
  List, [], ◌∷◌, ◌++◌, map, arith, keep, any, includes, eq_iff, str_eq_refl, Memᴰ_of_keep,
  Memᴰ-keep, Bool-cases, inl, inr, ◌⊎◌, any_of_Memᴰ, Memᴰ_of_any,
}
use mathlib.Core.List.{Memᴰ}
use catworld.Access.{
  Actor, AccessGrant, Dataset, Database, reading, writing, is_id, grants_of, is_admin, is_manager,
  grant_allows, grant_reaches, grant_covers, active_datasets, can_access, accessible_datasets,
  visible_dataset_ids, can_see_dataset, somes, ids, is_global,
}

-- The ids of a dataset are not empty (they are UUIDs).
abbrev pub HasIds : Dataset → Type 0
HasIds d = (d.id ≢ "") × (d.project_id ≢ "")

abbrev pub can_read : Actor → Dataset → Database → Bool
can_read actor d db = can_access actor reading (some d.project_id) (some d.id) db

any-covers :
    (d : Dataset) (gs : List AccessGrant)
    → HasIds d
    → any (λ g. grant_covers g d) gs
      ≡ any
          (λ g.
            grant_allows g.permission reading && grant_reaches g (some d.project_id) (some d.id))
          gs
any-covers d [] h = refl
any-covers d (g ∷ gs) h = ground (arith, any-covers d gs h, eq_iff d.id "", eq_iff d.project_id "")

-- The datasets that an actor's list shows are exactly the active ones that the actor may read.
pub accessible_datasets_iff :
    (actor : Actor) (db : Database) (d : Dataset)
    → HasIds d
    → Memᴰ d (accessible_datasets actor db)
      ↔ (Memᴰ d (active_datasets db) × (can_read actor d db ≡ true))
unfolding accessible_datasets can_access
accessible_datasets_iff actor db d h = elim (Bool-cases (is_admin actor)) [
  | inl e ↦ simp e (λ m. (m, refl), λ m. m.0)
  | inr e ↦ simp e (
    λ m.
        let (a, c) =
          Memᴰ_of_keep (λ d. any (λ g. grant_covers g d) (grants_of actor db)) d
            (active_datasets db) m in
        (a, sym (any-covers d (grants_of actor db) h) ∙ c),
    λ m.
        Memᴰ-keep (λ d. any (λ g. grant_covers g d) (grants_of actor db)) d (active_datasets db) m.0
          (any-covers d (grants_of actor db) h ∙ m.1),
  )
]

includes-append :
    (s : String) (xs ys : List String) → includes s (xs ++ ys) ≡ (includes s xs || includes s ys)
includes-append s [] ys = refl
includes-append s (x ∷ xs) ys = ground (arith, includes-append s xs ys)

includes-ids : (d : Dataset) (ds : List Dataset) → Memᴰ d ds → includes d.id (ids ds) ≡ true
includes-ids d [] m = elim m [ ]
includes-ids d (e ∷ ds) (Memᴰ.head same) = rw (same, str_eq_refl e.id) refl
includes-ids d (e ∷ ds) (Memᴰ.tail m) = ground (arith, includes-ids d ds m)

somes_later :
    (s : String) (o : Option String) (os : List (Option String))
    → includes s (somes os) ≡ true
    → includes s (somes (o ∷ os)) ≡ true
somes_later s none os h = h
somes_later s (some t) os h = ground arith

somes_here :
    (s : String) (o : Option String) (os : List (Option String))
    → s ≢ ""
    → o ≡ some s
    → includes s (somes (o ∷ os)) ≡ true
somes_here s none os ne e = cc
somes_here s (some t) os ne e = ground (arith, eq_iff t "", eq_iff t s)

includes-somes :
    (f : AccessGrant → Option String) (s : String) (g : AccessGrant) (gs : List AccessGrant)
    → s ≢ ""
    → Memᴰ g gs
    → f g ≡ some s
    → includes s (somes (map f gs)) ≡ true
includes-somes f s g [] ne m e = elim m [ ]
includes-somes f s g (x ∷ gs) ne (Memᴰ.head same) e =
    somes_here s (f x) (map f gs) ne (ap f (sym same) ∙ e)
includes-somes f s g (x ∷ gs) ne (Memᴰ.tail m) e =
    somes_later s (f x) (map f gs) (includes-somes f s g gs ne m e)

is_id_path : (s : String) (o : Option String) → is_id s o ≡ true → o ≡ some s
is_id_path s none e = cc
is_id_path s (some t) e = ap some ((eq_iff t s).0 e)

local_cover :
    (g : AccessGrant) (d : Dataset)
    → grant_covers g d ≡ true
    → is_global g.scope_type ≡ false
    → (g.project_id ≡ some d.project_id) ⊎ (g.dataset_id ≡ some d.id)
local_cover g d c e =
    ground (arith, is_id_path d.project_id g.project_id, is_id_path d.id g.dataset_id)

or_true : (b c : Bool) → c ≡ true → (b || c) ≡ true
or_true b c e = ground arith

-- How a grant that covers a dataset makes it visible.
covered_visible :
    (d : Dataset) (db : Database) (g : AccessGrant) (gs : List AccessGrant)
    → HasIds d
    → Memᴰ d db.datasets
    → Memᴰ g gs
    → grant_covers g d ≡ true
    → is_global g.scope_type ≡ false
    → includes d.id (
        somes (map (λ g. g.dataset_id) gs)
        ++ ids (keep (λ d. includes d.project_id (somes (map (λ g. g.project_id) gs))) db.datasets))
      ≡ true
covered_visible d db g gs h here m c local =
    includes-append d.id (somes (map (λ g. g.dataset_id) gs)) _ ∙ elim (local_cover g d c local) [
      | inr e ↦ ground (arith, includes-somes (λ g. g.dataset_id) d.id g gs h.0 m e)
      | inl e ↦ or_true _ _ (
          includes-ids d _ (
            Memᴰ-keep (λ d. includes d.project_id (somes (map (λ g. g.project_id) gs))) d
              db.datasets here (includes-somes (λ g. g.project_id) d.project_id g gs h.1 m e)))
    ]

reaches_covers :
    (g : AccessGrant) (d : Dataset)
    → HasIds d
    → (grant_allows g.permission reading && grant_reaches g (some d.project_id) (some d.id)) ≡ true
    → grant_covers g d ≡ true
reaches_covers g d h e = ground (arith, eq_iff d.id "", eq_iff d.project_id "")

module _ (actor : Actor) (db : Database) (d : Dataset) (h : HasIds d)
    (here : Memᴰ d db.datasets) where
  abbrev listed : List String
  listed =
      somes (map (λ g. g.dataset_id) (grants_of actor db))
      ++ ids (
          keep (λ d. includes d.project_id (somes (map (λ g. g.project_id) (grants_of actor db))))
            db.datasets)

  none_listed :
      (is_manager actor || any (λ g. is_global g.scope_type) (grants_of actor db)) ≡ true
      → visible_dataset_ids actor db ≡ none
  unfolding visible_dataset_ids
  none_listed e = simp e refl

  some_listed :
      (is_manager actor || any (λ g. is_global g.scope_type) (grants_of actor db)) ≡ false
      → visible_dataset_ids actor db ≡ some listed
  unfolding visible_dataset_ids
  some_listed e = simp e refl

  all_visible :
      (is_manager actor || any (λ g. is_global g.scope_type) (grants_of actor db)) ≡ true
      → can_see_dataset actor d.id db ≡ true
  unfolding can_see_dataset
  all_visible e = rw (none_listed e, can_see_dataset) refl

  some_visible :
      (is_manager actor || any (λ g. is_global g.scope_type) (grants_of actor db)) ≡ false
      → (g : AccessGrant) → Memᴰ g (grants_of actor db)
      → grant_covers g d ≡ true
      → can_see_dataset actor d.id db ≡ true
  unfolding can_see_dataset
  some_visible e g m c =
      rw (some_listed e, can_see_dataset)
        (covered_visible d db g (grants_of actor db) h here m c local)
    where
      local : is_global g.scope_type ≡ false
      local = ground (arith, e, any_of_Memᴰ (λ g. is_global g.scope_type) g (grants_of actor db) m)

  granted_sees :
      any
          (λ g.
            grant_allows g.permission reading && grant_reaches g (some d.project_id) (some d.id))
          (grants_of actor db)
        ≡ true
      → can_see_dataset actor d.id db ≡ true
  granted_sees e =
      let (g, m, a) = Memᴰ_of_any _ (grants_of actor db) e in
      elim (Bool-cases
        (is_manager actor || any (λ g. is_global g.scope_type) (grants_of actor db))) [
          | inl all ↦ all_visible all
          | inr few ↦ some_visible few g m (reaches_covers g d h a)
        ]

  reader_sees : can_read actor d db ≡ true → can_see_dataset actor d.id db ≡ true
  unfolding can_access
  reader_sees e = elim (Bool-cases (is_admin actor)) [
    | inl admin_actor ↦ all_visible (ground arith)
    | inr other ↦ granted_sees (ground arith)
  ]

any-writing :
    (p i : Option String) (gs : List AccessGrant)
    → any (λ g. grant_allows g.permission writing && grant_reaches g p i) gs ≡ true
    → any (λ g. grant_allows g.permission reading && grant_reaches g p i) gs ≡ true
any-writing p i [] e = e
any-writing p i (g ∷ gs) e = ground (arith, any-writing p i gs)

-- Whoever may read a dataset of the database sees it in the listings, and whoever may write to it may
-- read it.
pub can_read_sees :
    (actor : Actor) (db : Database) (d : Dataset)
    → HasIds d
    → Memᴰ d db.datasets
    → ((can_read actor d db ≡ false) ⊎ (can_see_dataset actor d.id db ≡ true))
      × ((can_access actor writing (some d.project_id) (some d.id) db ≡ false)
          ⊎ (can_read actor d db ≡ true))
unfolding can_access
can_read_sees actor db d h here = (
  ground (arith, reader_sees actor db d h here),
  ground (arith, any-writing (some d.project_id) (some d.id) (grants_of actor db)),
)
