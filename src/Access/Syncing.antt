-- ===== src/Access/Syncing.antt =====
-- `datasetsForActor` of server/auth/sync-grants.ts: the permissions that are written to SQL Server for
-- an actor, against what the API lets the same actor do. `all` are the active datasets of the call.
use catworld.Common.{
  String, ◌≡◌, ◌≢◌, refl, Bool, true, false, ◌&&◌, ◌||◌, not, Option, none, some, List, [], ◌∷◌,
  arith, if◌then◌else◌, keep, any, All, str_eq, eq_iff, str_eq_refl, is_none, is_some, lookup,
  insert, lookup-insert,
}
use mathlib.Core.List.{Memᴰ}
use catworld.Access.{
  Permission, Actor, AccessGrant, Dataset, Database, Wanted, reading, writing, grants_of, is_admin,
  grant_allows, grant_reaches, grant_covers, can_access,
}
use catworld.Access.Reading.{HasIds}

abbrev is_writing : Wanted → Bool
is_writing reading = false
is_writing writing = true

abbrev wanted_of : Permission → Wanted
wanted_of p = if grant_allows p writing then writing else reading

sync_dataset : Wanted → Dataset → List (String × Wanted) → List (String × Wanted)
sync_dataset p d m = if is_none (lookup d.id m) || is_writing p then insert d.id p m else m

sync_datasets : Wanted → List Dataset → List (String × Wanted) → List (String × Wanted)
unfolding sync_dataset
sync_datasets p [] m = m
sync_datasets p (d ∷ ds) m = sync_datasets p ds (sync_dataset p d m)

sync_grants : List Dataset → List AccessGrant → List (String × Wanted) → List (String × Wanted)
unfolding sync_datasets
sync_grants all [] m = m
sync_grants all (g ∷ gs) m =
    sync_grants all gs (sync_datasets (wanted_of g.permission) (keep (grant_covers g) all) m)

pub datasets_for_actor : Actor → List Dataset → Database → List (String × Wanted)
unfolding sync_grants
datasets_for_actor actor all db = sync_grants all (grants_of actor db) []

abbrev stronger : Option Wanted → Wanted → Option Wanted
stronger old p = if is_none old || is_writing p then some p else old

module _ (k : String) where
  lookup-sync_dataset :
      (p : Wanted) (d : Dataset) (m : List (String × Wanted))
      → lookup k (sync_dataset p d m)
        ≡ (if str_eq d.id k then stronger (lookup k m) p else lookup k m)
  unfolding sync_dataset
  lookup-sync_dataset p d m = ground (arith, lookup-insert d.id k p m, eq_iff d.id k)

  lookup-sync_datasets :
      (p : Wanted) (ds : List Dataset) (m : List (String × Wanted))
      → lookup k (sync_datasets p ds m)
        ≡ (if any (λ d. str_eq d.id k) ds then stronger (lookup k m) p else lookup k m)
  unfolding sync_datasets
  lookup-sync_datasets p [] m = refl
  lookup-sync_datasets p (d ∷ ds) m =
      ground (arith, lookup-sync_datasets p ds (sync_dataset p d m), lookup-sync_dataset p d m)

  abbrev hits : List Dataset → AccessGrant → Bool
  hits all g = any (λ d. str_eq d.id k) (keep (grant_covers g) all)

  lookup-sync_grants :
      (all : List Dataset) (gs : List AccessGrant) (m : List (String × Wanted))
      → lookup k (sync_grants all gs m) ≡ (
          if any (λ g. grant_allows g.permission writing && hits all g) gs
          then some writing
          else if is_some (lookup k m) || not (any (hits all) gs)
          then lookup k m
          else some reading)
  unfolding sync_grants
  lookup-sync_grants all [] m = ground arith
  lookup-sync_grants all (g ∷ gs) m = ground (
    arith,
    lookup-sync_grants all gs
        (sync_datasets (wanted_of g.permission) (keep (grant_covers g) all) m),
    lookup-sync_datasets (wanted_of g.permission) (keep (grant_covers g) all) m,
  )

-- No two datasets have one id.
abbrev pub DistinctIds : List Dataset → Type 0
DistinctIds [] = Unit
DistinctIds (d ∷ ds) = All (λ e. e.id ≢ d.id) ds × DistinctIds ds

any_elsewhere :
    (p : Dataset → Bool) (k : String) (ds : List Dataset)
    → All (λ e. e.id ≢ k) ds
    → any (λ d. str_eq d.id k) (keep p ds) ≡ false
any_elsewhere p k [] a = refl
any_elsewhere p k (d ∷ ds) a = ground (arith, any_elsewhere p k ds, eq_iff d.id k)

All_Memᴰ : (P : Dataset → Type 0) (d : Dataset) (ds : List Dataset) → All P ds → Memᴰ d ds → P d
All_Memᴰ P d [] a m = elim m [ ]
All_Memᴰ P d (e ∷ ds) a (Memᴰ.head same) = rw (same) a.0
All_Memᴰ P d (e ∷ ds) a (Memᴰ.tail m) = All_Memᴰ P d ds a.1 m

hits-covers :
    (d : Dataset) (ds : List Dataset) (g : AccessGrant)
    → DistinctIds ds
    → Memᴰ d ds
    → hits d.id ds g ≡ grant_covers g d
hits-covers d [] g u m = elim m [ ]
hits-covers d (e ∷ ds) g u (Memᴰ.head same) =
    rw (same) (ground (arith, any_elsewhere (grant_covers g) e.id ds u.0, str_eq_refl e.id))
hits-covers d (e ∷ ds) g u (Memᴰ.tail m) =
    ground
      (arith, hits-covers d ds g u.1 m, All_Memᴰ (λ f. f.id ≢ e.id) d ds u.0 m, eq_iff e.id d.id)

reaches-covers :
    (d : Dataset) (g : AccessGrant)
    → HasIds d
    → grant_reaches g (some d.project_id) (some d.id) ≡ grant_covers g d
reaches-covers d g h = ground (arith, eq_iff d.id "", eq_iff d.project_id "")

module _ (all : List Dataset) (d : Dataset) (u : DistinctIds all) (m : Memᴰ d all)
    (h : HasIds d) where
  any-hits :
      (w : Wanted) (gs : List AccessGrant)
      → any (λ g. grant_allows g.permission w && hits d.id all g) gs
        ≡ any
            (λ g. grant_allows g.permission w && grant_reaches g (some d.project_id) (some d.id))
            gs
  any-hits w [] = refl
  any-hits w (g ∷ gs) = ground (arith, any-hits w gs, hits-covers d all g u m, reaches-covers d g h)

  any-hits_reading :
      (gs : List AccessGrant)
      → any (hits d.id all) gs ≡ any (λ g. grant_allows g.permission reading && hits d.id all g) gs
  any-hits_reading [] = refl
  any-hits_reading (g ∷ gs) = ground (arith, any-hits_reading gs)

lookup-nil : (k : String) → lookup {V = Wanted} k [] ≡ none
unfolding lookup
lookup-nil k = refl

-- What is written to SQL Server for an actor who is no administrator is what the API allows: of a
-- dataset that is synced, write access exactly if the actor may write to it, otherwise read access
-- exactly if the actor may read it, otherwise nothing.
pub lookup-datasets_for_actor :
    (actor : Actor) (all : List Dataset) (db : Database) (d : Dataset)
    → is_admin actor ≡ false
    → DistinctIds all
    → Memᴰ d all
    → HasIds d
    → lookup d.id (datasets_for_actor actor all db) ≡ (
        if can_access actor writing (some d.project_id) (some d.id) db
        then some writing
        else if can_access actor reading (some d.project_id) (some d.id) db
        then some reading
        else none)
unfolding datasets_for_actor can_access
lookup-datasets_for_actor actor all db d other u m h = ground (
  arith,
  lookup-sync_grants d.id all (grants_of actor db) [],
  lookup-nil d.id,
  any-hits all d u m h writing (grants_of actor db),
  any-hits all d u m h reading (grants_of actor db),
  any-hits_reading all d u m h (grants_of actor db),
)
