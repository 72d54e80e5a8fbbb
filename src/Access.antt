-- ===== src/Access.antt =====
-- server/auth/permissions.ts and `datasetsForActor` of server/auth/sync-grants.ts: who may read, write
-- and see which datasets. The tables of the database are lists of their rows; a rejection is a value.
-- Permissions and scopes are the values that the API stores.
pub mod Reading
pub mod Scopes
pub mod Syncing
pub mod Tests
use catworld.Common.{
  ℕ, String, Bool, true, false, ◌&&◌, ◌||◌, not, Option, none, some, List, [], ◌∷◌, ◌++◌, map,
  if◌then◌else◌, is_some, keep, any, includes, str_eq, lookup, insert,
}

pub data Permission : Type 0 where
  read write admin : Permission

pub data ScopeType : Type 0 where
  global project dataset : ScopeType

pub data ActorType : Type 0 where
  user token : ActorType

pub record Actor : Type 0 where
  pub kind : ActorType
  pub id : String
  pub role : String

pub record AccessGrant : Type 0 where
  pub user_id : Option String
  pub token_id : Option String
  pub permission : Permission
  pub scope_type : ScopeType
  pub project_id : Option String
  pub dataset_id : Option String

pub record Dataset : Type 0 where
  pub id : String
  pub project_id : String
  pub active : Bool

-- A source of the database: the connection and the project of its dataset.
pub record DatasetSource : Type 0 where
  pub connection_id : String
  pub project_id : String

pub record Database : Type 0 where
  pub grants : List AccessGrant
  pub datasets : List Dataset
  pub sources : List DatasetSource

abbrev pub is_user : ActorType → Bool
is_user user = true
is_user token = false

abbrev pub is_id : String → Option String → Bool
is_id id none = false
is_id id (some s) = str_eq s id

-- `userId: actor.id` or `tokenId: actor.id`.
abbrev owns : Actor → AccessGrant → Bool
owns actor g = if is_user actor.kind then is_id actor.id g.user_id else is_id actor.id g.token_id

abbrev pub grants_of : Actor → Database → List AccessGrant
grants_of actor db = keep (owns actor) db.grants

abbrev pub is_admin : Actor → Bool
is_admin actor = is_user actor.kind && str_eq actor.role "ADMIN"

abbrev pub is_manager : Actor → Bool
is_manager actor =
    is_user actor.kind && (str_eq actor.role "ADMIN" || str_eq actor.role "DATA_MANAGER")

-- What is asked for is only READ or WRITE.
pub data Wanted : Type 0 where
  reading writing : Wanted

abbrev pub grant_allows : Permission → Wanted → Bool
grant_allows admin w = true
grant_allows write w = true
grant_allows read reading = true
grant_allows read writing = false

-- `Boolean(id && grantId === id)`.
abbrev pub matches : Option String → Option String → Bool
matches none grant_id = false
matches (some id) grant_id = not (str_eq id "") && is_id id grant_id

abbrev pub grant_reaches : AccessGrant → Option String → Option String → Bool
grant_reaches g project_id dataset_id = elim g.scope_type [
  | global ↦ true
  | project ↦ matches project_id g.project_id
  | dataset ↦ matches dataset_id g.dataset_id
]

unfoldable pub can_access : Actor → Wanted → Option String → Option String → Database → Bool
can_access actor w project_id dataset_id db =
    is_admin actor
    || any (λ g. grant_allows g.permission w && grant_reaches g project_id dataset_id)
        (grants_of actor db)

-- `accessibleDatasets` compares the ids themselves.
abbrev pub grant_covers : AccessGrant → Dataset → Bool
grant_covers g d = elim g.scope_type [
  | global ↦ true
  | project ↦ is_id d.project_id g.project_id
  | dataset ↦ is_id d.id g.dataset_id
]

abbrev pub active_datasets : Database → List Dataset
active_datasets db = keep (λ d. d.active) db.datasets

unfoldable pub accessible_datasets : Actor → Database → List Dataset
accessible_datasets actor db =
    if is_admin actor
    then active_datasets db
    else keep (λ d. any (λ g. grant_covers g d) (grants_of actor db)) (active_datasets db)

pub record QueryScope : Type 0 where
  pub datasets : List Dataset
  pub accessible : List Dataset
  pub unrestricted : Bool

pub data Resolved : Type 0 where
  not_found forbidden : Resolved
  scope : QueryScope → Resolved

abbrev pub ids : List Dataset → List String
ids = map (λ d. d.id)

-- `findUnique` of an active dataset.
find_dataset : String → List Dataset → Option Dataset
find_dataset id [] = none
find_dataset id (d ∷ ds) = if str_eq d.id id then some d else find_dataset id ds

abbrev is_empty {ℓ} : {A : Type ℓ} → List A → Bool
is_empty [] = true
is_empty (x ∷ xs) = false

dataset_scope : String → List Dataset → Database → Resolved
unfolding find_dataset
dataset_scope id accessible db = elim (find_dataset id (active_datasets db)) [
  | none ↦ not_found
  | some d ↦
      if includes d.id (ids accessible)
      then scope (record { datasets = d ∷ []; accessible = accessible; unrestricted = false })
      else forbidden
]

project_scope : String → List Dataset → Database → Resolved
project_scope id accessible db =
    let in_project = keep (λ d. str_eq d.project_id id) (active_datasets db) in
    let allowed = keep (λ d. includes d.id (ids accessible)) in_project in
    if is_empty in_project
    then not_found
    else if is_empty allowed
    then forbidden
    else scope (record { datasets = allowed; accessible = accessible; unrestricted = false })

open_scope : Bool → List Dataset → Resolved
open_scope admin_actor accessible =
    if not admin_actor && is_empty accessible
    then forbidden
    else scope (record { datasets = []; accessible = accessible; unrestricted = admin_actor })

-- `if (input.datasetId)`: the empty text is falsy.
abbrev pub truthy : Option String → Option String
truthy none = none
truthy (some s) = if str_eq s "" then none else some s

unfoldable pub resolve_query_scope : Actor → Option String → Option String → Database → Resolved
unfolding dataset_scope project_scope open_scope
resolve_query_scope actor dataset_id project_id db =
    let accessible = accessible_datasets actor db in
    elim (truthy dataset_id) [
      | some id ↦ dataset_scope id accessible db
      | none ↦ elim (truthy project_id) [
        | some id ↦ project_scope id accessible db
        | none ↦ open_scope (is_admin actor) accessible
      ]
    ]

-- `true` is the normal return, `false` the status 403.
unfoldable pub assert_dataset_access : Actor → Wanted → Dataset → Database → Bool
assert_dataset_access actor w d db = can_access actor w (some d.project_id) (some d.id) db

unfoldable pub assert_can_use_connection : Actor → String → String → Database → Bool
assert_can_use_connection actor connection_id project_id db =
    is_manager actor
    || any (λ s. str_eq s.connection_id connection_id && str_eq s.project_id project_id) db.sources

unfoldable pub has_any_write_grant : Actor → Database → Bool
has_any_write_grant actor db =
    is_manager actor || any (λ g. grant_allows g.permission writing) (grants_of actor db)

abbrev pub is_global : ScopeType → Bool
is_global global = true
is_global _ = false

abbrev pub somes : List (Option String) → List String
somes [] = []
somes (none ∷ os) = somes os
somes (some s ∷ os) = if str_eq s "" then somes os else s ∷ somes os

-- `none` stands for all. The list may name a dataset twice, where the source makes a set of it.
unfoldable pub visible_dataset_ids : Actor → Database → Option (List String)
visible_dataset_ids actor db =
    let grants = grants_of actor db in
    let direct = somes (map (λ g. g.dataset_id) grants) in
    let projects = somes (map (λ g. g.project_id) grants) in
    if is_manager actor || any (λ g. is_global g.scope_type) grants
    then none
    else some (direct ++ ids (keep (λ d. includes d.project_id projects) db.datasets))

unfoldable pub can_see_dataset : Actor → String → Database → Bool
unfolding visible_dataset_ids
can_see_dataset actor id db = elim (visible_dataset_ids actor db) [
  | none ↦ true
  | some visible ↦ includes id visible
]

unfoldable pub visible_project_ids : Actor → Database → Option (List String)
unfolding visible_dataset_ids
visible_project_ids actor db = elim (visible_dataset_ids actor db) [
  | none ↦ none
  | some visible ↦ some (map (λ d. d.project_id) (keep (λ d. includes d.id visible) db.datasets))
]
