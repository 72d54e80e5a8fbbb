-- ===== src/Access/Tests.antt =====
-- Access at concrete inputs.
use catworld.Common.{◌≡◌, ◌↔◌, refl, true, false, none, some, [], ◌∷◌, arith, eq_iff}
use mathlib.Core.List.{Memᴰ}
use catworld.Access.{
  read, write, project, dataset, user, Actor, Dataset, Database, QueryScope, forbidden, is_admin,
  active_datasets, accessible_datasets, resolve_query_scope,
}
use catworld.Access.Reading.{HasIds, can_read, accessible_datasets_iff}
use catworld.Access.Scopes.{IsSafe, resolve_query_scope-IsSafe}
use catworld.Access.Syncing.{DistinctIds}

abbrev ana : Actor
ana = record { kind = user; id = "ana"; role = "ANALYST" }

abbrev sales : Dataset
sales = record { id = "d1"; project_id = "p1"; active = true }

abbrev stock : Dataset
stock = record { id = "d2"; project_id = "p1"; active = true }

abbrev staff : Dataset
staff = record { id = "d3"; project_id = "p2"; active = true }

-- She reads the project, and writes one of its datasets.
abbrev db : Database
db = record {
  grants =
      record {
        user_id = some "ana";
        token_id = none;
        permission = read;
        scope_type = project;
        project_id = some "p1";
        dataset_id = none;
      }
      ∷ record {
        user_id = some "ana";
        token_id = none;
        permission = write;
        scope_type = dataset;
        project_id = none;
        dataset_id = some "d2";
      }
      ∷ [];
  datasets = sales ∷ stock ∷ staff ∷ [];
  sources = [];
}

listed : accessible_datasets ana db ≡ sales ∷ stock ∷ []
unfolding accessible_datasets
listed = refl

staff_forbidden : resolve_query_scope ana (some "d3") none db ≡ forbidden
unfolding resolve_query_scope accessible_datasets
staff_forbidden = refl

sales-HasIds : HasIds sales
sales-HasIds = (ground (arith, eq_iff "d1" ""), ground (arith, eq_iff "p1" ""))

accessible_datasets_iff_example :
    Memᴰ sales (accessible_datasets ana db)
    ↔ (Memᴰ sales (active_datasets db) × (can_read ana sales db ≡ true))
accessible_datasets_iff_example = accessible_datasets_iff ana db sales sales-HasIds

abbrev project_one : QueryScope
project_one = record {
  datasets = sales ∷ stock ∷ [];
  accessible = sales ∷ stock ∷ [];
  unrestricted = false;
}

resolve_query_scope-IsSafe_example :
    IsSafe (is_admin ana) (accessible_datasets ana db) db project_one
unfolding resolve_query_scope accessible_datasets
resolve_query_scope-IsSafe_example =
    resolve_query_scope-IsSafe ana none (some "p1") db project_one refl

distinct : DistinctIds (sales ∷ stock ∷ staff ∷ [])
distinct = (
  (ground (arith, eq_iff "d2" "d1"), (ground (arith, eq_iff "d3" "d1"), tt)),
  ((ground (arith, eq_iff "d3" "d2"), tt), (tt, tt)),
)
