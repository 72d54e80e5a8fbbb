-- ===== src/Odata.antt =====
-- The paging of server/odata/paging-facets.ts as app/api/odata/[...path]/route.ts uses it, and a client
-- of a live table that follows the links. The pages of stored tables pass through a cache that is left
-- out. The rows are a list in the stable order that each page is read in; `$top` and
-- `$skip` are numbers that were read.
pub mod Paging
pub mod Tests
use catworld.Common.{
  ℕ, zero, suc, ◌+◌, ◌-◌, min, Bool, true, false, ◌||◌, not, Option, none, some, List, [], ◌∷◌,
  ◌++◌, if◌then◌else◌, ◌==◌, leb, is_some, get_or, length,
}

abbrev pub max_page : ℕ
max_page = 10000

abbrev pub default_top : ℕ
default_top = 5000

-- `$top`, if it is given, and `$skip`.
pub record PageRequest : Type 0 where
  pub top : Option ℕ
  pub skip : ℕ

-- `nextPageParams`.
unfoldable pub next_page_params : ℕ → ℕ → Bool → ℕ → ℕ → Option PageRequest
next_page_params top wanted_top top_requested skip returned =
    if top == 0 || not (returned == top)
    then none
    else if not top_requested
    then some (record { top = none; skip = skip + top })
    else if leb wanted_top top
    then none
    else some (record { top = some (wanted_top - top); skip = skip + top })

abbrev pub wanted_top : PageRequest → ℕ
wanted_top r = get_or r.top default_top

abbrev pub page_top : PageRequest → ℕ
page_top r = min (wanted_top r) max_page

module _ {ℓ} {A : Type ℓ} where
  -- `LIMIT n` and `OFFSET n`.
  abbrev pub limit_rows : ℕ → List A → List A
  limit_rows zero xs = []
  limit_rows (suc n) [] = []
  limit_rows (suc n) (x ∷ xs) = x ∷ limit_rows n xs

  abbrev pub offset_rows : ℕ → List A → List A
  offset_rows zero xs = xs
  offset_rows (suc n) [] = []
  offset_rows (suc n) (x ∷ xs) = offset_rows n xs

  -- The rows of a page of a live table, which is never cached, and the link to the next one.
  unfoldable pub live_page : List A → PageRequest → List A × Option PageRequest
  live_page rows r =
      let page = limit_rows (page_top r) (offset_rows r.skip rows) in
      (page, next_page_params (page_top r) (wanted_top r) (is_some r.top) r.skip (length page))

  -- A client that follows the links, at most `fuel` of them: the rows of its pages, and whether it came
  -- to the end.
  abbrev pub followed : List A → List A × Bool → List A × Bool
  followed page rest = (page ++ rest.0, rest.1)

  unfoldable pub follow : ℕ → List A → Option PageRequest → List A × Bool
  unfolding live_page
  follow fuel rows none = ([], true)
  follow zero rows (some r) = ([], false)
  follow (suc fuel) rows (some r) =
      followed ((live_page rows r).0) (follow fuel rows ((live_page rows r).1))
