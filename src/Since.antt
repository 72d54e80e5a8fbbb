-- ===== src/Since.antt =====
-- server/tables/since.ts: the pages of changed rows. A row is its stamp, as the normalised text that
-- `stampTxt` makes of it, its key and its content. A cursor is the pair that `encodeCursor` packs.
-- `first`, `big` and `rows` are the rows that the database returns.
pub mod Cuts
pub mod Ties
pub mod FirstPage
pub mod Throws
pub mod CursorPage
pub mod Final
pub mod Tests
use catworld.Common.{
  ℕ, zero, suc, ◌+◌, ◌-◌, String, Bool, true, false, ◌&&◌, ◌||◌, not, Option, none, some, List, [],
  ◌∷◌, map, if◌then◌else◌, leb, ltb, length, get_or, str_eq, any,
}
use catworld.Common.TextOrder.{text_leb}

abbrev pub tie_cap : ℕ
tie_cap = 50000

pub record PageRow : Type 0 where
  pub stamp : String
  pub key : Option String
  pub content : String

pub record Cursor : Type 0 where
  pub t : String
  pub k : String

pub record Settled : Type 0 where
  pub page : List PageRow
  pub has_more : Bool
  pub next_cursor : Option Cursor
  pub next_since_txt : String
  pub tie_group_truncated : Bool

-- `a >= b ? a : b`, where a missing text gives way.
abbrev pub max_txt : Option String → Option String → Option String
max_txt none b = b
max_txt (some a) none = some a
max_txt (some a) (some b) = if text_leb b a then some a else some b

pub max_from : Option String → List PageRow → Option String
max_from m [] = m
max_from m (r ∷ rows) = max_from (max_txt m (some r.stamp)) rows

abbrev pub max_stamp : List PageRow → Option String
unfolding max_from
max_stamp = max_from none

abbrev pub cursor_of : PageRow → Option Cursor
cursor_of r = elim r.key [ none ↦ none | some k ↦ some (record { t = r.stamp; k = k }) ]

abbrev pub take : ℕ → List PageRow → List PageRow
take zero rows = []
take (suc n) [] = []
take (suc n) (r ∷ rows) = r ∷ take n rows

abbrev pub drop : ℕ → List PageRow → List PageRow
drop zero rows = rows
drop (suc n) [] = []
drop (suc n) (r ∷ rows) = drop n rows

abbrev pub nth : ℕ → List PageRow → Option PageRow
nth n [] = none
nth zero (r ∷ rows) = some r
nth (suc n) (r ∷ rows) = nth n rows

abbrev pub last_row : List PageRow → Option PageRow
last_row [] = none
last_row (r ∷ []) = some r
last_row (r ∷ s ∷ rows) = last_row (s ∷ rows)

abbrev pub same_stamp : Option PageRow → Option PageRow → Bool
same_stamp none b = false
same_stamp (some a) none = false
same_stamp (some a) (some b) = str_eq a.stamp b.stamp

-- `findIndex` of the first row with another stamp.
abbrev pub find_other : String → List PageRow → Option ℕ
find_other t [] = none
find_other t (r ∷ rows) =
    if str_eq r.stamp t
    then elim (find_other t rows) [ none ↦ none | some n ↦ some (suc n) ]
    else some zero

abbrev pub settled : List PageRow → Bool → Option Cursor → String → Bool → Settled
settled page more cursor next truncated = record {
  page = page;
  has_more = more;
  next_cursor = cursor;
  next_since_txt = next;
  tie_group_truncated = truncated;
}

-- A page with more after it, whose cursor is read from its last row: `none` is the exception that
-- reading the key of no row throws.
abbrev pub with_cursor : List PageRow → String → Bool → Option Settled
with_cursor page since truncated = elim (last_row page) [
  | none ↦ none
  | some r ↦ some (settled page true (cursor_of r) (get_or (max_stamp page) since) truncated)
]

-- The page before the limit, where no group of equal stamps is cut; with the limit 0 it is empty.
unfoldable pub clean_cut : List PageRow → String → Settled
clean_cut page since =
    settled page true (elim (last_row page) [ none ↦ none | some r ↦ cursor_of r ])
      (get_or (max_stamp page) since) false

-- The cut would fall into a group: `big` is read instead, and `last` is the stamp of the group.
unfoldable pub tied_page : ℕ → String → String → List PageRow → List PageRow → Option Settled
tied_page limit since last first big = elim (find_other last big) [
  | none ↦
      if leb (length big) tie_cap
      then some (settled big false none (get_or (max_stamp big) since) false)
      else with_cursor (take limit first) since true
  | some n ↦ with_cursor (take n big) since false
]

unfoldable pub settle_first_page : ℕ → String → List PageRow → List PageRow → Option Settled
unfolding clean_cut tied_page
settle_first_page limit since first big =
    if leb (length first) limit
    then some (settled first false none (get_or (max_stamp first) since) false)
    else elim (nth (limit - 1) first) [
      | none ↦ some (clean_cut (take limit first) since)
      | some r ↦
          if ltb 0 limit && same_stamp (nth limit first) (some r)
          then tied_page limit since r.stamp first big
          else some (clean_cut (take limit first) since)
    ]

-- The largest stamp of the page that is not `last`.
unfoldable pub boundary_from : String → Option String → List PageRow → Option String
boundary_from last m [] = m
boundary_from last m (r ∷ rows) =
    if str_eq r.stamp last
    then boundary_from last m rows
    else boundary_from last (max_txt m (some r.stamp)) rows

-- A page with a cursor; an empty page with more after it (the limit 0) throws.
unfoldable pub shape_rows_page : ℕ → String → List PageRow → Option Settled
unfolding boundary_from
shape_rows_page limit since rows =
    if leb (length rows) limit
    then some (settled rows false none (get_or (max_stamp rows) since) false)
    else let page = take limit rows in
      elim (last_row page) [
        | none ↦ none
        | some r ↦
            some (
              settled page true (cursor_of r) (get_or (boundary_from r.stamp none page) since)
                false)
      ]

abbrev pub or_later : String → Option String → String
or_later a none = a
or_later a (some b) = if text_leb b a then a else b

-- `cap` is the clock of the storage less the window, where the clock can be read.
unfoldable pub finalize_next_since :
    Settled → String → Option String → Bool → Option String → String
finalize_next_since s since removed_max removed_truncated cap =
    if s.has_more || removed_truncated
    then or_later s.next_since_txt (some since)
    else let seen = or_later s.next_since_txt removed_max in
      let next : String = elim cap [ none ↦ seen | some c ↦ if text_leb seen c then seen else c ] in
      if text_leb since next then next else since

-- The stamps of the page, in its order.
abbrev pub row_stamps_of : List PageRow → List String
row_stamps_of = map (λ r. r.stamp)
