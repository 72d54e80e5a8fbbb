-- ===== src/Since/Tests.antt =====
-- Pages at concrete inputs.
use catworld.Common.{
  String, ◌≡◌, refl, true, false, ◌&&◌, not, none, some, List, [], ◌∷◌, ltb, length, is_none,
}
use catworld.Since.{
  PageRow, Settled, settled, take, nth, same_stamp, settle_first_page, shape_rows_page, clean_cut,
  tied_page, max_from,
}
use catworld.Since.Cuts.{Sorted}
use catworld.Since.FirstPage.{IsFaithful, settle_first_page-IsFaithful}
use catworld.Since.Throws.{settle_first_page-throws}
use catworld.Since.CursorPage.{IsLossless, shape_rows_page-IsLossless}

abbrev row : String → String → PageRow
row t k = record { stamp = t; key = some k; content = "" }

-- One row of nine, then three of ten.
abbrev all : List PageRow
all = row "09" "1" ∷ row "10" "2" ∷ row "10" "3" ∷ row "10" "4" ∷ []

all-Sorted : Sorted all
all-Sorted = ((refl, (refl, (refl, tt))), ((refl, (refl, tt)), ((refl, tt), (tt, tt))))

-- The limit 1 cuts between the stamps.
abbrev first_page : Settled
first_page = settled (row "09" "1" ∷ []) true (some (record { t = "09"; k = "1" })) "09" false

one_row : settle_first_page 1 "" (take 2 all) (take 50001 all) ≡ some first_page
unfolding settle_first_page clean_cut max_from
one_row = refl

-- The limit 2 cuts into the group of ten, and the first row is not of that group: an exception.
two_rows_throw : settle_first_page 2 "" (take 3 all) (take 50001 all) ≡ none
unfolding settle_first_page tied_page
two_rows_throw = refl

settle_first_page-IsFaithful_example : IsFaithful all first_page
settle_first_page-IsFaithful_example =
    settle_first_page-IsFaithful 0 "" all first_page all-Sorted one_row refl

settle_first_page-throws_example :
    is_none (settle_first_page 2 "" (take 3 all) (take 50001 all)) ≡ (
      ltb 2 (length all)
      && (same_stamp (nth 2 all) (nth 1 all) && not (same_stamp (nth 0 all) (nth 1 all))))
settle_first_page-throws_example = settle_first_page-throws 1 "" all

shape_rows_page-IsLossless_example :
    (s : Settled) × (shape_rows_page 2 "08" (take 3 all) ≡ some s) × IsLossless 2 all s
shape_rows_page-IsLossless_example =
    shape_rows_page-IsLossless 1 "08" all all-Sorted (refl, (refl, (refl, (refl, tt))))
