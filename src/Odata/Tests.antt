-- ===== src/Odata/Tests.antt =====
-- Pages of concrete rows.
use catworld.Common.{ℕ, ◌≡◌, refl, true, false, none, some, List, [], ◌∷◌, arith}
use catworld.Odata.{next_page_params, offset_rows, follow}
use catworld.Odata.Paging.{asked, follow-asked}

abbrev three : List ℕ
three = 1 ∷ 2 ∷ 3 ∷ []

follow-asked_example :
    follow 3 three (some (record { top = some 1; skip = 1 }))
    ≡ (asked (some 1) (offset_rows 1 three), true)
follow-asked_example = follow-asked 3 three (record { top = some 1; skip = 1 }) (omega arith)

-- A request for more than a page goes on with what is left, and one without `$top` without it.
links :
    (next_page_params 10000 12000 true 0 10000 ≡ some (record { top = some 2000; skip = 10000 }))
    × (next_page_params 5000 5000 false 5000 5000 ≡ some (record { top = none; skip = 10000 }))
    × (next_page_params 2000 2000 true 10000 2000 ≡ none)
unfolding next_page_params
links = (refl, refl, refl)
