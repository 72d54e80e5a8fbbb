-- ===== src/Query/Tests.antt =====
-- The protections of the query endpoint at concrete inputs.
use catworld.Common.{
  ◌≤◌, ◌≡◌, ◌↔◌, refl, none, some, List, [], ◌∷◌, arith, if◌then◌else◌, get_or, str_eq, lookup,
}
use catworld.Query.Slots.{acquires, releases, after_calls, acquire_query_slot, slots_bounded}
use catworld.Query.ResultCache.{QueryResult, ResultCache, estimate_result_bytes}
use catworld.Query.Books.{IsWithinBudget}
use catworld.Query.Budget.{CacheCall, gets, sets, after, after-IsWithinBudget}
use catworld.Query.RateLimit.{query, limited, check_window, check_rate_limit, limit_of, window_key}
use catworld.Query.Window.{within, admit_all, admit_all-bounded, lookup-check_rate_limit}

slots_bounded_example :
    (after_calls (acquires ∷ releases ∷ releases ∷ acquires ∷ []) 7 ≤ 8)
    × ((acquire_query_slot (after_calls (acquires ∷ releases ∷ releases ∷ acquires ∷ []) 7) ≡ none)
        ↔ (after_calls (acquires ∷ releases ∷ releases ∷ acquires ∷ []) 7 ≡ 8))
slots_bounded_example =
    slots_bounded (acquires ∷ releases ∷ releases ∷ acquires ∷ []) 7 (omega arith)

abbrev no_results : ResultCache
no_results = record { entries = []; cache_bytes = 0 }

abbrev two_rows : QueryResult
two_rows = record { content = "rows"; row_bytes = 40 ∷ 41 ∷ []; columns_length = 7 }

-- Two rows of 40.5 bytes on average.
estimated : estimate_result_bytes two_rows ≡ 288
unfolding estimate_result_bytes
estimated = refl

abbrev stored_twice : List CacheCall
stored_twice =
    sets 5 "q" two_rows none ∷ sets 6 "p" two_rows none ∷ sets 7 "q" two_rows none ∷ gets 8 "q" ∷ []

after-IsWithinBudget_example : IsWithinBudget (after stored_twice no_results)
after-IsWithinBudget_example = after-IsWithinBudget stored_twice no_results (ground arith)

admit_all-bounded_example :
    within 61500 (admit_all 2 (1000 ∷ 2000 ∷ 3000 ∷ 61500 ∷ []) ([], [])).1 ≤ 2
admit_all-bounded_example =
    admit_all-bounded 2 (1000 ∷ 2000 ∷ 3000 ∷ 61500 ∷ []) 61500
      (omega arith, (omega arith, (omega arith, (omega arith, tt))))

refused_third : check_window 2 3000 (1000 ∷ 2000 ∷ []) ≡ (limited 58, 1000 ∷ 2000 ∷ [])
unfolding check_window
refused_third = refl

lookup-check_rate_limit_example :
    ((check_rate_limit 9 "ana" query []).0
      ≡ (check_window (limit_of query) 9 (get_or (lookup (window_key "ana" query) []) [])).0)
    × (lookup "query:bia" (check_rate_limit 9 "ana" query []).1 ≡ (
        if str_eq (window_key "ana" query) "query:bia"
        then some
            (check_window (limit_of query) 9 (get_or (lookup (window_key "ana" query) []) [])).1
        else lookup "query:bia" []))
lookup-check_rate_limit_example = lookup-check_rate_limit 9 "ana" "query:bia" query []
