-- ===== src/Cache/Tests.antt =====
-- The cache at concrete inputs.
use catworld.Common.{
  ℕ, ◌+◌, ◌≡◌, refl, none, some, List, [], ◌∷◌, arith, if◌then◌else◌, leb, get_or, lookup, insert,
  remove, eq_iff,
}
use catworld.Cache.{TtlCache, get, set}
use catworld.Cache.Laws.{Op, gets, sets, apply_all}
use catworld.Cache.Survival.{set_survives}

abbrev two_places : TtlCache ℕ
two_places = record { default_ttl_ms = 100; max_size = 3; store = [] }

abbrev others : List (Op ℕ)
others = sets 11 "b" 2 none ∷ gets 12 "c" ∷ []

-- Reading "a" saves it from the eviction that a third key brings.
touched_survives :
    let c = set 2 "b" 2 none (set 1 "a" 1 none (record two_places { max_size = 2 })) in
    (get 5 "a" (set 4 "c" 3 none (get 3 "a" c).1)).0 ≡ some 1
unfolding get set lookup insert remove
touched_survives = refl

untouched_goes :
    let c = set 2 "b" 2 none (set 1 "a" 1 none (record two_places { max_size = 2 })) in
    (get 5 "a" (set 4 "c" 3 none c)).0 ≡ none
unfolding get set lookup insert remove
untouched_goes = refl

set_survives_example :
    (get 60 "a" (apply_all others (set 10 "a" 1 (some 90) two_places))).0
    ≡ (if leb (10 + get_or (some 90) 100) 60 then none else some 1)
set_survives_example =
    set_survives 10 60 "a" 1 (some 90) two_places others (omega arith)
      (ground (arith, eq_iff "b" "a"), (ground (arith, eq_iff "c" "a"), tt))
