-- ===== src/Query/Books.antt =====
-- The books of the cache of query results: the bytes of its entries, which are small and have
-- different keys.
use catworld.Common.{
  ℕ, ◌+◌, ◌-◌, ◌≤◌, ◌<◌, String, ◌≡◌, ◌≢◌, refl, none, some, List, [], ◌∷◌, ◌++◌, arith, length,
  lookup, remove, lookup-remove, lookup-cons, eq_iff, str_eq_refl,
}
use catworld.Query.ResultCache.{CacheEntry, ResultCache, evict}

abbrev pub total_bytes : List (String × CacheEntry) → ℕ
total_bytes [] = 0
total_bytes ((k, e) ∷ m) = e.bytes + total_bytes m

abbrev pub IsSmall : List (String × CacheEntry) → Type 0
IsSmall [] = Unit
IsSmall ((k, e) ∷ m) = (e.bytes ≤ 2097152) × IsSmall m

abbrev pub Unique : List (String × CacheEntry) → Type 0
Unique [] = Unit
Unique ((k, e) ∷ m) = (lookup k m ≡ none) × Unique m

pub record IsWithinBudget (c : ResultCache) : Type 0 where
  pub booked : c.cache_bytes ≡ total_bytes c.entries
  pub in_bytes : c.cache_bytes ≤ 67108864
  pub in_entries : length c.entries ≤ 200
  pub small : IsSmall c.entries
  pub unique : Unique c.entries

module _ (k : String) where
  -- An entry is removed with its bytes, once.
  pub remove-absent : (m : List (String × CacheEntry)) → lookup k m ≡ none → remove k m ≡ m
  unfolding lookup remove
  remove-absent [] h = refl
  remove-absent ((j, d) ∷ m) h = ground (arith, remove-absent m)

  pub total_bytes-remove :
      (e : CacheEntry) (m : List (String × CacheEntry))
      → Unique m
      → lookup k m ≡ some e
      → total_bytes (remove k m) + e.bytes ≡ total_bytes m
  unfolding lookup remove
  total_bytes-remove e [] u h = cc
  total_bytes-remove e ((j, d) ∷ m) u h =
      ground (arith, remove-absent m, total_bytes-remove e m, eq_iff j k)

  pub IsSmall-remove : (m : List (String × CacheEntry)) → IsSmall m → IsSmall (remove k m)
  unfolding remove
  IsSmall-remove [] h = tt
  IsSmall-remove ((j, d) ∷ m) h = ground (arith, IsSmall-remove m)

  pub IsSmall-lookup :
      (e : CacheEntry) (m : List (String × CacheEntry))
      → IsSmall m
      → lookup k m ≡ some e
      → e.bytes ≤ 2097152
  unfolding lookup
  IsSmall-lookup e [] h f = cc
  IsSmall-lookup e ((j, d) ∷ m) h f = ground (arith, IsSmall-lookup e m)

  pub Unique-remove : (m : List (String × CacheEntry)) → Unique m → Unique (remove k m)
  unfolding remove
  Unique-remove [] h = tt
  Unique-remove ((j, d) ∷ m) h = ground (arith, Unique-remove m, lookup-remove k j m)

  pub total_bytes-append :
      (e : CacheEntry) (m : List (String × CacheEntry))
      → total_bytes (m ++ (k, e) ∷ []) ≡ total_bytes m + e.bytes
  total_bytes-append e [] = omega arith
  total_bytes-append e ((j, d) ∷ m) = omega (arith, total_bytes-append e m)

  pub IsSmall-append :
      (e : CacheEntry) (m : List (String × CacheEntry))
      → e.bytes ≤ 2097152
      → IsSmall m
      → IsSmall (m ++ (k, e) ∷ [])
  IsSmall-append e [] b h = (b, tt)
  IsSmall-append e ((j, d) ∷ m) b h = (h.0, IsSmall-append e m b h.1)

  pub lookup-append :
      (j : String) (e : CacheEntry) (m : List (String × CacheEntry))
      → j ≢ k
      → lookup j m ≡ none
      → lookup j (m ++ (k, e) ∷ []) ≡ none
  unfolding lookup
  lookup-append j e [] ne h = ground (arith, eq_iff k j)
  lookup-append j e ((i, d) ∷ m) ne h = ground (arith, lookup-append j e m ne)

  pub Unique-append :
      (e : CacheEntry) (m : List (String × CacheEntry))
      → lookup k m ≡ none
      → Unique m
      → Unique (m ++ (k, e) ∷ [])
  unfolding lookup
  Unique-append e [] h u = (refl, tt)
  Unique-append e ((j, d) ∷ m) h u =
      ground (arith, Unique-append e m, lookup-append j e m, lookup-cons k j d m, eq_iff j k)

-- What is left after the oldest entries have gone.
pub record IsEvicted (bytes : ℕ) (k : String) (r : List (String × CacheEntry) × ℕ) : Type 0 where
  pub booked : r.1 ≡ total_bytes r.0
  pub room : (r.1 + bytes ≤ 67108864) × (length r.0 < 200)
  pub small : IsSmall r.0
  pub unique : Unique r.0
  pub absent : lookup k r.0 ≡ none

pub evict-IsEvicted :
    (bytes : ℕ) (k : String) (m : List (String × CacheEntry)) (total : ℕ)
    → bytes ≤ 2097152
    → total ≡ total_bytes m
    → IsSmall m
    → Unique m
    → lookup k m ≡ none
    → IsEvicted bytes k (evict bytes m total)
unfolding evict
evict-IsEvicted bytes k [] total b t s u a = ground arith
evict-IsEvicted bytes k ((j, e) ∷ m) total b t s u a =
    ground (arith, evict-IsEvicted bytes k m (total - e.bytes) b, lookup-cons k j e m)

pub removed_absent : (k : String) (m : List (String × CacheEntry)) → lookup k (remove k m) ≡ none
removed_absent k m = rw (lookup-remove k k m, str_eq_refl k)
