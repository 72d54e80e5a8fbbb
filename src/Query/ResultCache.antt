-- ===== src/Query/ResultCache.antt =====
-- server/query/protection.ts: the cache of query results, with a budget in bytes. A result is the
-- sizes of its rows as JSON and the length of its columns' names; `content` is what they hold. The key of a
-- query (a hash) is given. The estimate is exact, where the source divides floating-point numbers.
use catworld.Common.{
  ℕ, zero, suc, ◌+◌, ◌-◌, ◌*◌, ◌/◌, String, ◌||◌, Option, none, some, List, [], ◌∷◌, if◌then◌else◌,
  leb, ltb, ◌==◌, length, lookup, insert, remove, get_or,
}

abbrev pub cache_ttl_ms : ℕ
cache_ttl_ms = 300000

abbrev pub cache_max_entries : ℕ
cache_max_entries = 200

abbrev pub cache_max_bytes : ℕ
cache_max_bytes = 67108864

abbrev pub cache_max_entry_bytes : ℕ
cache_max_entry_bytes = 2097152

pub record QueryResult : Type 0 where
  pub content : String
  pub row_bytes : List ℕ
  pub columns_length : ℕ

pub record CacheEntry : Type 0 where
  pub result : QueryResult
  pub expires_at : ℕ
  pub hits : ℕ
  pub bytes : ℕ

pub record ResultCache : Type 0 where
  pub entries : List (String × CacheEntry)
  pub cache_bytes : ℕ

abbrev pub sum : List ℕ → ℕ
sum [] = 0
sum (x ∷ xs) = x + sum xs

abbrev pub first_rows : ℕ → List ℕ → List ℕ
first_rows zero xs = []
first_rows (suc n) [] = []
first_rows (suc n) (x ∷ xs) = x ∷ first_rows n xs

-- `Math.ceil(a / b)`.
abbrev pub ceil_div : ℕ → ℕ → ℕ
ceil_div a b = (a + b - 1) / b

-- From a sample of at most 50 rows.
unfoldable pub estimate_result_bytes : QueryResult → ℕ
estimate_result_bytes r =
    let n = length r.row_bytes in
    let sample = first_rows 50 r.row_bytes in
    if n == 0 then 200 else ceil_div (sum sample * n) (length sample) + r.columns_length + 200

unfoldable pub drop_entry : String → ResultCache → ResultCache
drop_entry key c = elim (lookup key c.entries) [
  | none ↦ c
  | some e ↦ record { entries = remove key c.entries; cache_bytes = c.cache_bytes - e.bytes }
]

abbrev pub hit : CacheEntry → CacheEntry
hit e = record e { hits = e.hits + 1 }

-- An entry that has expired is dropped; another moves to the end.
unfoldable pub get_cached_result : ℕ → String → ResultCache → Option (QueryResult × ℕ) × ResultCache
unfolding drop_entry
get_cached_result now key c = elim (lookup key c.entries) [
  | none ↦ (none, c)
  | some e ↦ if ltb e.expires_at now then (none, drop_entry key c) else (
    some (e.result, e.hits + 1),
    record c { entries = insert key (hit e) (remove key c.entries) },
  )
]

-- The loop that drops the oldest entry until there is room, as a recursion on the entries: a `Map`
-- has no key twice, so dropping its first key leaves its tail.
unfoldable pub evict : ℕ → List (String × CacheEntry) → ℕ → List (String × CacheEntry) × ℕ
evict bytes [] total = ([], total)
evict bytes ((k, e) ∷ m) total =
    let rest = evict bytes m (total - e.bytes) in
    if leb cache_max_entries (length ((k, e) ∷ m)) || ltb cache_max_bytes (total + bytes)
    then rest
    else ((k, e) ∷ m, total)

unfoldable pub store_result : ℕ → String → CacheEntry → ResultCache → ResultCache
unfolding evict
store_result bytes key e c =
    let (kept, total) = evict bytes c.entries c.cache_bytes in
    record { entries = insert key e kept; cache_bytes = total + bytes }

unfoldable pub set_cached_result : ℕ → String → QueryResult → Option ℕ → ResultCache → ResultCache
unfolding store_result drop_entry estimate_result_bytes
set_cached_result now key r ttl c =
    let bytes = estimate_result_bytes r in
    let e : CacheEntry = record {
      result = r;
      expires_at = now + get_or ttl cache_ttl_ms;
      hits = 0;
      bytes = bytes;
    } in
    if ltb cache_max_entry_bytes bytes then c else store_result bytes key e (drop_entry key c)

abbrev pub invalidate_cache : ResultCache → ResultCache
invalidate_cache c = record { entries = []; cache_bytes = 0 }

active_entries : ℕ → List (String × CacheEntry) → ℕ
active_entries now [] = 0
active_entries now ((k, e) ∷ m) =
    let rest = active_entries now m in if leb now e.expires_at then rest + 1 else rest

-- The number of entries, of those that have not expired, and the bytes.
unfoldable pub get_cache_stats : ℕ → ResultCache → ℕ × ℕ × ℕ
unfolding active_entries
get_cache_stats now c = (length c.entries, active_entries now c.entries, c.cache_bytes)
