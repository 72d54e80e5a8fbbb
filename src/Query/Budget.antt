-- ===== src/Query/Budget.antt =====
-- The cache of query results keeps its budget and its books.
use catworld.Common.{
  ℕ, ◌+◌, ◌≤◌, ◌<◌, String, ◌≡◌, refl, Option, none, some, List, [], ◌∷◌, arith, if◌then◌else◌, ltb,
  lookup, insert, remove, get_or, insert_new, length-remove-le, length-remove-lt, length-append,
  Option-cases, inl, inr, Bool-cases, lookup-insert_self, ◌⊎◌,
}
use catworld.Query.ResultCache.{
  QueryResult, CacheEntry, ResultCache, estimate_result_bytes, drop_entry, get_cached_result, hit,
  evict, store_result, set_cached_result, invalidate_cache,
}
use catworld.Query.Books.{
  IsWithinBudget, total_bytes-remove, IsSmall-remove, IsSmall-lookup, Unique-remove,
  total_bytes-append, IsSmall-append, Unique-append, IsEvicted, evict-IsEvicted, removed_absent,
}

drop_entry-IsWithinBudget :
    (k : String) (c : ResultCache) → IsWithinBudget c → IsWithinBudget (drop_entry k c)
unfolding drop_entry
drop_entry-IsWithinBudget k c h = elim (Option-cases (lookup k c.entries)) [
  | inl gone ↦ rw (gone, drop_entry) h
  | inr (e, found) ↦
      rw (found, drop_entry)
        (ground (
          arith,
          total_bytes-remove k e c.entries h.unique found,
          IsSmall-remove k c.entries h.small,
          Unique-remove k c.entries h.unique,
          length-remove-le k c.entries,
        ))
]

drop_entry-absent : (k : String) (c : ResultCache) → lookup k (drop_entry k c).entries ≡ none
unfolding drop_entry
drop_entry-absent k c = elim (Option-cases (lookup k c.entries)) [
  | inl gone ↦ rw (gone, drop_entry) gone
  | inr (e, found) ↦ rw (found, drop_entry) (removed_absent k c.entries)
]

-- A read that hits: the entry moves to the end with one more hit.
touch-IsWithinBudget :
    (k : String) (e d : CacheEntry) (c : ResultCache)
    → IsWithinBudget c
    → lookup k c.entries ≡ some e
    → d.bytes ≡ e.bytes
    → IsWithinBudget (record c { entries = insert k d (remove k c.entries) })
touch-IsWithinBudget k e d c h found same =
    rw (insert_new k d (remove k c.entries) (removed_absent k c.entries)) (record {
      booked = omega (
        arith,
        h.booked,
        total_bytes-append k d (remove k c.entries),
        total_bytes-remove k e c.entries h.unique found,
        same,
      );
      in_bytes = h.in_bytes;
      in_entries = omega (
        arith,
        h.in_entries,
        length-append (remove k c.entries) ((k, d) ∷ []),
        length-remove-lt k e c.entries found,
      );
      small =
          IsSmall-append k d _ (omega (arith, IsSmall-lookup k e c.entries h.small found, same))
            (IsSmall-remove k c.entries h.small);
      unique =
          Unique-append k d _ (removed_absent k c.entries) (Unique-remove k c.entries h.unique);
    })

get_cached_result-IsWithinBudget :
    (now : ℕ) (k : String) (c : ResultCache)
    → IsWithinBudget c
    → IsWithinBudget (get_cached_result now k c).1
unfolding get_cached_result
get_cached_result-IsWithinBudget now k c h = elim (Option-cases (lookup k c.entries)) [
  | inl gone ↦ rw (gone, get_cached_result) h
  | inr (e, found) ↦
      rw (found, get_cached_result)
        (ground
          (arith, drop_entry-IsWithinBudget k c h, touch-IsWithinBudget k e (hit e) c h found refl))
]

-- The new entry takes the place that was made for it.
placed-IsWithinBudget :
    (k : String) (e : CacheEntry) (r : List (String × CacheEntry) × ℕ)
    → IsEvicted e.bytes k r
    → e.bytes ≤ 2097152
    → IsWithinBudget (record { entries = insert k e r.0; cache_bytes = r.1 + e.bytes })
placed-IsWithinBudget k e r v b = rw (insert_new k e r.0 v.absent) (record {
  booked = omega (arith, v.booked, total_bytes-append k e r.0);
  in_bytes = v.room.0;
  in_entries = omega (arith, v.room.1, length-append r.0 ((k, e) ∷ []));
  small = IsSmall-append k e r.0 b v.small;
  unique = Unique-append k e r.0 v.absent v.unique;
})

store_result-IsWithinBudget :
    (k : String) (e : CacheEntry) (c : ResultCache)
    → IsWithinBudget c
    → lookup k c.entries ≡ none
    → e.bytes ≤ 2097152
    → IsWithinBudget (store_result e.bytes k e c)
unfolding store_result
store_result-IsWithinBudget k e c h a b =
    placed-IsWithinBudget k e (evict e.bytes c.entries c.cache_bytes)
      (evict-IsEvicted e.bytes k c.entries c.cache_bytes b h.booked h.small h.unique a) b

set_cached_result-IsWithinBudget :
    (now : ℕ) (k : String) (r : QueryResult) (ttl : Option ℕ) (c : ResultCache)
    → IsWithinBudget c
    → IsWithinBudget (set_cached_result now k r ttl c)
unfolding set_cached_result
set_cached_result-IsWithinBudget now k r ttl c h = ground (
  arith,
  store_result-IsWithinBudget k
      (record {
        result = r;
        expires_at = now + get_or ttl 300000;
        hits = 0;
        bytes = estimate_result_bytes r;
      })
      (drop_entry k c) (drop_entry-IsWithinBudget k c h) (drop_entry-absent k c),
)

pub data CacheCall : Type 0 where
  gets : (now : ℕ) (key : String) → CacheCall
  sets : (now : ℕ) (key : String) (result : QueryResult) (ttl : Option ℕ) → CacheCall
  invalidates : CacheCall

abbrev pub after : List CacheCall → ResultCache → ResultCache
after [] c = c
after (gets now k ∷ os) c = after os (get_cached_result now k c).1
after (sets now k r ttl ∷ os) c = after os (set_cached_result now k r ttl c)
after (invalidates ∷ os) c = after os (invalidate_cache c)

-- Whatever is read, stored and invalidated in whatever order, the count of bytes stays the sum over
-- the entries and at most 64 MB, and there are at most 200 entries, of different keys and at most 2 MB
-- each.
pub after-IsWithinBudget :
    (os : List CacheCall) (c : ResultCache) → IsWithinBudget c → IsWithinBudget (after os c)
after-IsWithinBudget [] c h = h
after-IsWithinBudget (gets now k ∷ os) c h =
    after-IsWithinBudget os _ (get_cached_result-IsWithinBudget now k c h)
after-IsWithinBudget (sets now k r ttl ∷ os) c h =
    after-IsWithinBudget os _ (set_cached_result-IsWithinBudget now k r ttl c h)
after-IsWithinBudget (invalidates ∷ os) c h = after-IsWithinBudget os _ (ground arith)

-- A small result that was stored is read back until its time is over, the first time with one hit,
-- and not after; a result of more than 2 MB leaves the cache as it is.
pub get_cached_result-set :
    (now t : ℕ) (k : String) (r : QueryResult) (ttl : Option ℕ) (c : ResultCache)
    → ((get_cached_result t k (set_cached_result now k r ttl c)).0
        ≡ (if ltb (now + get_or ttl 300000) t then none else some (r, 1)))
      ⊎ ((2097152 < estimate_result_bytes r) × (set_cached_result now k r ttl c ≡ c))
unfolding get_cached_result set_cached_result store_result
get_cached_result-set now t k r ttl c = elim (Bool-cases (ltb 2097152 (estimate_result_bytes r))) [
  | inl big ↦ inr (ground arith)
  | inr small ↦ inl (ground (arith, found))
]
  where
    e : CacheEntry
    e = record {
      result = r;
      expires_at = now + get_or ttl 300000;
      hits = 0;
      bytes = estimate_result_bytes r;
    }

    found :
        lookup k
          (insert k e (evict e.bytes (drop_entry k c).entries (drop_entry k c).cache_bytes).0)
        ≡ some e
    found = lookup-insert_self k e _
