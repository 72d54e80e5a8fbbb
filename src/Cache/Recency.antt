-- ===== src/Cache/Recency.antt =====
-- How recently a key was used: the number of entries after it in the store.
use catworld.Common.{
  ℕ, ◌+◌, ◌≤◌, ◌<◌, String, ◌≡◌, ◌≢◌, ap, Bool, false, some, List, [], ◌∷◌, ◌++◌, arith,
  if◌then◌else◌, length, length-append, length-remove-le, lookup, remove, str_eq, eq_iff,
}
use catworld.Cache.{Entry, sweep_entries, delete_entries, drop_oldest}

module _ {V : Type 0} where
  -- The key is in the store with the entry, and at most `n` entries come after it.
  abbrev pub IsRecent : String → V → ℕ → List (String × V) → Type 0
  IsRecent k e n [] = ⊥
  IsRecent k e n ((j, d) ∷ m) = if str_eq j k then (d ≡ e) × (length m ≤ n) else IsRecent k e n m

  pub IsRecent-lookup :
      (k : String) (e : V) (n : ℕ) (m : List (String × V)) → IsRecent k e n m → lookup k m ≡ some e
  unfolding lookup
  IsRecent-lookup k e n [] h = absurd h
  IsRecent-lookup k e n ((j, d) ∷ m) h = ground (arith, IsRecent-lookup k e n m)

  module _ (k j : String) (e d : V) (n : ℕ) where
    pub IsRecent-append :
        (m : List (String × V)) → IsRecent k e n m → IsRecent k e (n + 1) (m ++ (j, d) ∷ [])
    IsRecent-append [] h = absurd h
    IsRecent-append ((i, c) ∷ m) h =
        ground (arith, IsRecent-append m, length-append m ((j, d) ∷ []))

    pub IsRecent-drop :
        (max : ℕ) (m : List (String × V))
        → max ≤ length m
        → n + 1 < max
        → IsRecent k e n m
        → IsRecent k e n (drop_oldest m)
    IsRecent-drop max [] l b h = absurd h
    IsRecent-drop max ((i, c) ∷ m) l b h = ground arith

    pub IsRecent-remove :
        (m : List (String × V)) → j ≢ k → IsRecent k e n m → IsRecent k e n (remove j m)
    unfolding remove
    IsRecent-remove [] ne h = absurd h
    IsRecent-remove ((i, c) ∷ m) ne h =
        ground (arith, IsRecent-remove m ne, length-remove-le j m, eq_iff i j, eq_iff i k)

module _ {V : Type 0} where
  pub length-sweep_entries-le :
      (now : ℕ) (m : List (String × Entry V)) → length (sweep_entries now m) ≤ length m
  unfolding sweep_entries
  length-sweep_entries-le now [] = omega arith
  length-sweep_entries-le now ((i, c) ∷ m) = ground (arith, length-sweep_entries-le now m)

  pub length-delete_entries-le :
      (p : String → Bool) (m : List (String × Entry V)) → length (delete_entries p m) ≤ length m
  unfolding delete_entries
  length-delete_entries-le p [] = omega arith
  length-delete_entries-le p ((i, c) ∷ m) = ground (arith, length-delete_entries-le p m)

module _ {V : Type 0} (k : String) (e : Entry V) (n : ℕ) where
  pub IsRecent-sweep :
      (now : ℕ) (m : List (String × Entry V))
      → now < e.expires_at
      → IsRecent k e n m
      → IsRecent k e n (sweep_entries now m)
  unfolding sweep_entries
  IsRecent-sweep now [] live h = absurd h
  IsRecent-sweep now ((i, c) ∷ m) live h =
      ground (arith, IsRecent-sweep now m live, length-sweep_entries-le now m)

  pub IsRecent-delete :
      (p : String → Bool) (m : List (String × Entry V))
      → p k ≡ false
      → IsRecent k e n m
      → IsRecent k e n (delete_entries p m)
  unfolding delete_entries
  IsRecent-delete p [] other h = absurd h
  IsRecent-delete p ((i, c) ∷ m) other h =
      ground (arith, IsRecent-delete p m other, length-delete_entries-le p m, eq_iff i k, ap p)
