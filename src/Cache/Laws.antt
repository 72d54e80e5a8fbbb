-- ===== src/Cache/Laws.antt =====
-- What the cache promises over any sequence of its operations.
use catworld.Common.{
  ℕ, ◌+◌, ◌≤◌, ◌<◌, max, String, ◌≡◌, refl, ap, Bool-cases, leb→le, ◌⊎◌, Bool, Option, none, some,
  List, [], ◌∷◌, ◌++◌, arith, if◌then◌else◌, leb, length, length-append, lookup, insert, remove,
  length-remove-le, length-remove-lt, insert_new, lookup-remove, lookup-cons, str_eq_refl, get_or,
  Option-cases, inl, inr,
}
use catworld.Cache.{Entry, TtlCache, with_store, get, set, drop_oldest, delete_where, sweep}
use catworld.Cache.Recency.{length-sweep_entries-le, length-delete_entries-le}

pub data Op (V : Type 0) : Type 0 where
  gets : (now : ℕ) (key : String) → Op V
  sets : (now : ℕ) (key : String) (value : V) (ttl : Option ℕ) → Op V
  deletes : (predicate : String → Bool) → Op V
  sweeps : (now : ℕ) → Op V

module _ {V : Type 0} where
  abbrev pub apply : Op V → TtlCache V → TtlCache V
  apply (gets now k) c = (get now k c).1
  apply (sets now k v ttl) c = set now k v ttl c
  apply (deletes p) c = delete_where p c
  apply (sweeps now) c = sweep now c

  abbrev pub apply_all : List (Op V) → TtlCache V → TtlCache V
  apply_all [] c = c
  apply_all (o ∷ os) c = apply_all os (apply o c)

  abbrev pub IsBounded : TtlCache V → Type 0
  IsBounded c = length c.store ≤ max 1 c.max_size

module _ {V : Type 0} where
  -- The store that `set` writes to has no such key.
  lookup-drop :
      (k : String) (m : List (String × V)) → lookup k m ≡ none → lookup k (drop_oldest m) ≡ none
  lookup-drop k [] h = h
  lookup-drop k ((j, d) ∷ m) h = ground (arith, lookup-cons k j d m)

  lookup-removed : (k : String) (m : List (String × V)) → lookup k (remove k m) ≡ none
  lookup-removed k m = rw (lookup-remove k k m, str_eq_refl k)

  -- What `set` makes of the store: the new entry comes last.
  abbrev pub room : ℕ → List (String × V) → List (String × V)
  room size m = if leb size (length m) then drop_oldest m else m

  pub lookup-room :
      (size : ℕ) (k : String) (m : List (String × V)) → lookup k (room size (remove k m)) ≡ none
  lookup-room size k m = ground (arith, lookup-removed k m, lookup-drop k (remove k m))

  insert-room :
      (size : ℕ) (k : String) (d : V) (m : List (String × V))
      → insert k d (room size (remove k m)) ≡ room size (remove k m) ++ (k, d) ∷ []
  insert-room size k d m = insert_new k d (room size (remove k m)) (lookup-room size k m)

  length-room :
      (size : ℕ) (m : List (String × V))
      → length m ≤ max 1 size
      → length (room size m) + 1 ≤ max 1 size
  length-room size [] h = ground arith
  length-room size (d ∷ m) h = ground arith

module _ {V : Type 0} where
  pub set-store :
      (now : ℕ) (k : String) (v : V) (ttl : Option ℕ) (c : TtlCache V)
      → (set now k v ttl c).store
        ≡ room c.max_size (remove k c.store)
          ++ (k, record { value = v; expires_at = now + get_or ttl c.default_ttl_ms }) ∷ []
  unfolding set
  set-store now k v ttl c = insert-room c.max_size k _ c.store

  set-IsBounded :
      (now : ℕ) (k : String) (v : V) (ttl : Option ℕ) (c : TtlCache V)
      → IsBounded c
      → length (set now k v ttl c).store ≤ max 1 c.max_size
  set-IsBounded now k v ttl c h =
      rw
        (
          set-store now k v ttl c,
          length-append (room c.max_size (remove k c.store))
              ((k, record { value = v; expires_at = now + get_or ttl c.default_ttl_ms }) ∷ []),
        )
        (length-room c.max_size (remove k c.store) (omega (arith, length-remove-le k c.store, h)))

  -- A hit moves the entry to the end.
  pub get-hit :
      (now : ℕ) (k : String) (e : Entry V) (c : TtlCache V)
      → lookup k c.store ≡ some e
      → now < e.expires_at
      → get now k c ≡ (some e.value, with_store (remove k c.store ++ (k, e) ∷ []) c)
  unfolding get
  get-hit now k e c found live =
      ground (arith, found, insert_new k e (remove k c.store) (lookup-removed k c.store))

  pub get-expired :
      (now : ℕ) (k : String) (e : Entry V) (c : TtlCache V)
      → lookup k c.store ≡ some e
      → e.expires_at ≤ now
      → get now k c ≡ (none, with_store (remove k c.store) c)
  unfolding get
  get-expired now k e c found late = ground (arith, found)

  get-miss :
      (now : ℕ) (k : String) (c : TtlCache V) → lookup k c.store ≡ none → get now k c ≡ (none, c)
  unfolding get
  get-miss now k c gone = rw (gone, get) refl

  -- The three outcomes of a read: nothing is there, an entry that has expired goes, or a live one
  -- moves to the end.
  abbrev pub GetStep : ℕ → String → TtlCache V → Type 0
  GetStep now k c =
      ((get now k c).1 ≡ c)
      ⊎ (((get now k c).1 ≡ with_store (remove k c.store) c)
          ⊎ ((e : Entry V) × (lookup k c.store ≡ some e)
              × ((get now k c).1 ≡ with_store (remove k c.store ++ (k, e) ∷ []) c)))

  pub get-GetStep : (now : ℕ) (k : String) (c : TtlCache V) → GetStep now k c
  get-GetStep now k c = elim (Option-cases (lookup k c.store)) [
    | inl gone ↦ inl (ap (λ r. r.1) (get-miss now k c gone))
    | inr (e, found) ↦ elim (Bool-cases (leb e.expires_at now)) [
      | inl late ↦
          inr (inl (ap (λ r. r.1) (get-expired now k e c found (leb→le e.expires_at now late))))
      | inr live ↦ inr (inr (e, found, ap (λ r. r.1) (get-hit now k e c found (ground arith))))
    ]
  ]

  get-IsBounded :
      (now : ℕ) (k : String) (c : TtlCache V)
      → IsBounded c
      → (length (get now k c).1.store ≤ max 1 c.max_size) × ((get now k c).1.max_size ≡ c.max_size)
  get-IsBounded now k c h = elim (get-GetStep now k c) [
    | inl e ↦ rw (e) (h, refl)
    | inr (inl e) ↦ rw (e) (omega (arith, length-remove-le k c.store, h), refl)
    | inr (inr (d, found, e)) ↦
        rw (e, length-append (remove k c.store) ((k, d) ∷ []))
          (omega (arith, length-remove-lt k d c.store found, h), refl)
  ]

  apply-IsBounded :
      (o : Op V) (c : TtlCache V)
      → IsBounded c
      → IsBounded (apply o c) × ((apply o c).max_size ≡ c.max_size)
  unfolding delete_where sweep
  apply-IsBounded (gets now k) c h = let (b, e) = get-IsBounded now k c h in (rw (e) b, e)
  apply-IsBounded (sets now k v ttl) c h =
      (unfold set in set-IsBounded now k v ttl c h, unfold set in refl)
  apply-IsBounded (deletes p) c h = (omega (arith, length-delete_entries-le p c.store, h), refl)
  apply-IsBounded (sweeps now) c h = (omega (arith, length-sweep_entries-le now c.store, h), refl)

  -- No sequence of operations makes the cache hold more entries than its maximum (or than one, where
  -- the maximum is 0).
  pub apply_all-IsBounded :
      (os : List (Op V)) (c : TtlCache V) → IsBounded c → IsBounded (apply_all os c)
  apply_all-IsBounded [] c h = h
  apply_all-IsBounded (o ∷ os) c h = apply_all-IsBounded os (apply o c) (apply-IsBounded o c h).0
