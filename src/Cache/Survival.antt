-- ===== src/Cache/Survival.antt =====
-- How long a value that was stored can be read: until it expires, if less than the maximum number of
-- operations on other keys come between.
use catworld.Common.{
  ℕ, ◌+◌, ◌<◌, String, ◌≡◌, ◌≢◌, refl, ap, false, Option, none, some, List, [], ◌∷◌, ◌++◌, arith,
  if◌then◌else◌, leb, length, lookup, remove, get_or, All, str_eq_refl, inl, inr, Bool-cases,
  leb→le, lookup-cons,
}
use catworld.Cache.{Entry, TtlCache, get, set, delete_where, sweep}
use catworld.Cache.Recency.{
  IsRecent, IsRecent-lookup, IsRecent-append, IsRecent-drop, IsRecent-remove, IsRecent-sweep,
  IsRecent-delete,
}
use catworld.Cache.Laws.{
  Op, gets, sets, deletes, sweeps, apply, apply_all, room, set-store, lookup-room, get-hit,
  get-expired, get-GetStep,
}

-- The operation is on another key, or a sweep before the time.
abbrev pub IsElsewhere : {V : Type 0} → String → ℕ → Op V → Type 0
IsElsewhere k t (gets now j) = j ≢ k
IsElsewhere k t (sets now j v ttl) = j ≢ k
IsElsewhere k t (deletes p) = p k ≡ false
IsElsewhere k t (sweeps now) = now < t

module _ {V : Type 0} where
  IsRecent-last :
      (k : String) (e : V) (m : List (String × V))
      → lookup k m ≡ none
      → IsRecent k e 0 (m ++ (k, e) ∷ [])
  IsRecent-last k e [] h = rw (str_eq_refl k) (refl, omega arith)
  IsRecent-last k e ((j, d) ∷ m) h = ground (arith, lookup-cons k j d m, IsRecent-last k e m)

  IsRecent-later :
      (k : String) (e : V) (n : ℕ) (m : List (String × V))
      → IsRecent k e n m
      → IsRecent k e (n + 1) m
  IsRecent-later k e n [] h = h
  IsRecent-later k e n ((i, d) ∷ m) h = ground (arith, IsRecent-later k e n m)

  -- Making room for another key costs the key no more than one place.
  IsRecent-room :
      (size : ℕ) (k : String) (e : V) (n : ℕ) (m : List (String × V))
      → n + 1 < size
      → IsRecent k e n m
      → IsRecent k e n (room size m)
  IsRecent-room size k e n m b h = elim (Bool-cases (leb size (length m))) [
    | inl full ↦ ground (arith, IsRecent-drop k k e e n size m)
    | inr space ↦ ground arith
  ]

module _ {V : Type 0} where
  max_size-apply : (o : Op V) (c : TtlCache V) → (apply o c).max_size ≡ c.max_size
  unfolding set delete_where sweep
  max_size-apply (gets now k) c = elim (get-GetStep now k c) [
    | inl s ↦ rw (s) refl
    | inr (inl s) ↦ rw (s) refl
    | inr (inr (d, found, s)) ↦ rw (s) refl
  ]
  max_size-apply (sets now k v ttl) c = refl
  max_size-apply (deletes p) c = refl
  max_size-apply (sweeps now) c = refl

module _ {V : Type 0} (k : String) (e : Entry V) where
  get-IsRecent :
      (now n : ℕ) (j : String) (c : TtlCache V)
      → j ≢ k
      → IsRecent k e n c.store
      → IsRecent k e (n + 1) (get now j c).1.store
  get-IsRecent now n j c ne h = elim (get-GetStep now j c) [
    | inl s ↦ rw (s) (IsRecent-later k e n c.store h)
    | inr (inl s) ↦
        rw (s) (IsRecent-later k e n (remove j c.store) (IsRecent-remove k j e e n c.store ne h))
    | inr (inr (d, found, s)) ↦
        rw (s)
          (IsRecent-append k j e d n (remove j c.store) (IsRecent-remove k j e e n c.store ne h))
  ]

  set-IsRecent :
      (now n : ℕ) (j : String) (v : V) (ttl : Option ℕ) (c : TtlCache V)
      → j ≢ k
      → n + 1 < c.max_size
      → IsRecent k e n c.store
      → IsRecent k e (n + 1) (set now j v ttl c).store
  set-IsRecent now n j v ttl c ne b h = rw (set-store now j v ttl c) (
      IsRecent-append k j e _ n (room c.max_size (remove j c.store)) (
        IsRecent-room c.max_size k e n (remove j c.store) b
          (IsRecent-remove k j e e n c.store ne h)))

  apply-IsRecent :
      (o : Op V) (n : ℕ) (c : TtlCache V)
      → IsElsewhere k e.expires_at o
      → n + 1 < c.max_size
      → IsRecent k e n c.store
      → IsRecent k e (n + 1) (apply o c).store
  unfolding delete_where sweep
  apply-IsRecent (gets now j) n c q b h = get-IsRecent now n j c q h
  apply-IsRecent (sets now j v ttl) n c q b h = set-IsRecent now n j v ttl c q b h
  apply-IsRecent (deletes p) n c q b h =
      IsRecent-later k e n _ (IsRecent-delete k e n p c.store q h)
  apply-IsRecent (sweeps now) n c q b h =
      IsRecent-later k e n _ (IsRecent-sweep k e n now c.store q h)

  apply_all-lookup :
      (os : List (Op V)) (n : ℕ) (c : TtlCache V)
      → All (IsElsewhere k e.expires_at) os
      → n + length os < c.max_size
      → IsRecent k e n c.store
      → lookup k (apply_all os c).store ≡ some e
  apply_all-lookup [] n c q b h = IsRecent-lookup k e n c.store h
  apply_all-lookup (o ∷ os) n c q b h =
      apply_all-lookup os (n + 1) (apply o c) q.1 (rw (max_size-apply o c) (omega (arith, b)))
        (apply-IsRecent o n c q.0 (omega (arith, b)) h)

-- A value that was stored under a key is read back at any time before it expires, although up to
-- maximum - 1 operations on other keys come between (reads, writes, deletions that spare the key, and
-- sweeps before that time); from that time on it is not.
pub set_survives :
    {V : Type 0} (now t : ℕ) (k : String) (v : V) (ttl : Option ℕ) (c : TtlCache V)
    (os : List (Op V))
    → length os < c.max_size
    → All (IsElsewhere k (now + get_or ttl c.default_ttl_ms)) os
    → (get t k (apply_all os (set now k v ttl c))).0
      ≡ (if leb (now + get_or ttl c.default_ttl_ms) t then none else some v)
set_survives {V} now t k v ttl c os b q =
    elim (Bool-cases (leb (now + get_or ttl c.default_ttl_ms) t)) [
      | inl late ↦ rw (late) (ap (λ r. r.0) (get-expired t k stored after found (leb→le _ t late)))
      | inr live ↦ rw (live) (ap (λ r. r.0) (get-hit t k stored after found (ground arith)))
    ]
  where
    stored : Entry V
    stored = record { value = v; expires_at = now + get_or ttl c.default_ttl_ms }

    after : TtlCache V
    after = apply_all os (set now k v ttl c)

    found : lookup k after.store ≡ some stored
    found = apply_all-lookup k stored os 0 (set now k v ttl c) q (unfold set in omega (arith, b)) (
        rw (set-store now k v ttl c) (
          IsRecent-last k stored (room c.max_size (remove k c.store))
            (lookup-room c.max_size k c.store)))
