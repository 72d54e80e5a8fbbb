-- ===== src/Cache.antt =====
-- server/cache/ttl-cache.ts: `TtlCache`, with texts for keys. The store is JavaScript's `Map`, so its
-- first entry is the one that was used least recently. `now` is `Date.now()`.
pub mod Recency
pub mod Laws
pub mod Survival
pub mod Tests
use catworld.Common.{
  ℕ, ◌+◌, String, Bool, true, false, Option, none, some, List, [], ◌∷◌, if◌then◌else◌, leb, length,
  get_or, lookup, insert, remove,
}

pub record Entry {ℓ} (V : Type ℓ) : Type ℓ where
  pub value : V
  pub expires_at : ℕ

pub record TtlCache {ℓ} (V : Type ℓ) : Type ℓ where
  pub default_ttl_ms : ℕ
  pub max_size : ℕ
  pub store : List (String × Entry V)

-- The oldest entry, if there is one, goes.
abbrev pub drop_oldest {ℓ} : {A : Type ℓ} → List A → List A
drop_oldest [] = []
drop_oldest (e ∷ m) = m

module _ {ℓ} {V : Type ℓ} where
  abbrev pub with_store : List (String × Entry V) → TtlCache V → TtlCache V
  with_store m c = record c { store = m }

  unfoldable pub get : ℕ → String → TtlCache V → Option V × TtlCache V
  get now k c = elim (lookup k c.store) [
    | none ↦ (none, c)
    | some e ↦
        if leb e.expires_at now
        then (none, with_store (remove k c.store) c)
        else (some e.value, with_store (insert k e (remove k c.store)) c)
  ]

  unfoldable pub set : ℕ → String → V → Option ℕ → TtlCache V → TtlCache V
  set now k v ttl c =
      let others = remove k c.store in
      let kept = if leb c.max_size (length others) then drop_oldest others else others in
      let t = get_or ttl c.default_ttl_ms in
      with_store (insert k (record { value = v; expires_at = now + t }) kept) c

  pub delete_entries : (String → Bool) → List (String × Entry V) → List (String × Entry V)
  delete_entries p [] = []
  delete_entries p ((k, e) ∷ m) =
      let rest = delete_entries p m in if p k then rest else (k, e) ∷ rest

  unfoldable pub delete_where : (String → Bool) → TtlCache V → TtlCache V
  unfolding delete_entries
  delete_where p c = with_store (delete_entries p c.store) c

  pub sweep_entries : ℕ → List (String × Entry V) → List (String × Entry V)
  sweep_entries now [] = []
  sweep_entries now ((k, e) ∷ m) =
      let rest = sweep_entries now m in if leb e.expires_at now then rest else (k, e) ∷ rest

  unfoldable pub sweep : ℕ → TtlCache V → TtlCache V
  unfolding sweep_entries
  sweep now c = with_store (sweep_entries now c.store) c
