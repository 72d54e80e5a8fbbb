-- ===== src/Common/Dict.antt =====
-- JavaScript's `Map` with text keys: an association list in insertion order. `insert` of a key that
-- is there keeps its place, a new key goes to the end; `remove` is `delete`.
use Prim.Native.String.{String}
use Prim.Native.Nat.{◌+◌, ◌≤◌}
use mathlib.Core.Path.{◌≡◌, refl}
use mathlib.Core.Option.{Option, none, some}
use mathlib.Core.List.{List, [], ◌∷◌, ◌++◌, map}
use native.Mathlib.Omega.{arith}
use text.Mathlib.TextEquality.{eq_iff}
use catworld.Common.Tests.{str_eq, str_eq_refl, if◌then◌else◌}
use catworld.Common.Lists.{length}

module _ {ℓ} {V : Type ℓ} where
  unfoldable pub lookup : String → List (String × V) → Option V
  lookup k [] = none
  lookup k ((j, v) ∷ m) = if str_eq j k then some v else lookup k m

  unfoldable pub insert : String → V → List (String × V) → List (String × V)
  insert k v [] = (k, v) ∷ []
  insert k v ((j, w) ∷ m) = if str_eq j k then (j, v) ∷ m else (j, w) ∷ insert k v m

  unfoldable pub remove : String → List (String × V) → List (String × V)
  remove k [] = []
  remove k ((j, v) ∷ m) = let rest = remove k m in if str_eq j k then rest else (j, v) ∷ rest

  abbrev pub values : List (String × V) → List V
  values = map (λ e. e.1)

  pub lookup-cons :
      (k j : String) (v : V) (m : List (String × V))
      → lookup k ((j, v) ∷ m) ≡ (if str_eq j k then some v else lookup k m)
  unfolding lookup
  lookup-cons k j v m = refl

  pub lookup-insert :
      (k j : String) (v : V) (m : List (String × V))
      → lookup j (insert k v m) ≡ (if str_eq k j then some v else lookup j m)
  unfolding lookup insert
  lookup-insert k j v [] = refl
  lookup-insert k j v ((key, old) ∷ m) =
      ground (lookup-insert k j v m, eq_iff key j, eq_iff key k, eq_iff k j, arith)

  pub lookup-remove :
      (k j : String) (m : List (String × V))
      → lookup j (remove k m) ≡ (if str_eq k j then none else lookup j m)
  unfolding lookup remove
  lookup-remove k j [] = ground arith
  lookup-remove k j ((i, w) ∷ m) =
      ground (arith, eq_iff k j, eq_iff i k, eq_iff i j, lookup-remove k j m)

  pub lookup-insert_self :
      (k : String) (v : V) (m : List (String × V)) → lookup k (insert k v m) ≡ some v
  lookup-insert_self k v m = rw (lookup-insert k k v m, str_eq_refl k)

  pub length-insert-le :
      (k : String) (v : V) (m : List (String × V)) → length (insert k v m) ≤ length m + 1
  unfolding insert
  length-insert-le k v [] = omega arith
  length-insert-le k v ((j, w) ∷ m) = ground (arith, length-insert-le k v m)

  pub length-remove-le : (k : String) (m : List (String × V)) → length (remove k m) ≤ length m
  unfolding remove
  length-remove-le k [] = omega arith
  length-remove-le k ((j, w) ∷ m) = ground (arith, length-remove-le k m)

  pub length-remove-lt :
      (k : String) (v : V) (m : List (String × V))
      → lookup k m ≡ some v
      → length (remove k m) + 1 ≤ length m
  unfolding lookup remove
  length-remove-lt k v [] h = cc
  length-remove-lt k v ((j, w) ∷ m) h = ground (arith, length-remove-lt k v m, length-remove-le k m)

  -- A key that is not there goes to the end.
  pub insert_new :
      (k : String) (v : V) (m : List (String × V))
      → lookup k m ≡ none
      → insert k v m ≡ m ++ (k, v) ∷ []
  unfolding insert lookup
  insert_new k v [] h = refl
  insert_new k v ((j, w) ∷ m) h = ground (arith, insert_new k v m)

  -- Every entry of the map satisfies a predicate of its key and value.
  abbrev pub Each {κ} : (String → V → Type κ) → List (String × V) → Type κ
  Each P [] = Unit
  Each P ((k, v) ∷ m) = P k v × Each P m

  module _ {κ} (P : String → V → Type κ) where
    pub Each-lookup :
        (k : String) (v : V) (m : List (String × V)) → Each P m → lookup k m ≡ some v → P k v
    unfolding lookup
    Each-lookup k v [] h e = cc
    Each-lookup k v ((j, w) ∷ m) h e = ground (arith, eq_iff j k, Each-lookup k v m h.1)

    pub Each-insert :
        (k : String) (v : V) (m : List (String × V)) → Each P m → P k v → Each P (insert k v m)
    unfolding insert
    Each-insert k v [] h p = (p, tt)
    Each-insert k v ((j, w) ∷ m) h p = ground (arith, eq_iff j k, Each-insert k v m h.1 p)

    pub Each-remove : (k : String) (m : List (String × V)) → Each P m → Each P (remove k m)
    unfolding remove
    Each-remove k [] h = tt
    Each-remove k ((j, w) ∷ m) h = ground (arith, Each-remove k m h.1)
