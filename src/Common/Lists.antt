-- ===== src/Common/Lists.antt =====
-- Lists measured by native numbers, `every`, `some` and `includes`, and predicates over a list.
use Prim.Native.Nat.{ℕ, suc, ◌+◌, ◌≤◌}
use Prim.Native.String.{String}
use mathlib.Core.Path.{◌≡◌, refl, sym, ap, ◌∙◌}
use mathlib.Core.Logic.{◌⊎◌, inl, inr}
use mathlib.Core.Bool.{Bool, true, false, ◌&&◌, ◌||◌}
use mathlib.Core.List.{List, [], ◌∷◌, ◌++◌, Memᴰ}
use native.Mathlib.Omega.{arith}
use text.Mathlib.TextEquality.{eq_iff}
use catworld.Common.Tests.{str_eq, if◌then◌else◌, ◌==◌, Bool-cases}

module _ {ℓ} {A : Type ℓ} where
  abbrev pub length : List A → ℕ
  length [] = 0
  length (x ∷ xs) = suc (length xs)

  pub length-append : (xs ys : List A) → length (xs ++ ys) ≡ length xs + length ys
  length-append [] ys = omega arith
  length-append (x ∷ xs) ys = omega (arith, length-append xs ys)

  -- `xs.filter(p)`, `xs.some(p)` and `xs.every(p)` for a Boolean test.
  abbrev pub keep : (A → Bool) → List A → List A
  keep p [] = []
  keep p (x ∷ xs) = let rest = keep p xs in if p x then x ∷ rest else rest

  abbrev pub any : (A → Bool) → List A → Bool
  any p [] = false
  any p (x ∷ xs) = p x || any p xs

  abbrev pub every : (A → Bool) → List A → Bool
  every p [] = true
  every p (x ∷ xs) = p x && every p xs

  abbrev pub All {κ} : (A → Type κ) → List A → Type κ
  All P [] = Unit
  All P (x ∷ xs) = P x × All P xs

  pub length-keep-le : (p : A → Bool) (xs : List A) → length (keep p xs) ≤ length xs
  length-keep-le p [] = omega arith
  length-keep-le p (x ∷ xs) = ground (arith, length-keep-le p xs)

  pub any_of_Memᴰ : (p : A → Bool) (a : A) (xs : List A) → Memᴰ a xs → p a ≡ true → any p xs ≡ true
  any_of_Memᴰ p a [] m h = elim m [ ]
  any_of_Memᴰ p a (x ∷ xs) (Memᴰ.head e) h = let e' : p x ≡ true = rw (← e) h in rw e'
  any_of_Memᴰ p a (x ∷ xs) (Memᴰ.tail m) h = ground (arith, any_of_Memᴰ p a xs m h)

  pub Memᴰ_of_any :
      (p : A → Bool) (xs : List A) → any p xs ≡ true → (a : A) × Memᴰ a xs × (p a ≡ true)
  Memᴰ_of_any p (x ∷ xs) h = elim (split (p x) (any p xs) h) [
    | inl here ↦ (x, Memᴰ.head refl, here)
    | inr later ↦ let (a, m, e) = Memᴰ_of_any p xs later in (a, Memᴰ.tail m, e)
  ]
    where
      split : (b c : Bool) → (b || c) ≡ true → (b ≡ true) ⊎ (c ≡ true)
      split true c h = inl refl
      split false c h = inr h
  Memᴰ_of_any p [] h = cc

-- `xs.includes(s)`.
abbrev pub includes : String → List String → Bool
includes s = any (λ t. str_eq t s)

abbrev pub includes_nat : ℕ → List ℕ → Bool
includes_nat n = any (λ m. m == n)

pub Memᴰ_of_includes : (s : String) (xs : List String) → includes s xs ≡ true → Memᴰ s xs
Memᴰ_of_includes s xs h =
    let (t, m, e) = Memᴰ_of_any (λ t. str_eq t s) xs h in moved t m ((eq_iff t s).0 e)
  where
    moved : (t : String) → Memᴰ t xs → t ≡ s → Memᴰ s xs
    moved t m e = rw e at m

module _ {ℓ} {A : Type ℓ} where
  pub Memᴰ_of_keep :
      (p : A → Bool) (a : A) (xs : List A) → Memᴰ a (keep p xs) → Memᴰ a xs × (p a ≡ true)
  Memᴰ_of_keep p a [] m = elim m [ ]
  Memᴰ_of_keep p a (x ∷ xs) m = elim (Bool-cases (p x)) [
    | inl e ↦ taken e (Memᴰ_of_keep p a xs) (simp e at m)
    | inr e ↦ let (rest, h) = Memᴰ_of_keep p a xs (simp e at m) in (Memᴰ.tail rest, h)
  ]
    where
      taken :
          p x ≡ true
          → (Memᴰ a (keep p xs) → Memᴰ a xs × (p a ≡ true))
          → Memᴰ a (x ∷ keep p xs)
          → Memᴰ a (x ∷ xs) × (p a ≡ true)
      taken e rest (Memᴰ.head same) = (Memᴰ.head same, ap p same ∙ e)
      taken e rest (Memᴰ.tail m) = let (later, h) = rest m in (Memᴰ.tail later, h)

  pub Memᴰ-keep : (p : A → Bool) (a : A) (xs : List A) → Memᴰ a xs → p a ≡ true → Memᴰ a (keep p xs)
  Memᴰ-keep p a [] m h = elim m [ ]
  Memᴰ-keep p a (x ∷ xs) (Memᴰ.head same) h =
      let e : p x ≡ true = ap p (sym same) ∙ h in simp e (Memᴰ.head same)
  Memᴰ-keep p a (x ∷ xs) (Memᴰ.tail m) h = elim (Bool-cases (p x)) [
    | inl e ↦ simp e (Memᴰ.tail (Memᴰ-keep p a xs m h))
    | inr e ↦ simp e (Memᴰ-keep p a xs m h)
  ]
