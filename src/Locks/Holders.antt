-- ===== src/Locks/Holders.antt =====
-- The holders of the owners of locks are different, and no step changes them.
use mathlib.Core.List.{Memᴰ}
use catworld.Common.{
  ◌≡◌, refl, sym, inl, inr, Bool, true, false, List, [], ◌∷◌, arith, if◌then◌else◌, str_eq, eq_iff,
  All, keep, Bool-cases,
}
use catworld.Jobs.{update_where}
use catworld.Jobs.Tables.{All-keep, All-Memᴰ, All-map}
use catworld.Locks.Steps.{Owner}

-- The holders of a list of owners are different.
abbrev pub Apart : List Owner → Type 0
Apart [] = Unit
Apart (l ∷ ls) = All (λ k. str_eq k.holder l.holder ≡ false) ls × Apart ls

pub Apart-update :
    (p : Owner → Bool) (f : Owner → Owner) (ls : List Owner)
    → ((l : Owner) → (f l).holder ≡ l.holder)
    → Apart ls
    → Apart (update_where p f ls)
Apart-update p f [] h a = tt
Apart-update p f (l ∷ ls) h a = (rest ls a.0, Apart-update p f ls h a.1)
  where
    same : (k : Owner) → (if p k then f k else k).holder ≡ k.holder
    same k = elim (Bool-cases (p k)) [ inl e ↦ simp e (h k) | inr e ↦ simp e refl ]

    rest :
        (ks : List Owner)
        → All (λ k. str_eq k.holder l.holder ≡ false) ks
        → All (λ k. str_eq k.holder (if p l then f l else l).holder ≡ false) (update_where p f ks)
    rest [] o = tt
    rest (k ∷ ks) o = (rw (same k, same l) o.0, rest ks o.1)

pub Apart-keep : (q : Owner → Bool) (ls : List Owner) → Apart ls → Apart (keep q ls)
Apart-keep q [] a = tt
Apart-keep q (l ∷ ls) a = elim (Bool-cases (q l)) [
  | inl e ↦ simp e (All-keep _ q ls a.0, Apart-keep q ls a.1)
  | inr e ↦ simp e (Apart-keep q ls a.1)
]

-- Only one of the owners has the holder of a given one.
pub Apart-one :
    (l : Owner) (ls : List Owner)
    → Apart ls
    → Memᴰ l ls
    → All (λ k. str_eq k.holder l.holder ≡ true → k ≡ l) ls
Apart-one l [] a m = tt
Apart-one l (k ∷ ks) a (Memᴰ.head e) =
    (λ _. sym e, All-map _ _ ks (λ i o h. absurd (cc (e, o, h))) a.0)
Apart-one l (k ∷ ks) a (Memᴰ.tail m) = (λ h. absurd (other h), Apart-one l ks a.1 m)
  where
    other : str_eq k.holder l.holder ≡ true → ⊥
    other h =
        let o = All-Memᴰ (λ i. str_eq i.holder k.holder ≡ false) l ks a.0 m in
        ground (arith, eq_iff k.holder l.holder, eq_iff l.holder k.holder)
