-- ===== src/Since/Cuts.antt =====
-- Rows in the order of their stamps: the largest stamp of a page, and where pages may be cut.
use catworld.Common.{
  ℕ, zero, suc, ◌≤◌, ◌<◌, String, ◌≡◌, ◌≢◌, refl, sym, ap, subst, ◌∙◌, inl, inr, true, false, some,
  List, [], ◌∷◌, ◌++◌, arith, length, get_or, All, Bool-cases,
}
use catworld.Common.TextOrder.{text_leb, text_leb_total, text_leb_antisymm, text_leb_trans}
use mathlib.Core.List.{Memᴰ}
use catworld.Since.{PageRow, max_from, max_stamp, take, drop, nth}

-- Each stamp is at most the stamps that follow.
abbrev pub Sorted : List PageRow → Type 0
Sorted [] = Unit
Sorted (r ∷ rows) = All (λ s. text_leb r.stamp s.stamp ≡ true) rows × Sorted rows

abbrev pub AtMost : String → List PageRow → Type 0
AtMost t = All (λ r. text_leb r.stamp t ≡ true)

abbrev pub Above : String → List PageRow → Type 0
Above t = All (λ r. text_leb r.stamp t ≡ false)

-- A cut of the rows: a page, whose largest stamp (or the text where it is empty) separates it from
-- the rest.
pub record IsCut (all page rest : List PageRow) (next : String) : Type 0 where
  pub whole : all ≡ page ++ rest
  pub delivered : AtMost next page
  pub kept : Above next rest

pub text_leb_refl : (t : String) → text_leb t t ≡ true
text_leb_refl t = ground (arith, text_leb_total t t)

All-mono :
    {P Q : PageRow → Type 0}
    → ((r : PageRow) → P r → Q r)
    → (rows : List PageRow) → All P rows
    → All Q rows
All-mono f [] a = tt
All-mono f (r ∷ rows) a = (f r a.0, All-mono f rows a.1)

-- The largest of a start and the stamps: above all of them, and at most every bound of them.
max_from-greatest :
    (m : String) (rows : List PageRow)
    → (t : String) × (max_from (some m) rows ≡ some t) × (text_leb m t ≡ true) × AtMost t rows
unfolding max_from
max_from-greatest m [] = (m, refl, text_leb_refl m, tt)
max_from-greatest m (r ∷ rows) = elim (Bool-cases (text_leb r.stamp m)) [
  | inl e ↦
      let (t, same, above, rest) = max_from-greatest m rows in
      (t, simp e same, above, (text_leb_trans r.stamp m t e above, rest))
  | inr e ↦
      let (t, same, above, rest) = max_from-greatest r.stamp rows in
      (
        t,
        simp e same,
        text_leb_trans m r.stamp t (ground (arith, e, text_leb_total r.stamp m)) above,
        (above, rest),
      )
]

max_from-least :
    (b m : String) (rows : List PageRow)
    → text_leb m b ≡ true
    → AtMost b rows
    → (t : String) × (max_from (some m) rows ≡ some t) × (text_leb t b ≡ true)
unfolding max_from
max_from-least b m [] h a = (m, refl, h)
max_from-least b m (r ∷ rows) h a = elim (Bool-cases (text_leb r.stamp m)) [
  | inl e ↦ let (t, same, below) = max_from-least b m rows h a.1 in (t, simp e same, below)
  | inr e ↦ let (t, same, below) = max_from-least b r.stamp rows a.0 a.1 in (t, simp e same, below)
]

-- The largest stamp of some rows, if it is known to be at most that of a row among them.
pub max_stamp-is :
    (x : PageRow) (rows : List PageRow)
    → AtMost x.stamp rows
    → Memᴰ x rows
    → max_stamp rows ≡ some x.stamp
unfolding max_from
max_stamp-is x [] h m = elim m [ ]
max_stamp-is x (r ∷ rows) h m =
    let (t, same, above, rest) = max_from-greatest r.stamp rows in
    let (t', same', below) = max_from-least x.stamp r.stamp rows h.0 h.1 in
    let least : text_leb t x.stamp ≡ true = rw (one t t' (sym same ∙ same')) below in
    let most : text_leb x.stamp t ≡ true = among t (r ∷ rows) (above, rest) m in
    same ∙ ap some (text_leb_antisymm t x.stamp least most)
  where
    one : (t t' : String) → some t ≡ some t' → t ≡ t'
    one t t' e = cc

    among :
        (t : String) (rows : List PageRow) → AtMost t rows → Memᴰ x rows → text_leb x.stamp t ≡ true
    among t [] a m = elim m [ ]
    among t (s ∷ rows) a (Memᴰ.head e) = rw (e) a.0
    among t (s ∷ rows) a (Memᴰ.tail m) = among t rows a.1 m

-- Of any rows, the largest stamp (or the text where there are none) is at least each stamp.
pub max_stamp-AtMost :
    (since : String) (rows : List PageRow) → AtMost (get_or (max_stamp rows) since) rows
unfolding max_from
max_stamp-AtMost since [] = tt
max_stamp-AtMost since (r ∷ rows) =
    let (t, same, above, rest) = max_from-greatest r.stamp rows in
    subst (λ o. AtMost (get_or o since) (r ∷ rows)) (sym same) (above, rest)

pub take-drop : (n : ℕ) (rows : List PageRow) → rows ≡ take n rows ++ drop n rows
take-drop zero rows = refl
take-drop (suc n) [] = refl
take-drop (suc n) (r ∷ rows) = ap (λ rs. r ∷ rs) (take-drop n rows)

All-nth :
    (P : PageRow → Type 0) (m : ℕ) (rows : List PageRow) (x : PageRow)
    → All P rows
    → nth m rows ≡ some x
    → P x
All-nth P m [] x a e = cc
All-nth P zero (r ∷ rows) x a e = subst P (same e) a.0
  where
    same : some r ≡ some x → r ≡ x
    same e = cc
All-nth P (suc m) (r ∷ rows) x a e = All-nth P m rows x a.1 e

later_above :
    (a b t : String) → text_leb a b ≡ true → a ≢ b → text_leb b t ≡ true → text_leb t a ≡ false
later_above a b t h ne k = elim (Bool-cases (text_leb t a)) [
  | inl e ↦ absurd (ne (text_leb_antisymm a b h (text_leb_trans b t a k e)))
  | inr e ↦ e
]

Above-later :
    (a b : String) (rows : List PageRow)
    → text_leb a b ≡ true
    → a ≢ b
    → All (λ r. text_leb b r.stamp ≡ true) rows
    → Above a rows
Above-later a b [] h ne k = tt
Above-later a b (r ∷ rows) h ne k =
    (later_above a b r.stamp h ne k.0, Above-later a b rows h ne k.1)

abbrev pub IsStrictCut : ℕ → List PageRow → PageRow → Type 0
IsStrictCut n all x = AtMost x.stamp (take n all) × Above x.stamp (drop n all) × Memᴰ x (take n all)

strict_base :
    (r q : PageRow) (rows : List PageRow)
    → Sorted (r ∷ q ∷ rows)
    → r.stamp ≢ q.stamp
    → IsStrictCut 1 (r ∷ q ∷ rows) r
strict_base r q rows s ne = (
  (text_leb_refl r.stamp, tt),
  (
    later_above r.stamp q.stamp q.stamp s.0.0 ne (text_leb_refl q.stamp),
    Above-later r.stamp q.stamp rows s.0.0 ne s.1.0,
  ),
  Memᴰ.head refl,
)

-- Between two neighbours with different stamps the rows may be cut.
pub strict_cut :
    (m : ℕ) (all : List PageRow) (x y : PageRow)
    → Sorted all
    → nth m all ≡ some x
    → nth (suc m) all ≡ some y
    → x.stamp ≢ y.stamp
    → IsStrictCut (suc m) all x
strict_cut m [] x y s e f ne = cc
strict_cut zero (r ∷ []) x y s e f ne = cc
strict_cut zero (r ∷ q ∷ rows) x y s e f ne = subst (IsStrictCut 1 (r ∷ q ∷ rows)) (first e) (
    strict_base r q rows s
      (λ h. ne (ap (λ o. o.stamp) (sym (first e)) ∙ (h ∙ ap (λ o. o.stamp) (second f)))))
  where
    first : some r ≡ some x → r ≡ x
    first e = cc

    second : some q ≡ some y → q ≡ y
    second f = cc
strict_cut (suc m) (r ∷ rows) x y s e f ne =
    let (below, above, here) = strict_cut m rows x y s.1 e f ne in
    ((All-nth (λ t. text_leb r.stamp t.stamp ≡ true) m rows x s.0 e, below), above, Memᴰ.tail here)

-- Such a cut as the page and its largest stamp.
pub strict-IsCut :
    (n : ℕ) (all : List PageRow) (x : PageRow) (since : String)
    → IsStrictCut n all x
    → IsCut all (take n all) (drop n all) (get_or (max_stamp (take n all)) since)
strict-IsCut n all x since (below, above, here) =
    subst (λ o. IsCut all (take n all) (drop n all) (get_or o since))
      (sym (max_stamp-is x (take n all) below here))
      (record { whole = take-drop n all; delivered = below; kept = above })

pub whole-IsCut :
    (all : List PageRow) (since : String) → IsCut all all [] (get_or (max_stamp all) since)
whole-IsCut all since = record {
  whole = sym (append_nil all);
  delivered = max_stamp-AtMost since all;
  kept = tt;
}
  where
    append_nil : (rows : List PageRow) → (rows ++ []) ≡ rows
    append_nil [] = refl
    append_nil (r ∷ rows) = ap (λ rs. r ∷ rs) (append_nil rows)

-- What is read of the table and what is left.
pub take_all : (n : ℕ) (all : List PageRow) → length (take n all) < n → take n all ≡ all
take_all zero all h = absurd (omega (arith, h))
take_all (suc n) [] h = refl
take_all (suc n) (r ∷ all) h = ap (λ rs. r ∷ rs) (take_all n all (omega (arith, h)))

pub nth-take : (m n : ℕ) (all : List PageRow) → m < n → nth m (take n all) ≡ nth m all
nth-take m zero all h = absurd (omega (arith, h))
nth-take m (suc n) [] h = refl
nth-take zero (suc n) (r ∷ all) h = refl
nth-take (suc m) (suc n) (r ∷ all) h = nth-take m n all (omega (arith, h))

pub take-take : (m n : ℕ) (all : List PageRow) → m ≤ n → take m (take n all) ≡ take m all
take-take zero n all h = refl
take-take (suc m) zero all h = absurd (omega (arith, h))
take-take (suc m) (suc n) [] h = refl
take-take (suc m) (suc n) (r ∷ all) h = ap (λ rs. r ∷ rs) (take-take m n all (omega (arith, h)))
