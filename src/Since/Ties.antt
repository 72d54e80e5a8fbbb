-- ===== src/Since/Ties.antt =====
-- Where the rows of a group of equal stamps end, and the branches of the first page.
use catworld.Common.{
  ℕ, zero, suc, ◌≤◌, ◌<◌, String, ◌≡◌, ◌≢◌, refl, sym, subst, ◌∙◌, inl, inr, Bool, true, false,
  Option, none, some, List, [], ◌∷◌, arith, if◌then◌else◌, length, get_or, str_eq, eq_iff,
  Bool-cases, Option-cases,
}
use catworld.Since.{
  Cursor, PageRow, Settled, settled, max_stamp, take, nth, last_row, same_stamp, find_other,
  with_cursor, clean_cut, tied_page, settle_first_page, cursor_of,
}

module _ (l : ℕ) (since : String) (first big : List PageRow) where
  pub settle_whole :
      length first ≤ suc l
      → settle_first_page (suc l) since first big
        ≡ some (settled first false none (get_or (max_stamp first) since) false)
  unfolding settle_first_page
  settle_whole h = ground arith

  pub settle_more :
      (r : PageRow)
      → suc l < length first
      → nth l first ≡ some r
      → settle_first_page (suc l) since first big ≡ (
          if same_stamp (nth (suc l) first) (some r)
          then tied_page (suc l) since r.stamp first big
          else some (clean_cut (take (suc l) first) since))
  unfolding settle_first_page
  settle_more r h e = ground (arith, e)

pub nth-some :
    (n : ℕ) (rows : List PageRow) → n < length rows → (r : PageRow) × (nth n rows ≡ some r)
nth-some n [] h = absurd (omega (arith, h))
nth-some zero (r ∷ rows) h = (r, refl)
nth-some (suc n) (r ∷ rows) h = nth-some n rows (omega (arith, h))

module _ (t : String) (r : PageRow) (rows : List PageRow) where
  other_here : str_eq r.stamp t ≡ false → find_other t (r ∷ rows) ≡ some zero
  other_here h = simp h refl

  other_none : str_eq r.stamp t ≡ true → find_other t rows ≡ none → find_other t (r ∷ rows) ≡ none
  other_none h e = ground (arith, h, e)

  other_later :
      (k : ℕ)
      → str_eq r.stamp t ≡ true
      → find_other t rows ≡ some k
      → find_other t (r ∷ rows) ≡ some (suc k)
  other_later k h e = ground (arith, h, e)

-- A row with another stamp, after rows with the stamp only.
abbrev pub IsOther : String → ℕ → List PageRow → Type 0
IsOther t n rows = (y : PageRow) × (nth n rows ≡ some y) × (y.stamp ≢ t)

pub find_other-some :
    (t : String) (rows : List PageRow) (n : ℕ) → find_other t rows ≡ some n → IsOther t n rows
find_other-some t [] n e = cc
find_other-some t (r ∷ rows) n e = elim (Bool-cases (str_eq r.stamp t)) [
  | inr h ↦
      subst (λ n. IsOther t n (r ∷ rows)) (path zero n (sym (other_here t r rows h) ∙ e))
        (r, refl, λ same. ground (arith, h, eq_iff r.stamp t, same))
  | inl h ↦ elim (Option-cases (find_other t rows)) [
    | inl gone ↦ absurd (none_some n (sym (other_none t r rows h gone) ∙ e))
    | inr (k, found) ↦
        subst (λ n. IsOther t n (r ∷ rows))
          (path (suc k) n (sym (other_later t r rows k h found) ∙ e))
          (find_other-some t rows k found)
  ]
]
  where
    path : (m n : ℕ) → some m ≡ some n → m ≡ n
    path m n e = cc

    none_some : (n : ℕ) → none ≡ some n → ⊥
    none_some n e = cc

-- The row before it has the stamp.
pub find_other-before :
    (t : String) (rows : List PageRow) (m : ℕ)
    → find_other t rows ≡ some (suc m)
    → (x : PageRow) × (nth m rows ≡ some x) × (x.stamp ≡ t)
find_other-before t [] m e = cc
find_other-before t (r ∷ rows) m e = elim (Bool-cases (str_eq r.stamp t)) [
  | inr h ↦ absurd (zero_suc m (sym (other_here t r rows h) ∙ e))
  | inl h ↦ elim (Option-cases (find_other t rows)) [
    | inl gone ↦ absurd (none_some m (sym (other_none t r rows h gone) ∙ e))
    | inr (k, found) ↦
        subst (λ m. Before m) (path k m (sym (other_later t r rows k h found) ∙ e))
          (before h (find_other-before t rows) k found)
  ]
]
  where
    Before : ℕ → Type 0
    Before m = (x : PageRow) × (nth m (r ∷ rows) ≡ some x) × (x.stamp ≡ t)

    path : (k m : ℕ) → some (suc k) ≡ some (suc m) → k ≡ m
    path k m e = ground arith

    none_some : (n : ℕ) → none ≡ some (suc n) → ⊥
    none_some n e = cc

    zero_suc : (n : ℕ) → some zero ≡ some (suc n) → ⊥
    zero_suc n e = ground arith

    before :
        str_eq r.stamp t ≡ true
        → ((k : ℕ)
            → find_other t rows ≡ some (suc k)
            → (x : PageRow) × (nth k rows ≡ some x) × (x.stamp ≡ t))
        → (k : ℕ) → find_other t rows ≡ some k
        → Before k
    before h rest zero found = (r, refl, (eq_iff r.stamp t).0 h)
    before h rest (suc k) found = rest k found

pub last_some : (r : PageRow) (rows : List PageRow) → (x : PageRow) × (last_row (r ∷ rows) ≡ some x)
last_some r [] = (r, refl)
last_some r (s ∷ rows) = last_some s rows

pub nth-take-some :
    (m n : ℕ) (rows : List PageRow) (x : PageRow)
    → nth m (take n rows) ≡ some x
    → (nth m rows ≡ some x) × (m < n)
nth-take-some m zero rows x e = cc
nth-take-some m (suc n) [] x e = cc
nth-take-some zero (suc n) (r ∷ rows) x e = (e, omega arith)
nth-take-some (suc m) (suc n) (r ∷ rows) x e =
    let (f, h) = nth-take-some m n rows x e in (f, omega (arith, h))

-- A page with a cursor, if it has a last row.
pub with_cursor-some :
    (page : List PageRow) (since : String) (b : Bool) (s : Settled)
    → with_cursor page since b ≡ some s
    → (cursor : Option Cursor) × (settled page true cursor (get_or (max_stamp page) since) b ≡ s)
with_cursor-some [] since b s e = cc
with_cursor-some (r ∷ page) since b s e =
    let (x, at) = last_some r page in (cursor_of x, ground (arith, at, e))
