-- ===== src/Since/CursorPage.antt =====
-- A page with a cursor never throws and never moves the next `since` past a row that is left.
use catworld.Common.{
  ℕ, zero, suc, ◌≤◌, ◌<◌, String, ◌≡◌, refl, sym, ap, subst, ◌∙◌, ◌⊎◌, inl, inr, true, false,
  Option, none, some, List, [], ◌∷◌, ◌++◌, arith, leb, length, get_or, All, str_eq, eq_iff,
  Bool-cases, leb→le, IfSome,
}
use catworld.Common.TextOrder.{text_leb, text_leb_antisymm, text_leb_trans}
use catworld.Since.{
  Cursor, PageRow, Settled, settled, max_txt, max_stamp, take, drop, last_row, cursor_of,
  boundary_from, shape_rows_page,
}
use catworld.Since.Cuts.{
  Sorted, AtMost, Above, max_stamp-AtMost, take-drop, take_all, take-take, text_leb_refl,
}
use catworld.Since.Ties.{last_some}

abbrev IsBefore : String → Option String → Type 0
IsBefore last = IfSome (λ t. text_leb last t ≡ false)

boundary-IsBefore :
    (last : String) (m : Option String) (rows : List PageRow)
    → IsBefore last m
    → AtMost last rows
    → IsBefore last (boundary_from last m rows)
unfolding boundary_from
boundary-IsBefore last m [] h a = h
boundary-IsBefore last m (r ∷ rows) h a = elim (Bool-cases (str_eq r.stamp last)) [
  | inl same ↦ simp same (boundary-IsBefore last m rows h a.1)
  | inr other ↦
      simp other (boundary-IsBefore last (max_txt m (some r.stamp)) rows (larger other m h) a.1)
]
  where
    before : str_eq r.stamp last ≡ false → text_leb last r.stamp ≡ false
    before other = ground (arith, text_leb_antisymm r.stamp last a.0, eq_iff r.stamp last, other)

    larger :
        str_eq r.stamp last ≡ false
        → (m : Option String) → IsBefore last m
        → IsBefore last (max_txt m (some r.stamp))
    larger other none h = before other
    larger other (some t) h = elim (Bool-cases (text_leb r.stamp t)) [
      | inl e ↦ simp e h
      | inr e ↦ simp e (before other)
    ]

All-last :
    (P : PageRow → Type 0) (page rest : List PageRow) (r : PageRow)
    → All P (page ++ rest)
    → last_row page ≡ some r
    → P r
All-last P [] rest r a e = cc
All-last P (x ∷ []) rest r a e = subst P (same e) a.0
  where
    same : some x ≡ some r → x ≡ r
    same e = cc
All-last P (x ∷ y ∷ page) rest r a e = All-last P (y ∷ page) rest r a.1 e

-- The last row of the page bounds the page from above and the rest from below.
last-bounds :
    (page rest : List PageRow) (r : PageRow)
    → Sorted (page ++ rest)
    → last_row page ≡ some r
    → AtMost r.stamp page × All (λ y. text_leb r.stamp y.stamp ≡ true) rest
last-bounds [] rest r s e = cc
last-bounds (x ∷ []) rest r s e =
    subst (λ r. AtMost r.stamp (x ∷ []) × All (λ y. text_leb r.stamp y.stamp ≡ true) rest) (same e)
      ((text_leb_refl x.stamp, tt), s.0)
  where
    same : some x ≡ some r → x ≡ r
    same e = cc
last-bounds (x ∷ y ∷ page) rest r s e =
    let (below, above) = last-bounds (y ∷ page) rest r s.1 e in
    ((All-last (λ t. text_leb x.stamp t.stamp ≡ true) (y ∷ page) rest r s.0 e, below), above)

-- Rows at or after the last stamp lie above what comes before it, and above the old `since`.
Above-boundary :
    (last since : String) (m : Option String) (rest : List PageRow)
    → IsBefore last m
    → All (λ y. text_leb last y.stamp ≡ true) rest
    → Above since rest
    → Above (get_or m since) rest
Above-boundary last since none rest h a b = b
Above-boundary last since (some t) [] h a b = tt
Above-boundary last since (some t) (y ∷ rest) h a b = (
  elim (Bool-cases (text_leb y.stamp t)) [
    | inl e ↦ absurd (true_false (sym (text_leb_trans last y.stamp t a.0 e) ∙ h))
    | inr e ↦ e
  ],
  Above-boundary last since (some t) rest h a.1 b.1,
)
  where
    true_false : true ≡ false → ⊥
    true_false e = cc

All-append : (P : PageRow → Type 0) (page rest : List PageRow) → All P (page ++ rest) → All P rest
All-append P [] rest a = a
All-append P (x ∷ page) rest a = All-append P page rest a.1

-- A page of the rows after a cursor.
pub record IsLossless (limit : ℕ) (after : List PageRow) (s : Settled) : Type 0 where
  pub page : s.page ≡ take limit after
  pub kept : Above s.next_since_txt (drop limit after)
  pub complete : (s.has_more ≡ true) ⊎ ((drop limit after ≡ []) × AtMost s.next_since_txt s.page)

module _ (l : ℕ) (since : String) (after : List PageRow) (sorted : Sorted after)
    (new : Above since after) where
  more-IsLossless :
      (r : PageRow) (cursor : Option Cursor)
      → last_row (take (suc l) after) ≡ some r
      → IsLossless (suc l) after (
          settled
            (take (suc l) after)
            true
            cursor
            (get_or (boundary_from r.stamp none (take (suc l) after)) since)
            false)
  more-IsLossless r cursor e =
      let parts = take-drop (suc l) after in
      let (below, above) =
        last-bounds (take (suc l) after) (drop (suc l) after) r (subst Sorted parts sorted) e in
      record {
        page = refl;
        kept =
            Above-boundary r.stamp since (boundary_from r.stamp none (take (suc l) after))
              (drop (suc l) after) (boundary-IsBefore r.stamp none (take (suc l) after) tt below)
              above
              (All-append (λ y. text_leb y.stamp since ≡ false) (take (suc l) after)
                (drop (suc l) after) (subst (Above since) parts new));
        complete = inl refl;
      }

take_short :
    (n : ℕ) (rows : List PageRow) → length rows ≤ n → (take n rows ≡ rows) × (drop n rows ≡ [])
take_short zero [] h = (refl, refl)
take_short zero (r ∷ rows) h = absurd (omega (arith, h))
take_short (suc n) [] h = (refl, refl)
take_short (suc n) (r ∷ rows) h =
    let (e, f) = take_short n rows (omega (arith, h)) in (ap (λ rs. r ∷ rs) e, f)

module _ (l : ℕ) (since : String) (rows : List PageRow) where
  shape_last :
      length rows ≤ suc l
      → shape_rows_page (suc l) since rows
        ≡ some (settled rows false none (get_or (max_stamp rows) since) false)
  unfolding shape_rows_page
  shape_last h = ground arith

  shape_more :
      (r : PageRow)
      → suc l < length rows
      → last_row (take (suc l) rows) ≡ some r
      → shape_rows_page (suc l) since rows
        ≡ some (
            settled
              (take (suc l) rows)
              true
              (cursor_of r)
              (get_or (boundary_from r.stamp none (take (suc l) rows)) since)
              false)
  unfolding shape_rows_page
  shape_more r h e = rw (e, shape_rows_page) (simp long refl)
    where
      long : leb (length rows) (suc l) ≡ false
      long = ground arith

  last-IsLossless :
      length rows ≤ suc l
      → IsLossless (suc l) rows (settled rows false none (get_or (max_stamp rows) since) false)
  last-IsLossless h =
      let (whole, none_left) = take_short (suc l) rows h in
      record {
        page = sym whole;
        kept = rw (none_left) tt;
        complete = inr (none_left, max_stamp-AtMost since rows);
      }

row_of :
    (l : ℕ) (rows : List PageRow)
    → suc l < length rows
    → (r : PageRow) × (last_row (take (suc l) rows) ≡ some r)
row_of l [] h = absurd (omega (arith, h))
row_of l (r ∷ rows) h = last_some r (take l rows)

-- The page of a cursor: for the changed rows after it, in the order of their stamps, read with a limit
-- of at least 1, the page is there and holds the first rows up to the limit; the next `since` is below
-- every row that is left; and if `has_more` is false nothing is left and no stamp is above it.
pub shape_rows_page-IsLossless :
    (l : ℕ) (since : String) (after : List PageRow)
    → Sorted after
    → Above since after
    → (s : Settled) × (shape_rows_page (suc l) since (take (suc (suc l)) after) ≡ some s)
      × IsLossless (suc l) after s
shape_rows_page-IsLossless l since after sorted new =
    elim (Bool-cases (leb (length (take (suc (suc l)) after)) (suc l))) [
      | inl small ↦
          let h = leb→le _ (suc l) small in
          let whole = take_all (suc (suc l)) after (omega (arith, h)) in
          let h' : length after ≤ suc l = rw (sym whole) h in
          (_, rw (whole) (shape_last l since after h'), last-IsLossless l since after h')
      | inr large ↦
          let more : suc l < length (take (suc (suc l)) after) = ground arith in
          let (r, e) = row_of l (take (suc (suc l)) after) more in
          let same = take-take (suc l) (suc (suc l)) after (omega arith) in
          (
            _,
            shape_more l since (take (suc (suc l)) after) r more e,
            subst
                (λ p. IsLossless (suc l) after (
                  settled p true (cursor_of r) (get_or (boundary_from r.stamp none p) since) false))
                (sym same)
                (more-IsLossless l since after sorted new r (cursor_of r)
                  (sym (ap last_row same) ∙ e)),
          )
    ]
