-- ===== src/Since/Throws.antt =====
-- Exactly when the first page ends in an exception.
use catworld.Common.{
  ℕ, zero, suc, ◌+◌, ◌≤◌, ◌<◌, String, ◌≡◌, refl, sym, ◌∙◌, inl, inr, Bool, true, false, ◌&&◌, not,
  some, List, [], ◌∷◌, arith, if◌then◌else◌, leb, ltb, length, str_eq, Bool-cases, Option-cases,
  leb→le, lt→ltb, is_none,
}
use catworld.Since.{
  PageRow, take, nth, same_stamp, find_other, with_cursor, clean_cut, tied_page, settle_first_page,
}
use catworld.Since.Ties.{settle_whole, settle_more, nth-some, last_some}

with_cursor-some :
    (r : PageRow) (page : List PageRow) (since : String) (b : Bool)
    → is_none (with_cursor (r ∷ page) since b) ≡ false
with_cursor-some r page since b = let (x, at) = last_some r page in ground (arith, at)

module _ (l : ℕ) (since t : String) (a : PageRow) (first rest : List PageRow) where
  -- The larger read begins with the row `a`.
  tied_throws :
      str_eq a.stamp t ≡ false → is_none (tied_page (suc l) since t first (a ∷ rest)) ≡ true
  unfolding tied_page
  tied_throws other = ground (arith, other)

  tied_returns :
      (r : PageRow)
      → str_eq a.stamp t ≡ true
      → is_none (tied_page (suc l) since t (r ∷ first) (a ∷ rest)) ≡ false
  unfolding tied_page
  tied_returns r same = elim (Option-cases (find_other t rest)) [
    | inl gone ↦ ground (arith, same, gone, with_cursor-some r (take l first) since true)
    | inr (n, found) ↦ ground (arith, same, found, with_cursor-some a (take n rest) since false)
  ]

length-take :
    (n : ℕ) (rows : List PageRow) → ltb n (length (take (suc n) rows)) ≡ ltb n (length rows)
length-take n [] = refl
length-take zero (r ∷ rows) = ground arith
length-take (suc n) (r ∷ rows) = ground (arith, length-take n rows)

nth-take_one : (n : ℕ) (rows : List PageRow) → nth n (take (suc n) rows) ≡ nth n rows
nth-take_one n [] = refl
nth-take_one zero (r ∷ rows) = refl
nth-take_one (suc n) (r ∷ rows) = nth-take_one n rows

nth-take_two : (n : ℕ) (rows : List PageRow) → nth n (take (suc (suc n)) rows) ≡ nth n rows
nth-take_two n [] = refl
nth-take_two zero (r ∷ rows) = refl
nth-take_two (suc n) (r ∷ rows) = nth-take_two n rows

abbrev is_tied : ℕ → List PageRow → Bool
is_tied l all =
    ltb (suc l) (length all)
    && (same_stamp (nth (suc l) all) (nth l all) && not (same_stamp (nth 0 all) (nth l all)))

module _ (l : ℕ) (since : String) (a : PageRow) (rest : List PageRow) where
  abbrev first : List PageRow
  first = take (suc (suc l)) (a ∷ rest)

  whole_returns :
      length first ≤ suc l
      → is_none (settle_first_page (suc l) since first (a ∷ take 50000 rest)) ≡ is_tied l (a ∷ rest)
  whole_returns h =
      rw (settle_whole l since first (a ∷ take 50000 rest) h)
        (ground (arith, length-take (suc l) (a ∷ rest), h))

  abbrev tied : PageRow → Bool
  tied r = same_stamp (nth (suc l) first) (some r)

  branches :
      (r : PageRow)
      → is_none (
          if tied r
          then tied_page (suc l) since r.stamp first (a ∷ take 50000 rest)
          else some (clean_cut (take (suc l) first) since))
        ≡ (tied r && not (str_eq a.stamp r.stamp))
  branches r = elim (Bool-cases (tied r)) [
    | inr e ↦ simp e refl
    | inl e ↦ elim (Bool-cases (str_eq a.stamp r.stamp)) [
      | inl same ↦
          simp (e, same)
            (tied_returns l since r.stamp a (take (suc l) rest) (take 50000 rest) a same)
      | inr other ↦ simp (e, other) (tied_throws l since r.stamp a first (take 50000 rest) other)
    ]
  ]

  tied_at :
      (r : PageRow)
      → suc l < length first
      → nth l (a ∷ rest) ≡ some r
      → is_tied l (a ∷ rest) ≡ (tied r && not (str_eq a.stamp r.stamp))
  tied_at r h at_r =
      let long : ltb (suc l) (length (a ∷ rest)) ≡ true =
        sym (length-take (suc l) (a ∷ rest)) ∙ lt→ltb (suc l) (length first) h in
      rw (at_r, sym (nth-take_one l rest)) (simp long refl)

  more_throws :
      (r : PageRow)
      → suc l < length first
      → nth l (a ∷ rest) ≡ some r
      → is_none (settle_first_page (suc l) since first (a ∷ take 50000 rest)) ≡ is_tied l (a ∷ rest)
  more_throws r h at_r =
      rw (settle_more l since first (a ∷ take 50000 rest) r h (nth-take_two l (a ∷ rest) ∙ at_r))
        (branches r ∙ sym (tied_at r h at_r))

  row_throws :
      is_none (settle_first_page (suc l) since first (a ∷ take 50000 rest)) ≡ is_tied l (a ∷ rest)
  row_throws = elim (Bool-cases (leb (length first) (suc l))) [
    | inl small ↦ whole_returns (leb→le (length first) (suc l) small)
    | inr large ↦
        let more : suc l < length first = ground arith in
        let (r, at_r) = nth-some l first (omega (arith, more)) in
        more_throws r more (sym (nth-take_two l (a ∷ rest)) ∙ at_r)
  ]

plus_one : (l : ℕ) → suc l + 1 ≡ suc (suc l)
plus_one l = omega arith

-- A first page with the limit `suc l`, of a table with the changed rows `all` in order, throws exactly
-- if the cut falls between two rows with the same stamp and the rows begin with another stamp.
pub settle_first_page-throws :
    (l : ℕ) (since : String) (all : List PageRow)
    → is_none (settle_first_page (suc l) since (take (suc l + 1) all) (take 50001 all)) ≡ (
        ltb (suc l) (length all)
        && (same_stamp (nth (suc l) all) (nth l all) && not (same_stamp (nth 0 all) (nth l all))))
settle_first_page-throws l since [] =
    rw (plus_one l, settle_whole l since [] [] (omega arith)) (ground arith)
settle_first_page-throws l since (a ∷ rest) = rw (plus_one l) (row_throws l since a rest)
