-- ===== src/Since/FirstPage.antt =====
-- The first page neither loses a row nor cuts a group of equal stamps, and when it throws.
use catworld.Common.{
  ℕ, zero, suc, ◌+◌, ◌≤◌, ◌<◌, String, ◌≡◌, ◌≢◌, refl, sym, ap, subst, ◌∙◌, ◌⊎◌, inl, inr, true,
  false, Option, none, some, List, [], arith, leb, length, get_or, eq_iff, Bool-cases, Option-cases,
  leb→le,
}
use catworld.Since.{
  Cursor, PageRow, Settled, settled, max_stamp, take, drop, nth, last_row, same_stamp, find_other,
  with_cursor, clean_cut, tied_page, settle_first_page, tie_cap, cursor_of,
}
use catworld.Since.Cuts.{Sorted, IsCut, strict_cut, strict-IsCut, whole-IsCut, take_all, take-take}
use catworld.Since.Ties.{
  settle_whole, settle_more, nth-some, find_other-some, find_other-before, nth-take-some,
  with_cursor-some,
}

-- What a settled page promises of the rows of the table.
pub IsFaithful : List PageRow → Settled → Type 0
IsFaithful all s =
    (rest : List PageRow) × IsCut all s.page rest s.next_since_txt
    × ((s.has_more ≡ true) ⊎ (rest ≡ []))

module _ (l : ℕ) (since : String) (all : List PageRow) (sorted : Sorted all) where
  abbrev first : List PageRow
  first = take (suc l + 1) all

  abbrev big : List PageRow
  big = take 50001 all

  whole-IsFaithful :
      (rows : List PageRow)
      → rows ≡ all
      → IsFaithful all (settled rows false none (get_or (max_stamp rows) since) false)
  unfolding IsFaithful
  whole-IsFaithful rows e = rw (e) ([], whole-IsCut all since, inr refl)

  -- A cut before a row with another stamp than the row before it.
  cut-IsFaithful :
      (m : ℕ) (x y : PageRow) (cursor : Option Cursor)
      → nth m all ≡ some x
      → nth (suc m) all ≡ some y
      → x.stamp ≢ y.stamp
      → IsFaithful all (
          settled
            (take (suc m) all)
            true
            cursor
            (get_or (max_stamp (take (suc m) all)) since)
            false)
  unfolding IsFaithful
  cut-IsFaithful m x y cursor e f ne = (
    drop (suc m) all,
    strict-IsCut (suc m) all x since (strict_cut m all x y sorted e f ne),
    inl refl,
  )

  same_some : (r s : Settled) → some r ≡ some s → r ≡ s
  same_some r s e = cc

  -- The page of the larger read that ends where another stamp begins.
  other-IsFaithful :
      (t : String) (n : ℕ) (s : Settled)
      → find_other t big ≡ some n
      → with_cursor (take n big) since false ≡ some s
      → IsFaithful all s
  other-IsFaithful t zero s found e = absurd (none_some s e)
    where
      none_some : (s : Settled) → none ≡ some s → ⊥
      none_some s e = cc
  other-IsFaithful t (suc m) s found e =
      let (x, at_x, in_group) = find_other-before t big m found in
      let (y, at_y, other) = find_other-some t big (suc m) found in
      let (x_all, _) = nth-take-some m 50001 all x at_x in
      let (y_all, few) = nth-take-some (suc m) 50001 all y at_y in
      let ne : x.stamp ≢ y.stamp = λ same. other (sym same ∙ in_group) in
      let (cursor, same) = with_cursor-some (take (suc m) big) since false s e in
      subst (IsFaithful all) same (
        subst (λ p. IsFaithful all (settled p true cursor (get_or (max_stamp p) since) false))
          (sym (take-take (suc m) 50001 all (omega (arith, few))))
          (cut-IsFaithful m x y cursor x_all y_all ne))

  tied-IsFaithful :
      (t : String) (s : Settled)
      → tied_page (suc l) since t first big ≡ some s
      → s.tie_group_truncated ≡ false
      → IsFaithful all s
  unfolding tied_page
  tied-IsFaithful t s e cut = elim (Option-cases (find_other t big)) [
    | inr (n, found) ↦ other-IsFaithful t n s found (by_other n found)
    | inl gone ↦ elim (Bool-cases (leb (length big) tie_cap)) [
      | inl small ↦ subst (IsFaithful all) (same_some _ s (by_big gone small)) (
          whole-IsFaithful big
            (take_all 50001 all (omega (arith, leb→le (length big) 50000 small))))
      | inr large ↦
          let (cursor, same) =
            with_cursor-some (take (suc l) first) since true s (by_limit gone large) in
          absurd (truncated cursor same)
    ]
  ]
    where
      by_other : (n : ℕ) → find_other t big ≡ some n → with_cursor (take n big) since false ≡ some s
      by_other n found = sym (rw (found, tied_page) refl) ∙ e

      by_big :
          find_other t big ≡ none
          → leb (length big) tie_cap ≡ true
          → some (settled big false none (get_or (max_stamp big) since) false) ≡ some s
      by_big gone small = sym (rw (gone, tied_page) (simp small refl)) ∙ e

      by_limit :
          find_other t big ≡ none
          → leb (length big) tie_cap ≡ false
          → with_cursor (take (suc l) first) since true ≡ some s
      by_limit gone large = sym (rw (gone, tied_page) (simp large refl)) ∙ e

      truncated :
          (cursor : Option Cursor)
          → settled
              (take (suc l) first)
              true
              cursor
              (get_or (max_stamp (take (suc l) first)) since)
              true
            ≡ s
          → ⊥
      truncated cursor same = true_false (ap (λ o. o.tie_group_truncated) same ∙ cut)
        where
          true_false : true ≡ false → ⊥
          true_false e = cc

  small-IsFaithful :
      (s : Settled)
      → length first ≤ suc l
      → settle_first_page (suc l) since first big ≡ some s
      → IsFaithful all s
  small-IsFaithful s h e =
      subst (IsFaithful all) (same_some _ s (sym (settle_whole l since first big h) ∙ e))
        (whole-IsFaithful first (take_all (suc l + 1) all (omega (arith, h))))

  -- The cut at the limit, between two stamps.
  clean-IsFaithful :
      (r y : PageRow) (s : Settled)
      → nth l first ≡ some r
      → nth (suc l) first ≡ some y
      → same_stamp (nth (suc l) first) (some r) ≡ false
      → some (clean_cut (take (suc l) first) since) ≡ some s
      → IsFaithful all s
  unfolding clean_cut
  clean-IsFaithful r y s at_r at_y differ e =
      let (r_all, _) = nth-take-some l (suc l + 1) all r at_r in
      let (y_all, _) = nth-take-some (suc l) (suc l + 1) all y at_y in
      subst (IsFaithful all) (same_some _ s e) (
        subst
          (λ p. IsFaithful all (
            settled p true
              (elim (last_row (take (suc l) first)) [ none ↦ none | some r ↦ cursor_of r ])
              (get_or (max_stamp p) since) false))
          (sym (take-take (suc l) (suc l + 1) all (omega arith)))
          (cut-IsFaithful l r y _ r_all y_all ne))
    where
      ne : r.stamp ≢ y.stamp
      ne h = ground (arith, at_y, differ, eq_iff y.stamp r.stamp, h)

  more-IsFaithful :
      (r : PageRow) (s : Settled)
      → suc l < length first
      → nth l first ≡ some r
      → settle_first_page (suc l) since first big ≡ some s
      → s.tie_group_truncated ≡ false
      → IsFaithful all s
  more-IsFaithful r s h at_r e cut =
      let (y, at_y) = nth-some (suc l) first h in
      let e' = sym (settle_more l since first big r h at_r) ∙ e in
      elim (Bool-cases (same_stamp (nth (suc l) first) (some r))) [
        | inl tie ↦ tied-IsFaithful r.stamp s (simp tie at e') cut
        | inr differ ↦ clean-IsFaithful r y s at_r at_y differ (simp differ at e')
      ]

-- The first page of a table whose changed rows come in the order of their stamps, read with a limit
-- of at least 1: unless a group of equal stamps is larger than the cap (which is flagged), the page is
-- the beginning of those rows, every stamp on it is at most the next `since`, every stamp after it is
-- above, and something is left only if `has_more` says so.
pub settle_first_page-IsFaithful :
    (l : ℕ) (since : String) (all : List PageRow) (s : Settled)
    → Sorted all
    → settle_first_page (suc l) since (take (suc l + 1) all) (take 50001 all) ≡ some s
    → s.tie_group_truncated ≡ false
    → IsFaithful all s
settle_first_page-IsFaithful l since all s sorted e cut =
    elim (Bool-cases (leb (length (take (suc l + 1) all)) (suc l))) [
      | inl small ↦ small-IsFaithful l since all sorted s (leb→le _ (suc l) small) e
      | inr large ↦
          let more : suc l < length (take (suc l + 1) all) = ground arith in
          let (r, at_r) = nth-some l (take (suc l + 1) all) (omega (arith, more)) in
          more-IsFaithful l since all sorted r s more at_r e cut
    ]
