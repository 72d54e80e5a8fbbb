-- ===== src/Odata/Paging.antt =====
-- What a client of a live table reads that follows the links of the pages.
use catworld.Common.{
  ℕ, zero, suc, ◌+◌, ◌-◌, ◌≤◌, ◌<◌, min, ◌≡◌, ◌∙◌, refl, sym, ap, inl, inr, Bool, true, ◌||◌, not,
  Option, none, some, List, [], ◌∷◌, ◌++◌, arith, if◌then◌else◌, ◌==◌, ==_iff, leb, is_some, get_or,
  length, Bool-cases,
}
use catworld.Odata.{
  max_page, default_top, PageRequest, next_page_params, page_top, limit_rows, offset_rows,
  live_page, followed, follow,
}

module _ {ℓ} {A : Type ℓ} where
  limit-offset : (n : ℕ) (xs : List A) → limit_rows n xs ++ offset_rows n xs ≡ xs
  limit-offset zero xs = refl
  limit-offset (suc n) [] = refl
  limit-offset (suc n) (x ∷ xs) = ap (λ ys. x ∷ ys) (limit-offset n xs)

  limit-more :
      (m n k : ℕ) (xs : List A)
      → k ≡ m + n
      → limit_rows m xs ++ limit_rows n (offset_rows m xs) ≡ limit_rows k xs
  limit-more zero n k xs e = let same : n ≡ k = omega (arith, e) in ap (λ i. limit_rows i xs) same
  limit-more (suc m) n zero xs e = absurd (omega (arith, e))
  limit-more (suc m) zero (suc k) [] e = refl
  limit-more (suc m) (suc n) (suc k) [] e = refl
  limit-more (suc m) n (suc k) (x ∷ xs) e =
      ap (λ ys. x ∷ ys) (limit-more m n k xs (omega (arith, e)))

  offset-more :
      (m n k : ℕ) (xs : List A) → k ≡ m + n → offset_rows n (offset_rows m xs) ≡ offset_rows k xs
  offset-more zero n k xs e = let same : n ≡ k = omega (arith, e) in ap (λ i. offset_rows i xs) same
  offset-more (suc m) n zero xs e = absurd (omega (arith, e))
  offset-more (suc m) zero (suc k) [] e = refl
  offset-more (suc m) (suc n) (suc k) [] e = refl
  offset-more (suc m) n (suc k) (x ∷ xs) e = offset-more m n k xs (omega (arith, e))

  limit_all : (n : ℕ) (xs : List A) → length (limit_rows n xs) < n → limit_rows n xs ≡ xs
  limit_all zero xs h = absurd (omega (arith, h))
  limit_all (suc n) [] h = refl
  limit_all (suc n) (x ∷ xs) h = ap (λ ys. x ∷ ys) (limit_all n xs (omega (arith, h)))

  length-limit-le : (n : ℕ) (xs : List A) → length (limit_rows n xs) ≤ n
  length-limit-le zero xs = omega arith
  length-limit-le (suc n) [] = omega arith
  length-limit-le (suc n) (x ∷ xs) = omega (arith, length-limit-le n xs)

  limit_whole : (n : ℕ) (xs : List A) → length xs ≤ n → limit_rows n xs ≡ xs
  limit_whole zero [] h = refl
  limit_whole zero (x ∷ xs) h = absurd (omega (arith, h))
  limit_whole (suc n) [] h = refl
  limit_whole (suc n) (x ∷ xs) h = ap (λ ys. x ∷ ys) (limit_whole n xs (omega (arith, h)))

  length-offset : (n : ℕ) (xs : List A) → n ≤ length xs → length (offset_rows n xs) + n ≡ length xs
  length-offset zero xs h = omega arith
  length-offset (suc n) [] h = absurd (omega (arith, h))
  length-offset (suc n) (x ∷ xs) h = omega (arith, length-offset n xs (omega (arith, h)))

  -- What a request asks for, of the rows that its `$skip` leaves.
  abbrev pub asked : Option ℕ → List A → List A
  asked none xs = xs
  asked (some n) xs = limit_rows n xs

  -- How a page of the rows `xs` ends, for `$top` as `o` says: it is all that is asked for; or it is
  -- full, with at least one row, and the link asks for the rest of the rows behind it.
  data PageEnd (o : Option ℕ) (skip : ℕ) (xs page : List A) : Option PageRequest → Type ℓ where
    last : page ≡ asked o xs → PageEnd o skip xs page none
    behind :
        (o' : Option ℕ) (top : ℕ)
        → 0 < top
        → top ≤ length xs
        → page ++ asked o' (offset_rows top xs) ≡ asked o xs
        → PageEnd o skip xs page (some (record { top = o'; skip = skip + top }))

  enough : (n : ℕ) (xs : List A) → length (limit_rows n xs) ≡ n → n ≤ length xs
  enough zero xs h = omega arith
  enough (suc n) [] h = absurd (omega (arith, h))
  enough (suc n) (x ∷ xs) h = omega (arith, enough n xs (omega (arith, h)))

  short_end :
      (o : Option ℕ) (skip top : ℕ) (xs : List A)
      → top ≤ get_or o default_top
      → length (limit_rows top xs) < top
      → limit_rows top xs ≡ asked o xs
  short_end none skip top xs h few = limit_all top xs few
  short_end (some w) skip top xs h few =
      let same = limit_all top xs few in
      same ∙ sym (limit_whole w xs (omega (arith, few, h, ap length same)))

  page_end :
      (o : Option ℕ) (skip top : ℕ) (xs : List A)
      → top ≡ min (get_or o default_top) max_page
      → PageEnd o skip xs (limit_rows top xs) (
          next_page_params top (get_or o default_top) (is_some o) skip (length (limit_rows top xs)))
  unfolding next_page_params
  page_end o skip top xs e = elim (Bool-cases (length (limit_rows top xs) == top)) [
    | inr short ↦
        let few : length (limit_rows top xs) < top =
          ground (arith, length-limit-le top xs, ==_iff (length (limit_rows top xs)) top) in
        simp (short, or_true (top == 0)) (last (short_end o skip top xs (omega (arith, e)) few))
    | inl full ↦
        let count = (==_iff (length (limit_rows top xs)) top).0 full in
        elim (Bool-cases (top == 0)) [
          | inl none_asked ↦
              simp (full, none_asked) (last (nothing o ((==_iff top 0).0 none_asked) e))
          | inr some_asked ↦
              simp (full, some_asked)
                (rest o e (ground (arith, ==_iff top 0)) (enough top xs count))
        ]
  ]
    where
      or_true : (b : Bool) → (b || true) ≡ true
      or_true b = ground arith

      nothing :
          (o : Option ℕ)
          → top ≡ 0
          → top ≡ min (get_or o default_top) max_page
          → limit_rows top xs ≡ asked o xs
      nothing none z e = absurd (omega (arith, z, e))
      nothing (some w) z e =
          let same : top ≡ w = omega (arith, z, e) in ap (λ i. limit_rows i xs) same

      rest :
          (o : Option ℕ)
          → top ≡ min (get_or o default_top) max_page
          → 0 < top
          → top ≤ length xs
          → PageEnd o skip xs (limit_rows top xs) (
              if not (is_some o)
              then some (record { top = none; skip = skip + top })
              else if leb (get_or o default_top) top
              then none
              else some (record { top = some (get_or o default_top - top); skip = skip + top }))
      rest none e pos few = behind none top pos few (limit-offset top xs)
      rest (some w) e pos few = elim (Bool-cases (leb w top)) [
        | inl all ↦
            let same : top ≡ w = ground (arith, e) in
            simp all (last (ap (λ i. limit_rows i xs) same))
        | inr more ↦
            simp more
              (behind (some (w - top)) top pos few (limit-more top (w - top) w xs (ground arith)))
      ]

  follow-none : (fuel : ℕ) (rows : List A) → follow fuel rows none ≡ ([], true)
  unfolding follow
  follow-none zero rows = refl
  follow-none (suc fuel) rows = refl

  append-nil : (xs : List A) → xs ++ [] ≡ xs
  append-nil [] = refl
  append-nil (x ∷ xs) = ap (λ ys. x ∷ ys) (append-nil xs)

  followed_end :
      (fuel : ℕ) (rows : List A) (r : PageRequest) (page : List A) (next : Option PageRequest)
      → ((o : Option ℕ) (skip : ℕ)
          → length (offset_rows skip rows) < length (offset_rows r.skip rows)
          → follow fuel rows (some (record { top = o; skip = skip }))
            ≡ (asked o (offset_rows skip rows), true))
      → PageEnd r.top r.skip (offset_rows r.skip rows) page next
      → followed page (follow fuel rows next) ≡ (asked r.top (offset_rows r.skip rows), true)
  followed_end fuel rows r page next rest (last e) =
      ap (followed page) (follow-none fuel rows) ∙ ap (λ ys. (ys, true)) (append-nil page ∙ e)
  followed_end fuel rows r page next rest (behind o top pos few e) =
      let same = offset-more r.skip top (r.skip + top) rows refl in
      let parts = length-offset top (offset_rows r.skip rows) few in
      let size : length (offset_rows (r.skip + top) rows) < length (offset_rows r.skip rows) =
        omega (arith, ap length same, parts, pos) in
      ap (followed page) (rest o (r.skip + top) size)
      ∙ ap (λ ys. (page ++ asked o ys, true)) (sym same)
      ∙ ap (λ ys. (ys, true)) e

  -- A client of a live table (whose pages are not cached) that does not change meanwhile and is read in
  -- the same order for every page, which asks for rows, with `$top` or without, and follows the links of the pages reads exactly the rows asked for,
  -- each once and in order, however `$top` stands to the largest page, and comes to the end: with fuel
  -- for more pages than rows.
  pub follow-asked :
      (fuel : ℕ) (rows : List A) (r : PageRequest)
      → length (offset_rows r.skip rows) < fuel
      → follow fuel rows (some r) ≡ (asked r.top (offset_rows r.skip rows), true)
  unfolding follow live_page
  follow-asked zero rows r h = absurd (omega (arith, h))
  follow-asked (suc fuel) rows r h =
      followed_end fuel rows r (limit_rows (page_top r) (offset_rows r.skip rows)) _
        (λ o skip less.
          follow-asked fuel rows (record { top = o; skip = skip }) (omega (arith, less, h)))
        (page_end r.top r.skip (page_top r) (offset_rows r.skip rows) refl)
