-- ===== src/Decimals/Fits.antt =====
-- What the type that is chosen for a list of values means for them.
use catworld.Common.{
  ℕ, ◌+◌, ◌≤◌, max, String, ◌≡◌, refl, ap, sym, subst, ◌∙◌, inl, inr, true, Option, none, some,
  List, [], ◌∷◌, arith, every, length, Option-cases, Bool-cases, ltb,
}
use catworld.Decimals.{
  DecimalSpec, number_parts, strip_leading, strip_trailing, or_one, fit_from, add_value, spec_of,
  fit_decimal, decimal_fits,
}

spec : ℕ → ℕ → DecimalSpec
spec i s = record { precision = i + s; scale = s }

fits_parts :
    (raw : String) (whole part : List ℕ) (i s : ℕ)
    → number_parts raw ≡ some (whole, part)
    → length (strip_leading whole) ≤ i
    → length (strip_trailing part) ≤ s
    → decimal_fits raw (spec i s) ≡ true
unfolding decimal_fits spec
fits_parts raw whole part i s e hi hs = ground arith

fit_from-none : (rest : List String) → fit_from none rest ≡ none
unfolding fit_from
fit_from-none [] = refl
fit_from-none (raw ∷ rest) = fit_from-none rest

-- One round of the loop.
round :
    (sizes : Option (ℕ × ℕ)) (raw : String) (rest : List String) (o : Option (List ℕ × List ℕ))
    → number_parts raw ≡ o
    → fit_from sizes (raw ∷ rest) ≡ fit_from (add_value sizes o) rest
unfolding fit_from
round sizes raw rest o e = ap (λ p. fit_from (add_value sizes p) rest) e

le_or_one : (n : ℕ) → n ≤ or_one n
le_or_one n = ground arith

-- The sizes only grow, and the last ones fit every value.
fit_from_fits :
    (int_digits scale : ℕ) (values : List String) (i s : ℕ)
    → fit_from (some (int_digits, scale)) values ≡ some (i, s)
    → (int_digits ≤ i) × (scale ≤ s) × (every (λ v. decimal_fits v (spec i s)) values ≡ true)
unfolding fit_from
fit_from_fits int_digits scale [] i s h = ground arith
fit_from_fits int_digits scale (raw ∷ rest) i s h = elim (Option-cases (number_parts raw)) [
  | inl e ↦
      cc (sym (fit_from-none rest) ∙ (sym (round (some (int_digits, scale)) raw rest none e) ∙ h))
  | inr ((whole, part), e) ↦
      let w = length (strip_leading whole) in
      let p = length (strip_trailing part) in
      let (hi, hs, all) =
        fit_from_fits (max int_digits (or_one w)) (max scale p) rest i s
          (sym (round (some (int_digits, scale)) raw rest (some (whole, part)) e) ∙ h) in
      let le = le_or_one w in
      let fits = fits_parts raw whole part i s e (omega (arith, hi, le)) (omega (arith, hs)) in
      (omega (arith, hi), omega (arith, hs), simp (fits, all) refl)
]

spec_of_fits :
    (i s : ℕ) (t : DecimalSpec)
    → 1 ≤ i
    → spec_of (some (i, s)) ≡ some t
    → (spec i s ≡ t) × (i + s ≤ 38)
unfolding spec
spec_of_fits i s t hi h = elim (Bool-cases (ltb 38 (i + s))) [
  | inl e ↦ let e' : spec_of (some (i, s)) ≡ none = simp e refl in cc (sym e' ∙ h)
  | inr e ↦
      let e' : spec_of (some (i, s)) ≡ some (record { precision = max (i + s) 1; scale = s }) =
        simp e refl in
      let m : max (i + s) 1 ≡ i + s = omega (arith, hi) in
      let e'' : spec_of (some (i, s)) ≡ some (spec i s) =
        e' ∙ ap (λ p. some (record { precision = p; scale = s })) m in
      let joined : some (spec i s) ≡ some t = sym e'' ∙ h in (cc joined, ground arith)
]

chosen_fits :
    (values : List String) (t : DecimalSpec) (o : Option (ℕ × ℕ))
    → fit_from (some (1, 0)) values ≡ o
    → spec_of o ≡ some t
    → (t.precision ≤ 38)
      × (t.scale + 1 ≤ t.precision)
      × (every (λ v. decimal_fits v t) values ≡ true)
unfolding spec
chosen_fits values t none e h = cc h
chosen_fits values t (some (i, s)) e h =
    let (hi, _, all) = fit_from_fits 1 0 values i s e in
    let (same, small) = spec_of_fits i s t hi h in
    subst
      (λ u.
        (u.precision ≤ 38)
        × (u.scale + 1 ≤ u.precision)
        × (every (λ v. decimal_fits v u) values ≡ true))
      same (small, omega (arith, hi), all)

-- The type that is chosen for a list of values has at most 38 digits, one of them at least before the
-- point, and every value fits it without rounding.
pub fit_decimal_fits :
    (values : List String) (t : DecimalSpec)
    → fit_decimal values ≡ some t
    → (t.precision ≤ 38)
      × (t.scale + 1 ≤ t.precision)
      × (every (λ v. decimal_fits v t) values ≡ true)
unfolding fit_decimal
fit_decimal_fits values t h = chosen_fits values t (fit_from (some (1, 0)) values) refl h
