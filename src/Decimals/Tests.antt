-- ===== src/Decimals/Tests.antt =====
-- Decimals at concrete inputs.
use catworld.Common.{◌+◌, ◌≤◌, String, ◌≡◌, refl, true, false, none, some, List, [], ◌∷◌, every}
use catworld.Decimals.{
  DecimalSpec, number_parts, strip_leading, strip_trailing, fit_from, fit_decimal, decimal_fits,
}
use catworld.Decimals.Fits.{fit_decimal_fits}

abbrev values : List String
values = "-0012.50" ∷ " 3.125 " ∷ ".5" ∷ []

abbrev five_three : DecimalSpec
five_three = record { precision = 5; scale = 3 }

fitted : fit_decimal values ≡ some five_three
unfolding fit_decimal fit_from number_parts strip_leading strip_trailing
fitted = refl

no_number : fit_decimal ("1" ∷ "1,5" ∷ []) ≡ none
unfolding fit_decimal fit_from number_parts strip_leading strip_trailing
no_number = refl

-- A zero before the point needs a digit of its own.
zero_digit : decimal_fits "0.5" (record { precision = 1; scale = 1 }) ≡ false
unfolding decimal_fits number_parts strip_leading strip_trailing
zero_digit = refl

fit_decimal_fits_example :
    (five_three.precision ≤ 38)
    × (five_three.scale + 1 ≤ five_three.precision)
    × (every (λ v. decimal_fits v five_three) values ≡ true)
fit_decimal_fits_example = fit_decimal_fits values five_three fitted
