-- ===== src/Decimals.antt =====
-- lib/decimal-type.ts: the smallest type DECIMAL(p,s) for a list of values, and the test whether a
-- value fits a type. A digit is its character code.
pub mod Fits
pub mod Tests
use Prim.Native.Char.{code}
use Prim.Native.String
use catworld.Common.{
  ℕ, ◌+◌, ◌-◌, max, String, Bool, true, false, ◌&&◌, Option, none, some, List, [], ◌∷◌,
  if◌then◌else◌, leb, ltb, ◌==◌, length,
}
use catworld.Settings.{is_space}

pub record DecimalSpec : Type 0 where
  pub precision : ℕ
  pub scale : ℕ

abbrev pub decimal_max_precision : ℕ
decimal_max_precision = 38

-- `trim`, from the left and from the right.
trim_start : String → String
trim_start String.[] = String.[]
trim_start (String.◌∷◌ c s) =
    let rest = trim_start s in if is_space (code c) then rest else String.◌∷◌ c s

abbrev is_nil : String → Bool
is_nil String.[] = true
is_nil (String.◌∷◌ c s) = false

trim_end : String → String
trim_end String.[] = String.[]
trim_end (String.◌∷◌ c s) =
    let rest = trim_end s in
    if is_nil rest && is_space (code c) then String.[] else String.◌∷◌ c rest

pub trim : String → String
unfolding trim_start trim_end
trim s = trim_end (trim_start s)

abbrev is_digit : ℕ → Bool
is_digit c = leb 48 c && leb c 57

-- `(\d*)` and what comes after it.
digits : String → List ℕ × String
digits String.[] = ([], String.[])
digits (String.◌∷◌ c s) =
    let (ds, rest) = digits s in
    if is_digit (code c) then (code c ∷ ds, rest) else ([], String.◌∷◌ c s)

-- `[-+]?`.
abbrev after_sign : String → String
after_sign String.[] = String.[]
after_sign (String.◌∷◌ c s) = if code c == 45 then s else if code c == 43 then s else String.◌∷◌ c s

abbrev fraction : List ℕ → List ℕ × String → Option (List ℕ × List ℕ)
fraction whole (part, String.[]) = some (whole, part)
fraction whole (part, String.◌∷◌ c s) = none

abbrev after_whole : List ℕ × String → Option (List ℕ × List ℕ)
unfolding digits
after_whole (whole, String.[]) = some (whole, [])
after_whole (whole, String.◌∷◌ c s) = if code c == 46 then fraction whole (digits s) else none

-- Without any digit there is no number.
abbrev with_digits : Option (List ℕ × List ℕ) → Option (List ℕ × List ℕ)
with_digits none = none
with_digits (some ([], [])) = none
with_digits (some ([], f ∷ fs)) = some ([], f ∷ fs)
with_digits (some (i ∷ is, fs)) = some (i ∷ is, fs)

-- The match of `/^[-+]?(\d*)(?:\.(\d*))?$/` and the test after it: the digits before and after the point.
pub number_parts : String → Option (List ℕ × List ℕ)
unfolding trim digits
number_parts raw = with_digits (after_whole (digits (after_sign (trim raw))))

-- `replace(/^0+(?=\d)/, "")`: the zeros before another digit.
pub strip_leading : List ℕ → List ℕ
strip_leading [] = []
strip_leading (c ∷ []) = c ∷ []
strip_leading (c ∷ d ∷ ds) =
    let rest = strip_leading (d ∷ ds) in if c == 48 then rest else c ∷ d ∷ ds

abbrev no_digits : List ℕ → Bool
no_digits [] = true
no_digits (d ∷ ds) = false

-- `replace(/0+$/, "")`.
pub strip_trailing : List ℕ → List ℕ
strip_trailing [] = []
strip_trailing (d ∷ ds) =
    let rest = strip_trailing ds in if no_digits rest && d == 48 then [] else d ∷ rest

abbrev pub or_one : ℕ → ℕ
or_one n = if n == 0 then 1 else n

-- The loop's body, on the digits before the point and the scale so far (`none` once a value is no
-- number, which returns null).
abbrev pub add_value : Option (ℕ × ℕ) → Option (List ℕ × List ℕ) → Option (ℕ × ℕ)
add_value none parts = none
add_value (some sizes) none = none
add_value (some (int_digits, scale)) (some (i, f)) =
    some (max int_digits (or_one (length (strip_leading i))), max scale (length (strip_trailing f)))

unfoldable pub fit_from : Option (ℕ × ℕ) → List String → Option (ℕ × ℕ)
fit_from sizes [] = sizes
fit_from sizes (raw ∷ rest) = fit_from (add_value sizes (number_parts raw)) rest

abbrev pub spec_of : Option (ℕ × ℕ) → Option DecimalSpec
spec_of none = none
spec_of (some (int_digits, scale)) =
    let precision = int_digits + scale in
    if ltb decimal_max_precision precision
    then none
    else some (record { precision = max precision 1; scale = scale })

unfoldable pub fit_decimal : List String → Option DecimalSpec
fit_decimal values = spec_of (fit_from (some (1, 0)) values)

-- `i <= spec.precision - spec.scale`, for a negative difference false.
unfoldable pub decimal_fits : String → DecimalSpec → Bool
decimal_fits value spec = elim (number_parts value) [
  | none ↦ false
  | some (i, f) ↦
      leb (length (strip_trailing f)) spec.scale
      && leb (length (strip_leading i) + spec.scale) spec.precision
]
