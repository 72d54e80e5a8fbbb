-- ===== src/Common/TextOrder.antt =====
-- The order of texts by code points is total, and a list sorted by it does not depend on the order
-- in which the list was given.
use Prim.Native.Char.{Char, code}
use Prim.Native.String.{String, [], ◌∷◌, compare}
use Prim.Native.String.compare
use Prim.Native.Nat.{Ordering, compare as compare_ℕ}
use mathlib.Core.Path.{◌≡◌, refl}
use mathlib.Core.Bool.{Bool, true}
use mathlib.Core.Logic.{◌⊎◌, inl, inr}
use native.Mathlib.Omega.{arith}
use text.Mathlib.Text.{is_le}
use text.Mathlib.TextEquality.{codes_equal}

abbrev pub text_leb : String → String → Bool
text_leb s t = is_le (compare s t)

pub text_leb_total : (s t : String) → (text_leb s t ≡ true) ⊎ (text_leb t s ≡ true)
text_leb_total [] [] = inl refl
text_leb_total [] (d ∷ t) = inl (rw (compare.nil-cons d t) refl)
text_leb_total (c ∷ s) [] = inr (rw (compare.nil-cons c s) refl)
text_leb_total (c ∷ s) (d ∷ t) =
    rw (compare.cons-cons c d s t, compare.cons-cons d c t s) (ground (arith, text_leb_total s t))

heads :
    (c d : Char) (s t : String)
    → text_leb (c ∷ s) (d ∷ t) ≡ true
    → text_leb (d ∷ t) (c ∷ s) ≡ true
    → (compare_ℕ (code c) (code d) ≡ Ordering.eq) × ((text_leb s t ≡ true) × (text_leb t s ≡ true))
heads c d s t h k = ground (arith, compare.cons-cons c d s t, compare.cons-cons d c t s)

pub text_leb_antisymm : (s t : String) → text_leb s t ≡ true → text_leb t s ≡ true → s ≡ t
text_leb_antisymm [] [] h k = refl
text_leb_antisymm [] (d ∷ t) h k = cc (compare.cons-nil d t)
text_leb_antisymm (c ∷ s) [] h k = cc (compare.cons-nil c s)
text_leb_antisymm (c ∷ s) (d ∷ t) h k =
    let (same, later) = heads c d s t h k in
    let same' : c ≡ d = codes_equal c d same in rw (same', text_leb_antisymm s t later.0 later.1)

pub text_leb_trans :
    (r s t : String) → text_leb r s ≡ true → text_leb s t ≡ true → text_leb r t ≡ true
text_leb_trans [] s [] h k = refl
text_leb_trans [] s (d ∷ t) h k = rw (compare.nil-cons d t)
text_leb_trans (b ∷ r) [] t h k = cc (compare.cons-nil b r)
text_leb_trans (b ∷ r) (c ∷ s) [] h k = cc (compare.cons-nil c s)
text_leb_trans (b ∷ r) (c ∷ s) (d ∷ t) h k = ground (
  arith,
  compare.cons-cons b c r s,
  compare.cons-cons c d s t,
  compare.cons-cons b d r t,
  text_leb_trans r s t,
)
