-- ===== src/Since/Final.antt =====
-- The `since` that the client gets never runs back and stays out of the safety window.
use catworld.Common.{
  String, ◌≡◌, ◌⊎◌, inl, inr, Bool, true, false, ◌||◌, Option, none, some, arith, Bool-cases,
  IfSome,
}
use catworld.Common.TextOrder.{text_leb, text_leb_total}
use catworld.Since.{Settled, or_later, finalize_next_since}
use catworld.Since.Cuts.{text_leb_refl}

module _ (s : Settled) (since : String) (removed_max : Option String) (truncated : Bool)
    (cap : Option String) where
  abbrev next : String
  next = finalize_next_since s since removed_max truncated cap

  never_back : text_leb since next ≡ true
  unfolding finalize_next_since
  never_back = ground (arith, text_leb_refl since, text_leb_total since s.next_since_txt)

  between_pages : (s.has_more || truncated) ≡ true → (next ≡ s.next_since_txt) ⊎ (next ≡ since)
  unfolding finalize_next_since
  between_pages more = ground arith

-- The final `since` is at least the one that was given. While pages or deletions are left it is the
-- page's own or the one that was given; on the last page it is at most the clock less the window, or
-- the one that was given.
pub finalize_next_since_bounds :
    (s : Settled) (since : String) (removed_max : Option String) (truncated : Bool)
    (cap : Option String)
    → let next = finalize_next_since s since removed_max truncated cap in
      (text_leb since next ≡ true)
      × (((s.has_more || truncated) ≡ false) ⊎ ((next ≡ s.next_since_txt) ⊎ (next ≡ since)))
      × (((s.has_more || truncated) ≡ true)
          ⊎ IfSome (λ c. (text_leb next c ≡ true) ⊎ (next ≡ since)) cap)
finalize_next_since_bounds s since removed_max truncated cap = (
  never_back s since removed_max truncated cap,
  elim (Bool-cases (s.has_more || truncated)) [
    | inl more ↦ inr (between_pages s since removed_max truncated cap more)
    | inr over ↦ inl over
  ],
  elim (Bool-cases (s.has_more || truncated)) [
    | inl more ↦ inl more
    | inr over ↦ inr (windowed cap over)
  ],
)
  where
    windowed :
        (cap : Option String)
        → (s.has_more || truncated) ≡ false
        → IfSome
            (λ c.
              (text_leb (finalize_next_since s since removed_max truncated cap) c ≡ true)
              ⊎ (finalize_next_since s since removed_max truncated cap ≡ since))
            cap
    windowed none over = tt
    windowed (some c) over =
        unfold finalize_next_since in
        ground (arith, text_leb_refl c, text_leb_total c (or_later s.next_since_txt removed_max))
