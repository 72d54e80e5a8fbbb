-- ===== src/Refresh/Marks.antt =====
-- The mark that a round leaves in the row of its source.
use catworld.Common.{
  String, ◌≡◌, refl, sym, subst, inl, inr, Bool, true, false, ◌&&◌, Option, none, some, List, arith,
  IfSome, Bool-cases,
}
use catworld.Source.{DeltaKind, over_cap, new_tracker, push_all}
use catworld.Source.Marks.{push_all_within_cap}
use catworld.Refresh.Plan.{Column, Plan, track_delta, keep_or_raise, next_mark_of, next_mark}

module _ (above : DeltaKind → String → String → Bool) where
  abbrev pub IsRaised :
      Plan → Column → Option String → Option String → Option (Option String) → Type 0
  IsRaised p d cap wm none = Unit
  IsRaised p d cap wm (some none) = p.mark.poisoned ≡ true
  IsRaised p d cap wm (some (some m)) =
      (over_cap above d.kind cap m ≡ false)
      × (p.use_delta ≡ true → IfSome (λ w. above d.kind w m ≡ false) wm)

  kept-IsRaised :
      (p : Plan) (d : Column) (cap wm : Option String) (m : String)
      → over_cap above d.kind cap m ≡ false
      → IsRaised p d cap wm (keep_or_raise above p.use_delta d.kind wm m)
  kept-IsRaised p d cap none m under = (under, λ _. tt)
  kept-IsRaised p d cap (some w) m under = elim (Bool-cases (p.use_delta && above d.kind w m)) [
    | inl back ↦ simp back tt
    | inr on ↦ simp on (under, λ onward. ground arith)
  ]

  raised :
      (p : Plan) (d : Column) (cap : Option String) (track : Bool) (max_read : Option String)
      → IfSome (λ m. over_cap above d.kind cap m ≡ false) max_read
      → IsRaised p d cap p.mark.value (next_mark_of above p track (some d) max_read)
  raised p d cap false max_read under = tt
  raised p d cap true none under = elim (Bool-cases p.mark.poisoned) [
    | inl bad ↦ simp bad refl
    | inr fine ↦ simp fine tt
  ]
  raised p d cap true (some m) under = kept-IsRaised p d cap p.mark.value m under

  -- The mark that a round records from the values that it read is never over the cap of the origin's
  -- clock, and in a round that reads on from a mark never below that mark; a mark is cleared only if
  -- the recorded one could not be used.
  pub next_mark-IsRaised :
      (p : Plan) (d : Column) (cap : Option String) (values : List (Option String))
      → p.delta ≡ some d
      → IsRaised p d cap p.mark.value
          (next_mark above p (push_all above values (new_tracker d.kind cap)))
  unfolding next_mark new_tracker
  next_mark-IsRaised p d cap values e =
      let (_, _, under) = push_all_within_cap above values (new_tracker d.kind cap) tt in
      subst
        (λ delta. IsRaised p d cap p.mark.value (
          next_mark_of above p (track_delta p.key p.delta) delta
            (push_all above values (new_tracker d.kind cap)).max_read))
        (sym e)
        (raised p d cap (track_delta p.key p.delta)
          (push_all above values (new_tracker d.kind cap)).max_read under)
