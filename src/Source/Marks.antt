-- ===== src/Source/Marks.antt =====
-- What the mark of a read says of the values that were read.
use catworld.Common.{
  ◌+◌, String, ◌≡◌, refl, subst, sym, inl, inr, Bool, true, false, Option, none, some, List, [],
  ◌∷◌, arith, Bool-cases, length, keep, IfSome,
}
use catworld.Source.{DeltaKind, WatermarkTracker, larger, over_cap, push, push_all}

module _ (above : DeltaKind → String → String → Bool) where
  -- Neither of the two is the larger one of the other, as far as the mark is concerned.
  abbrev pub Reaches : DeltaKind → Option String → String → Type 0
  Reaches kind none v = ⊥
  Reaches kind (some m) v = above kind v m ≡ false

  abbrev pub null : Option String → Bool
  null none = true
  null (some v) = false

  abbrev pub late : DeltaKind → Option String → Option String → Bool
  late kind cap none = false
  late kind cap (some v) = over_cap above kind cap v

  step_late :
      (v : String) (t : WatermarkTracker)
      → over_cap above t.kind t.cap v ≡ true
      → push above (some v) t ≡ record t {
        future_count = t.future_count + 1;
        future_max = larger above t.kind v t.future_max;
      }
  unfolding push
  step_late v t e = simp e refl

  step_read :
      (v : String) (t : WatermarkTracker)
      → over_cap above t.kind t.cap v ≡ false
      → push above (some v) t ≡ record t { max_read = larger above t.kind v t.max_read }
  unfolding push
  step_read v t e = simp e refl

  abbrev pub IsUnderCap : WatermarkTracker → Type 0
  IsUnderCap t = IfSome (λ m. over_cap above t.kind t.cap m ≡ false) t.max_read

  larger-IsUnderCap :
      (v : String) (t : WatermarkTracker)
      → over_cap above t.kind t.cap v ≡ false
      → IsUnderCap t
      → IfSome (λ m. over_cap above t.kind t.cap m ≡ false) (larger above t.kind v t.max_read)
  larger-IsUnderCap v t e w = go t.max_read w
    where
      go :
          (m : Option String)
          → IfSome (λ m. over_cap above t.kind t.cap m ≡ false) m
          → IfSome (λ m. over_cap above t.kind t.cap m ≡ false) (larger above t.kind v m)
      go none w = e
      go (some m) w = elim (Bool-cases (above t.kind v m)) [ inl a ↦ simp a e | inr a ↦ simp a w ]

  abbrev pub Counted : List (Option String) → WatermarkTracker → WatermarkTracker → Type 0
  Counted vs t u =
      (u.null_count ≡ t.null_count + length (keep null vs))
      × (u.future_count ≡ t.future_count + length (keep (late t.kind t.cap) vs))
      × IfSome (λ m. over_cap above t.kind t.cap m ≡ false) u.max_read

  -- Whatever values are read, the mark that is kept is never over the cap (so one value in the future
  -- does not stop a source), and each value that is null or over the cap is counted as such.
  pub push_all_within_cap :
      (vs : List (Option String)) (t : WatermarkTracker)
      → IsUnderCap t
      → Counted vs t (push_all above vs t)
  unfolding push_all
  push_all_within_cap [] t w = (omega arith, omega arith, w)
  push_all_within_cap (none ∷ vs) t w =
      let (n, f, m) = push_all_within_cap vs (record t { null_count = t.null_count + 1 }) w in
      (omega (arith, n), f, m)
  push_all_within_cap (some v ∷ vs) t w = elim (Bool-cases (over_cap above t.kind t.cap v)) [
    | inl e ↦
        let (n, f, m) =
          push_all_within_cap vs
            (record t {
              future_count = t.future_count + 1;
              future_max = larger above t.kind v t.future_max;
            })
            w in
        subst (λ u. Counted (some v ∷ vs) t (push_all above vs u)) (sym (step_late v t e))
          (simp e (omega (arith, n), omega (arith, f), m))
    | inr e ↦
        let (n, f, m) =
          push_all_within_cap vs (record t { max_read = larger above t.kind v t.max_read })
            (larger-IsUnderCap v t e w) in
        subst (λ u. Counted (some v ∷ vs) t (push_all above vs u)) (sym (step_read v t e))
          (simp e (omega (arith, n), omega (arith, f), m))
  ]
