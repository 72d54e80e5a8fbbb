-- ===== src/Jobs/Order.antt =====
-- Which job a claim takes.
use mathlib.Core.List.{Memᴰ}
use catworld.Common.{
  ℕ, ◌≡◌, refl, subst, inl, inr, Bool, true, false, Option, none, some, List, [], ◌∷◌, arith, keep,
  All, Bool-cases, Memᴰ_of_keep,
}
use catworld.Jobs.{Job}
use catworld.Jobs.Claim.{Asking, is_eligible, goes_before, better, first_of, claim_found, claim}
use catworld.Jobs.Tables.{All-map}

goes_before_refl : (j : Job) → goes_before j j ≡ true
goes_before_refl j = ground arith

goes_before_trans :
    (i j k : Job) → goes_before i j ≡ true → goes_before j k ≡ true → goes_before i k ≡ true
goes_before_trans i j k h h' = ground arith

goes_before_total : (i j : Job) → goes_before i j ≡ false → goes_before j i ≡ true
goes_before_total i j h = ground arith

-- What is chosen is of the list and before all of it.
abbrev IsFirst : Job → List Job → Type 0
IsFirst j js = Memᴰ j js × All (λ k. goes_before j k ≡ true) js

first_of-nil : (js : List Job) → first_of js ≡ none → js ≡ []
unfolding first_of
first_of-nil [] h = refl
first_of-nil (k ∷ ks) h = absurd (some_better (first_of ks) h)
  where
    some_better : (o : Option Job) → better k o ≡ none → ⊥
    some_better none h = cc
    some_better (some i) h = ground arith

first_of-IsFirst : (js : List Job) (j : Job) → first_of js ≡ some j → IsFirst j js
unfolding first_of
first_of-IsFirst [] j h = cc
first_of-IsFirst (k ∷ ks) j h = step (first_of ks) (first_of-nil ks) (first_of-IsFirst ks) h
  where
    step :
        (o : Option Job)
        → (o ≡ none → ks ≡ [])
        → ((i : Job) → o ≡ some i → IsFirst i ks)
        → better k o ≡ some j
        → IsFirst j (k ∷ ks)
    step none empty best h =
        let e : k ≡ j = cc in
        subst (λ x. IsFirst x (k ∷ ks)) e (Memᴰ.head refl, (goes_before_refl k, rw (empty refl) tt))
    step (some i) empty best h = elim (Bool-cases (goes_before k i)) [
      | inl b ↦
          let e : k ≡ j = ground arith in
          let rest = (best i refl).1 in
          subst (λ x. IsFirst x (k ∷ ks)) e
            (
              Memᴰ.head refl,
              (goes_before_refl k, All-map _ _ ks (λ x. goes_before_trans k i x b) rest),
            )
      | inr b ↦
          let e : i ≡ j = ground arith in
          let (m, rest) = best i refl in
          subst (λ x. IsFirst x (k ∷ ks)) e (Memᴰ.tail m, (goes_before_total k i b, rest))
    ]

-- How a claim ends, for a table `jobs`: nothing is eligible, or the row of a job is taken that was
-- eligible and stands before every other eligible job.
pub data ClaimEnd (a : Asking) (now : ℕ) (jobs : List Job) : List Job × Option Job → Type 0 where
  nothing : All (λ k. is_eligible a now jobs k ≡ false) jobs → ClaimEnd a now jobs (jobs, none)
  takes :
      (j : Job)
      → Memᴰ j jobs
      → is_eligible a now jobs j ≡ true
      → All (λ k. is_eligible a now jobs k ≡ true → goes_before j k ≡ true) jobs
      → ClaimEnd a now jobs (claim_found a now jobs (some j))

none_kept : (p : Job → Bool) (js : List Job) → keep p js ≡ [] → All (λ k. p k ≡ false) js
none_kept p [] h = tt
none_kept p (j ∷ js) h = elim (Bool-cases (p j)) [
  | inl e ↦ absurd (ground arith)
  | inr e ↦ (e, none_kept p js (ground arith))
]

All-kept :
    (p : Job → Bool) (Q : Job → Type 0) (js : List Job)
    → All Q (keep p js)
    → All (λ k. p k ≡ true → Q k) js
All-kept p Q [] h = tt
All-kept p Q (j ∷ js) h = elim (Bool-cases (p j)) [
  | inl e ↦ let h' : Q j × All Q (keep p js) = simp e at h in (λ _. h'.0, All-kept p Q js h'.1)
  | inr e ↦ let h' : All Q (keep p js) = simp e at h in (λ e'. cc (e, e'), All-kept p Q js h')
]

-- A claim takes an eligible job that stands before all eligible ones (by weight, then by time), marks
-- its row and returns it, or nothing is eligible and the table stays as it is.
pub claim-ClaimEnd :
    (a : Asking) (now : ℕ) (jobs : List Job) → ClaimEnd a now jobs (claim a now jobs)
unfolding claim
claim-ClaimEnd a now jobs = go (first_of (keep p jobs)) refl
  where
    p : Job → Bool
    p = is_eligible a now jobs

    go :
        (o : Option Job)
        → first_of (keep p jobs) ≡ o
        → ClaimEnd a now jobs (claim_found a now jobs o)
    go none e = ClaimEnd.nothing (none_kept p jobs (first_of-nil (keep p jobs) e))
    go (some j) e =
        let (m, first) = first_of-IsFirst (keep p jobs) j e in
        let (mem, fits) = Memᴰ_of_keep p j jobs m in
        ClaimEnd.takes j mem fits (All-kept p (λ k. goes_before j k ≡ true) jobs first)
