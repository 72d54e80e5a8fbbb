-- ===== src/Locks/Waiting.antt =====
-- The wait for the lock of an import ends.
use catworld.Common.{
  ℕ, zero, suc, ◌+◌, ◌≤◌, ◌<◌, ◌≡◌, refl, inl, inr, Bool, true, false, Option, none, some, arith,
  leb, Bool-cases,
}
use catworld.Locks.{wait_lock}

-- The time of the n-th attempt of a wait, counted from 0.
abbrev pub attempt : ℕ → ℕ → ℕ → ℕ
attempt zero poll now = now
attempt (suc n) poll now = attempt n poll (now + poll)

-- How a wait that starts at `now` ends: with the first attempt that takes the lock, or past the
-- deadline after attempts that all failed.
pub data WaitEnd (free : ℕ → Bool) (poll deadline now : ℕ) : Option ℕ → Type 0 where
  takes :
      (n : ℕ)
      → ((i : ℕ) → i < n → free (attempt i poll now) ≡ false)
      → free (attempt n poll now) ≡ true
      → WaitEnd free poll deadline now (some (attempt n poll now))
  gives_up :
      (n : ℕ)
      → ((i : ℕ) → i ≤ n → free (attempt i poll now) ≡ false)
      → deadline ≤ attempt n poll now
      → WaitEnd free poll deadline now none

module _ (free : ℕ → Bool) (poll deadline : ℕ) where
  later_end :
      (now : ℕ) (r : Option ℕ)
      → free now ≡ false
      → WaitEnd free poll deadline (now + poll) r
      → WaitEnd free poll deadline now r
  later_end now r e (takes n before at) = takes (suc n) all at
    where
      all : (i : ℕ) → i < suc n → free (attempt i poll now) ≡ false
      all zero h = e
      all (suc i) h = before i (omega (arith, h))
  later_end now r e (gives_up n before late) = gives_up (suc n) all late
    where
      all : (i : ℕ) → i ≤ suc n → free (attempt i poll now) ≡ false
      all zero h = e
      all (suc i) h = before i (omega (arith, h))

  at_once : (now : ℕ) → free now ≡ false → (i : ℕ) → i ≤ 0 → free (attempt i poll now) ≡ false
  at_once now e zero h = e
  at_once now e (suc i) h = absurd (omega (arith, h))

  Ends : ℕ → ℕ → Type 0
  Ends fuel now =
      (r : Option ℕ) × (wait_lock fuel free poll deadline now ≡ some r)
      × WaitEnd free poll deadline now r

  -- One attempt, with what follows it.
  one_attempt :
      (fuel now : ℕ)
      → (free now ≡ false → (leb deadline now ≡ false) → Ends fuel (now + poll))
      → Ends (suc fuel) now
  unfolding wait_lock Ends
  one_attempt fuel now rest = elim (Bool-cases (free now)) [
    | inl e ↦ (some now, simp e refl, takes 0 (λ i h. absurd (omega (arith, h))) e)
    | inr e ↦ elim (Bool-cases (leb deadline now)) [
      | inl late ↦ (none, simp (e, late) refl, gives_up 0 (at_once now e) (ground arith))
      | inr early ↦
          let (r, same, end) = rest e early in
          (r, simp (e, early, same) refl, later_end now r e end)
    ]
  ]

-- With fuel for the attempts up to one at or past the deadline, the wait ends: with the first attempt
-- that takes the lock, or, past the deadline, after attempts that all failed.
pub wait_lock-WaitEnd :
    (free : ℕ → Bool) (fuel poll deadline now : ℕ)
    → deadline ≤ attempt fuel poll now
    → (r : Option ℕ) × (wait_lock (suc fuel) free poll deadline now ≡ some r)
      × WaitEnd free poll deadline now r
unfolding Ends
wait_lock-WaitEnd free zero poll deadline now h =
    one_attempt free poll deadline zero now (λ e early. absurd (ground arith))
wait_lock-WaitEnd free (suc fuel) poll deadline now h =
    one_attempt free poll deadline (suc fuel) now
      (λ e early. wait_lock-WaitEnd free fuel poll deadline (now + poll) h)
