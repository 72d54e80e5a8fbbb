-- ===== src/Worker/Runtime/Waits.antt =====
-- The waits end, and what they end with.
use catworld.Common.{
  ℕ, zero, suc, ◌+◌, ◌≤◌, ◌<◌, String, ◌≡◌, ◌≢◌, refl, ◌⊎◌, inl, inr, Bool, true, false, Option,
  none, some, arith, leb, ◌==◌, Bool-cases,
}
use catworld.Worker.Runtime.{
  wait_idle, Liveness, Identity, parse_liveness, identity_conflict, wait_free, wait_identity_free,
}

-- How the wait ends from a time on.
abbrev pub IdleEnd : (ℕ → ℕ) → ℕ → ℕ → Option Bool → Type 0
IdleEnd inflight_at limit now result =
    (t : ℕ) × (now ≤ t)
    × (((result ≡ some true) × (inflight_at t ≡ 0))
        ⊎ ((result ≡ some false) × (inflight_at t ≢ 0) × (limit ≤ t)))

IdleEnd-later :
    (inflight_at : ℕ → ℕ) (limit now poll : ℕ) (result : Option Bool)
    → IdleEnd inflight_at limit (now + poll) result
    → IdleEnd inflight_at limit now result
IdleEnd-later inflight_at limit now poll result (t, h, e) = (t, omega (arith, h), e)

-- With a poll above 0 and fuel for each millisecond up to the limit and one more, the wait ends: with
-- true at a time when no job was running, or with false at a time at or after the limit when one was.
pub wait_idle_ends :
    (f : ℕ) (inflight_at : ℕ → ℕ) (limit poll now : ℕ)
    → 0 < poll
    → 0 < f
    → limit < now + f
    → IdleEnd inflight_at limit now (wait_idle f inflight_at limit poll now)
unfolding wait_idle
wait_idle_ends zero inflight_at limit poll now p q h = absurd (omega (arith, q))
wait_idle_ends (suc f) inflight_at limit poll now p q h = elim (Bool-cases (inflight_at now == 0)) [
  | inl idle ↦ simp idle (now, omega arith, inl (refl, ground arith))
  | inr busy ↦ elim (Bool-cases (leb limit now)) [
    | inl late ↦ simp (busy, late) (now, omega arith, inr (refl, (λ e. ground arith), ground arith))
    | inr early ↦
        simp (busy, early)
          (IdleEnd-later inflight_at limit now poll _ (
            wait_idle_ends f inflight_at limit poll (now + poll) p (ground arith)
              (omega (arith, h, p))))
  ]
]

-- A pulse that nobody renews.
module _ (parse_date : String → Option ℕ) (number : String → ℕ) (raw : String) (me : Identity)
    (is_pid_alive : ℕ → Bool) where
  abbrev pulse : Liveness
  pulse = parse_liveness parse_date number raw

  stale_frees :
      (t : ℕ)
      → pulse.at + 45000 < t
      → identity_conflict parse_date number (some raw) me t is_pid_alive ≡ false
  unfolding identity_conflict
  stale_frees t h = ground arith

  wait_free_ends :
      (f limit now : ℕ)
      → 0 < f
      → limit < now + f
      → pulse.at + 47001 ≤ limit
      → (now ≤ limit)
      → wait_free f
          (λ t. identity_conflict parse_date number (some raw) me t is_pid_alive)
          limit
          2000
          now
        ≡ some true
  unfolding wait_free
  wait_free_ends zero limit now q h b e = absurd (omega (arith, q))
  wait_free_ends (suc f) limit now q h b e =
      elim (Bool-cases (identity_conflict parse_date number (some raw) me now is_pid_alive)) [
        | inr free ↦ simp free refl
        | inl busy ↦
            let fresh : now ≤ pulse.at + 45000 = ground (arith, busy, stale_frees now) in
            let early : leb limit now ≡ false = ground (arith, fresh, b) in
            simp (busy, early)
              (wait_free_ends f limit (now + 2000) (omega (arith, fresh, b, h)) (omega (arith, h)) b
                (omega (arith, fresh, b)))
      ]

-- A worker that is started again while the pulse of a process that is gone looks fresh waits and gets
-- its identity, with the default limit of 60 seconds, if the pulse lies in the past and is not renewed
-- (the fuel is 60001 polls, of which the loop needs at most 31).
pub stale_identity_freed :
    (parse_date : String → Option ℕ) (number : String → ℕ) (raw : String) (me : Identity)
    (is_pid_alive : ℕ → Bool) (start : ℕ)
    → (parse_liveness parse_date number raw).at ≤ start
    → wait_identity_free 60001
        (λ t. identity_conflict parse_date number (some raw) me t is_pid_alive)
        none
        none
        start
      ≡ some true
unfolding wait_identity_free
stale_identity_freed parse_date number raw me is_pid_alive start h =
    wait_free_ends parse_date number raw me is_pid_alive 60001 (start + 60000) start (omega arith)
      (omega arith) (omega (arith, h)) (omega arith)
