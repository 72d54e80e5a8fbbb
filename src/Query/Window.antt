-- ===== src/Query/Window.antt =====
-- No minute sees more requests than the limit, and a client that waits as long as it is told gets through.
use catworld.Common.{
  ℕ, ◌+◌, ◌-◌, ◌*◌, ◌≤◌, ◌<◌, String, ◌≡◌, refl, ◌∙◌, Bool, true, false, some, List, [], ◌∷◌, ◌++◌,
  arith, if◌then◌else◌, ◌&&◌, leb, keep, length, length-keep-le, Bool-cases, inl, inr, lookup,
  get_or, lookup-insert, str_eq,
}
use catworld.Query.ResultCache.{ceil_div}
use catworld.Query.RateLimit.{
  RateLimitTier, limit_of, window_key, first_or_zero, in_window, recent, Verdict, passes, limited,
  check_window, check_rate_limit,
}

-- How many of the times lie in the minute that ends at `u`.
abbrev pub used_at : ℕ → List ℕ → ℕ
used_at u times = length (keep (λ t. in_window u t) times)

abbrev pub accepted : Verdict → Bool
accepted passes = true
accepted (limited s) = false

-- One window over a sequence of requests: what is kept of the times, and all that were let through.
abbrev pub admit : ℕ → ℕ → List ℕ × List ℕ → List ℕ × List ℕ
admit limit now (times, log) =
    let (verdict, times') = check_window limit now times in
    (times', if accepted verdict then log ++ now ∷ [] else log)

abbrev pub admit_all : ℕ → List ℕ → List ℕ × List ℕ → List ℕ × List ℕ
admit_all limit [] s = s
admit_all limit (now ∷ nows) s = admit_all limit nows (admit limit now s)

-- The clock does not run back.
abbrev pub Rising : ℕ → List ℕ → Type 0
Rising t [] = Unit
Rising t (now ∷ nows) = (t ≤ now) × Rising now nows

used_at-append :
    (u now : ℕ) (ts : List ℕ)
    → used_at u (ts ++ now ∷ []) ≡ used_at u ts + (if in_window u now then 1 else 0)
used_at-append u now [] = ground arith
used_at-append u now (t ∷ ts) = ground (arith, used_at-append u now ts)

used_at-recent : (u now : ℕ) (ts : List ℕ) → now ≤ u → used_at u (recent now ts) ≡ used_at u ts
used_at-recent u now [] h = refl
used_at-recent u now (t ∷ ts) h = ground (arith, used_at-recent u now ts h)

used_at-later : (u v : ℕ) (ts : List ℕ) → u ≤ v → used_at v ts ≤ used_at u ts
used_at-later u v [] h = omega arith
used_at-later u v (t ∷ ts) h = ground (arith, used_at-later u v ts h)

-- The times of the minute that ends at `u`.
abbrev pub within : ℕ → List ℕ → ℕ
within u times = length (keep (λ t. leb t u && in_window u t) times)

within-used_at-le : (u : ℕ) (ts : List ℕ) → within u ts ≤ used_at u ts
within-used_at-le u [] = omega arith
within-used_at-le u (t ∷ ts) = ground (arith, within-used_at-le u ts)

within-append :
    (u now : ℕ) (ts : List ℕ)
    → within u (ts ++ now ∷ []) ≡ within u ts + (if leb now u && in_window u now then 1 else 0)
within-append u now [] = ground arith
within-append u now (t ∷ ts) = ground (arith, within-append u now ts)

-- At and after `t` the window knows all that was let through, and no minute has too much.
record IsLimited (limit t : ℕ) (s : List ℕ × List ℕ) : Type 0 where
  complete : (u : ℕ) → t ≤ u → used_at u s.0 ≡ used_at u s.1
  bounded : (u : ℕ) → within u s.1 ≤ limit

module _ (limit t now : ℕ) (times log : List ℕ) (h : IsLimited limit t (times, log))
    (later : t ≤ now) where
  admitted-bounded :
      length (recent now times) < limit → (u : ℕ) → within u (log ++ now ∷ []) ≤ limit
  admitted-bounded free u = ground (
    arith,
    within-append u now log,
    within-used_at-le u log,
    used_at-later now u log,
    h.bounded u,
    h.complete now later,
  )

  admit-IsLimited : IsLimited limit now (admit limit now (times, log))
  unfolding check_window
  admit-IsLimited = elim (Bool-cases (leb limit (length (recent now times)))) [
    | inl full ↦ simp full record {
      complete = λ u b. used_at-recent u now times b ∙ h.complete u (omega (arith, later, b));
      bounded = h.bounded;
    }
    | inr free ↦ simp free record {
      complete = λ u b. omega (
        arith,
        used_at-append u now (recent now times),
        used_at-append u now log,
        used_at-recent u now times b,
        h.complete u (omega (arith, later, b)),
      );
      bounded = admitted-bounded (ground arith);
    }
  ]

admit_all-IsLimited :
    (limit t : ℕ) (nows : List ℕ) (s : List ℕ × List ℕ)
    → Rising t nows
    → IsLimited limit t s
    → (u : ℕ) → within u (admit_all limit nows s).1 ≤ limit
admit_all-IsLimited limit t [] s r h = h.bounded
admit_all-IsLimited limit t (now ∷ nows) s r h =
    admit_all-IsLimited limit now nows (admit limit now s) r.1
      (admit-IsLimited limit t now s.0 s.1 h r.0)

-- However requests come in, by a clock that does not run back, at most as many as the limit are let
-- through in any minute, also in one that starts between two of them.
pub admit_all-bounded :
    (limit : ℕ) (nows : List ℕ) (u : ℕ)
    → Rising 0 nows
    → within u (admit_all limit nows ([], [])).1 ≤ limit
admit_all-bounded limit nows u r =
    admit_all-IsLimited limit 0 nows ([], []) r
      (record { complete = λ u b. refl; bounded = λ u. omega arith }) u

-- Once the oldest time has left the minute, one place at least is free.
oldest_leaves :
    (now v t : ℕ) (ts : List ℕ) → now ≤ v → t + 60000 ≤ v → length (recent v (t ∷ ts)) ≤ length ts
oldest_leaves now v t ts h e = ground (arith, length-keep-le (in_window v) ts)

recent_free :
    (now v : ℕ) (live : List ℕ) (limit : ℕ)
    → now ≤ v
    → 0 < limit
    → length live ≤ limit
    → first_or_zero live + 60000 ≤ v
    → length (recent v live) < limit
recent_free now v [] limit h p l e = p
recent_free now v (t ∷ ts) limit h p l e = omega (arith, oldest_leaves now v t ts h e, l)

ceil_div-le : (a s : ℕ) → ceil_div a 1000 ≡ s → a ≤ s * 1000
ceil_div-le a s e = omega (arith, e)

full_free :
    (now limit : ℕ) (live : List ℕ)
    → length (recent now live) < limit
    → (check_window limit now live).0 ≡ passes
unfolding check_window
full_free now limit live h = ground arith

refused :
    (now limit s : ℕ) (times : List ℕ)
    → (check_window limit now times).0 ≡ limited s
    → ((check_window limit now times).1 ≡ recent now times)
      × (ceil_div (first_or_zero (recent now times) + 60000 - now) 1000 ≡ s)
unfolding check_window
refused now limit s times e = ground arith

-- A request that is refused is told a number of seconds; if nothing is let through under its key
-- before, it passes after that time (the window holds at most the limit, which is above 0).
pub retry_passes :
    (now limit s : ℕ) (times : List ℕ)
    → 0 < limit
    → length (recent now times) ≤ limit
    → (check_window limit now times).0 ≡ limited s
    → (check_window limit (now + s * 1000) (check_window limit now times).1).0 ≡ passes
retry_passes now limit s times p l e =
    let (kept, told) = refused now limit s times e in
    let waited = ceil_div-le (first_or_zero (recent now times) + 60000 - now) s told in
    rw (kept) (
      full_free (now + s * 1000) limit (recent now times) (
        recent_free now (now + s * 1000) (recent now times) limit (omega arith) p l
          (omega (arith, waited))))

-- A request under one key leaves the windows of the other keys as they are, and its own window
-- becomes what the check makes of it.
pub lookup-check_rate_limit :
    (now : ℕ) (principal other : String) (tier : RateLimitTier) (windows : List (String × List ℕ))
    → let r = check_rate_limit now principal tier windows in
      let w =
        check_window (limit_of tier) now (get_or (lookup (window_key principal tier) windows) []) in
      (r.0 ≡ w.0)
      × (lookup other r.1
          ≡ (if str_eq (window_key principal tier) other then some w.1 else lookup other windows))
unfolding check_rate_limit
lookup-check_rate_limit now principal other tier windows =
    (refl, lookup-insert (window_key principal tier) other _ windows)
