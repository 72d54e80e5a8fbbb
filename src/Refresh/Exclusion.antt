-- ===== src/Refresh/Exclusion.antt =====
-- The lease excludes: at most one round at a time believes that it has it, and then it has it.
use mathlib.Core.List.{Memᴰ}
use catworld.Common.{
  ℕ, ◌+◌, ◌≤◌, String, ◌≡◌, sym, subst, inl, inr, Bool, true, false, ◌||◌, not, Option, none, some,
  List, [], ◌∷◌, arith, All, lookup, Bool-cases,
}
use catworld.Jobs.{update_where, count}
use catworld.Jobs.Tables.{
  All-Memᴰ, All-map, All-update, All-All, All-keep, count-keep-le, count-update-le,
}
use catworld.Refresh.{
  SourceRow, swapping, Round, lease_heartbeat_ms, is_busy, leased_row, take_lease, new_round, renew,
  beat_answered, beat_missed, assert_lease, fail_round, queue_row,
}
use catworld.Refresh.Steps.{
  World, has_lease, without, RoundStep, passes, begins, beats, misses, swaps, ends, fails, dies,
  queues, job_fails, recovers, IsGuarded, Rounds, IsGuardedRun, no_step, one_more,
}
use catworld.Refresh.Held.{
  IsHeld, believes, IsExclusive, All_map_to, IsLost, IsLost-all, held_lost, count_lost, alone,
  only_lost, max_pos, owned_row, taken_row, beat_held, miss_held,
}
use catworld.Settings.Range.{pick_int_range}
use catworld.Source.{int, get_source_settings}

-- What the steps keep, one lemma for each.
begin-IsExclusive :
    (minutes : ℕ) (lease : String) (w : World) (row' : SourceRow)
    → 2 ≤ minutes
    → take_lease minutes lease w.now w.row ≡ (row', true)
    → IsExclusive minutes w
    → IsExclusive minutes (record w { row = row'; rounds = new_round lease w.now ∷ w.rounds })
begin-IsExclusive minutes lease w row' two e x =
    let lost = IsLost-all minutes lease w.now w.row row' w.rounds two e x.held in
    let none_left = count_lost w.rounds lost in
    subst
      (λ r. IsExclusive minutes (record w { row = r; rounds = new_round lease w.now ∷ w.rounds }))
      (sym (taken_row minutes lease w.now w.row row' e))
      (record {
        held = (
          λ alive. (owned_row lease w.now w.row, omega arith, omega arith, max_pos minutes),
          held_lost minutes w.now (leased_row lease w.now w.row) w.rounds lost,
        );
        single = omega (arith, none_left);
      })

still_believes :
    (lease : String) (f : Round → Round) (rs : List Round)
    → ((r : Round) → believes (f r) ≡ true → believes r ≡ true)
    → count believes (update_where (has_lease lease) f rs) ≤ count believes rs
still_believes lease f rs h =
    count-update-le believes (has_lease lease) f rs (All-All _ rs (λ r _ b. h r b))

beat_answered-IsExclusive :
    (minutes : ℕ) (lease : String) (w : World)
    → IsExclusive minutes w
    → IsExclusive minutes (record w {
      row = (renew lease w.now w.row).0;
      rounds =
          update_where (has_lease lease) (beat_answered (renew lease w.now w.row).1 w.now) w.rounds;
    })
unfolding beat_answered
beat_answered-IsExclusive minutes lease w x = record {
  held = All_map_to _ _ _ w.rounds (beat_held minutes w.now lease w.row) x.held;
  single =
      let less =
        still_believes lease (beat_answered (renew lease w.now w.row).1 w.now) w.rounds
          (λ r b. kept r.lease_lost (renew lease w.now w.row).1 b) in
      let one = x.single in omega (arith, less, one);
}
  where
    kept : (lost met : Bool) → not (lost || not met) ≡ true → not lost ≡ true
    kept lost met h = ground arith

beat_missed-IsExclusive :
    (minutes : ℕ) (lease : String) (w : World)
    → IsExclusive minutes w
    → IsExclusive minutes
        (record w { rounds = update_where (has_lease lease) (beat_missed minutes w.now) w.rounds })
unfolding beat_missed
beat_missed-IsExclusive minutes lease w x = record {
  held =
      All-update (IsHeld minutes w.now w.row) (has_lease lease) (beat_missed minutes w.now) w.rounds
        (All-All _ w.rounds (λ r h _. miss_held minutes w.now w.row r h)) x.held;
  single =
      let less =
        still_believes lease (beat_missed minutes w.now) w.rounds (λ r b. kept r.lease_lost _ b) in
      let one = x.single in omega (arith, less, one);
}
  where
    kept : (lost late : Bool) → not (lost || late) ≡ true → not lost ≡ true
    kept lost late h = ground arith

-- A round that has its lease is the only one that believes so.
others-IsLost :
    (minutes : ℕ) (w : World) (r : Round)
    → Memᴰ r w.rounds
    → r.lease_lost ≡ false
    → IsExclusive minutes w
    → All IsLost (without r.lease w.rounds)
others-IsLost minutes w r mem alive x =
    alone minutes w.now w.row r.lease w.rounds (All-Memᴰ _ r w.rounds x.held mem alive).0 x.held

removed :
    (minutes : ℕ) (lease : String) (w : World)
    → IsExclusive minutes w
    → IsExclusive minutes (record w { rounds = without lease w.rounds })
removed minutes lease w x = record {
  held = All-keep _ _ w.rounds x.held;
  single =
      let less = count-keep-le believes (λ r. not (has_lease lease r)) w.rounds in
      let one = x.single in omega (arith, less, one);
}

swap-IsExclusive :
    (minutes : ℕ) (w : World) (r r' : Round)
    → Memᴰ r w.rounds
    → assert_lease r ≡ some r'
    → IsExclusive minutes w
    → IsExclusive minutes (record w { rounds = r' ∷ without r.lease w.rounds })
unfolding assert_lease
swap-IsExclusive minutes w r r' mem e x =
    let alive : r.lease_lost ≡ false = ground arith in
    let same : record r { phase = swapping } ≡ r' = ground arith in
    let lost = others-IsLost minutes w r mem alive x in
    let none_left = count_lost (without r.lease w.rounds) lost in
    subst (λ k. IsExclusive minutes (record w { rounds = k ∷ without r.lease w.rounds })) same
      (record {
        held = (
          λ still. All-Memᴰ _ r w.rounds x.held mem still,
          held_lost minutes w.now w.row (without r.lease w.rounds) lost,
        );
        single = ground (arith, none_left);
      })

fail-IsExclusive :
    (minutes : ℕ) (message : String) (w : World) (r : Round)
    → Memᴰ r w.rounds
    → IsExclusive minutes w
    → IsExclusive minutes
        (record w { row = fail_round r message w.now w.row; rounds = without r.lease w.rounds })
unfolding fail_round
fail-IsExclusive minutes message w r mem x = elim (Bool-cases r.lease_lost) [
  | inl lost ↦ simp lost (removed minutes r.lease w x)
  | inr alive ↦ simp alive (only_lost minutes w.now _ _ (others-IsLost minutes w r mem alive x))
]

queue-IsExclusive :
    (minutes : ℕ) (last_error : Option String) (w : World)
    → IsExclusive minutes w
    → IsExclusive minutes (record w { row = queue_row last_error w.now w.row })
unfolding queue_row
queue-IsExclusive minutes last_error w x = elim (Bool-cases (is_busy w.row)) [
  | inl busy ↦ simp busy x
  | inr free ↦
      simp free (only_lost minutes w.now _ w.rounds (All-map _ _ w.rounds (lost free) x.held))
]
  where
    lost : is_busy w.row ≡ false → (r : Round) → IsHeld minutes w.now w.row r → IsLost r
    lost free r h = elim (Bool-cases r.lease_lost) [
      | inl l ↦ l
      | inr alive ↦ let own = (h alive).0 in absurd (ground arith)
    ]

module _ (minutes : ℕ) (two : 2 ≤ minutes) where
  Step-IsExclusive :
      {w w' : World} (s : RoundStep minutes w w')
      → IsGuarded minutes s
      → IsExclusive minutes w
      → IsExclusive minutes w'
  Step-IsExclusive (passes d w in_time) g x = record {
    held = both w.rounds x.held in_time;
    single = x.single;
  }
    where
      both :
          (rs : List Round)
          → All (IsHeld minutes w.now w.row) rs
          → All (λ r. r.lease_lost ≡ false → w.now + d ≤ r.fired_at + lease_heartbeat_ms) rs
          → All (IsHeld minutes (w.now + d) w.row) rs
      both [] h t = tt
      both (r ∷ rs) h t = (
        λ alive. let (own, near, old, few) = h.0 alive in (own, t.0 alive, old, few),
        both rs h.1 t.1,
      )
  Step-IsExclusive (begins lease w row' e) g x = begin-IsExclusive minutes lease w row' two e x
  Step-IsExclusive (beats lease w) g x = beat_answered-IsExclusive minutes lease w x
  Step-IsExclusive (misses lease w) g x = beat_missed-IsExclusive minutes lease w x
  Step-IsExclusive (swaps w r r' mem e) g x = swap-IsExclusive minutes w r r' mem e x
  Step-IsExclusive (ends status last_error w r mem _) alive x =
      only_lost minutes w.now _ _ (others-IsLost minutes w r mem alive x)
  Step-IsExclusive (fails message w r mem) g x = fail-IsExclusive minutes message w r mem x
  Step-IsExclusive (dies lease w) g x = removed minutes lease w x
  Step-IsExclusive (queues last_error w) g x = queue-IsExclusive minutes last_error w x
  Step-IsExclusive (job_fails retry message w) lost x = only_lost minutes w.now _ w.rounds lost
  Step-IsExclusive (recovers w) lost x = only_lost minutes w.now _ w.rounds lost

  IsExclusive-always :
      {w w' : World} (r : Rounds minutes w w')
      → IsGuardedRun minutes r
      → IsExclusive minutes w
      → IsExclusive minutes w'
  IsExclusive-always no_step g x = x
  IsExclusive-always (one_more r s) g x = Step-IsExclusive s g.1 (IsExclusive-always r g.0 x)

stale_lease_bound :
    (number : String → Option ℕ) (by : Option (List (String × String)))
    → 2 ≤ (get_source_settings number by).stale_lease_minutes
unfolding get_source_settings int
stale_lease_bound number none = omega arith
stale_lease_bound number (some by) =
    (pick_int_range number (lookup "source.stale_lease_minutes" by) 15 2 1440 (omega arith)
      (omega arith)).0

-- With the minutes that the settings give, whatever they hold, timers that fire in time, and heartbeats
-- that are one step with their answer: rounds of one source that begin, renew their leases or fail to,
-- swap, end, fail or die, and requests that mark the source, in any order, never lead to two rounds that
-- believe to have the lease; and the one that believes it owns the row. It was so at first. The
-- condition is on the writes that look at no lease: in the run no round makes its last update after its
-- lease is lost, and the worker's failure and the recovery write the row only when no round believes to
-- have its lease.
pub Rounds-IsExclusive :
    (number : String → Option ℕ) (by : Option (List (String × String))) {w w' : World}
    (run : Rounds (get_source_settings number by).stale_lease_minutes w w')
    → IsGuardedRun (get_source_settings number by).stale_lease_minutes run
    → IsExclusive (get_source_settings number by).stale_lease_minutes w
    → IsExclusive (get_source_settings number by).stale_lease_minutes w'
Rounds-IsExclusive number by run guarded x =
    IsExclusive-always (get_source_settings number by).stale_lease_minutes
      (stale_lease_bound number by) run guarded x
