-- ===== src/Refresh/Steps.antt =====
-- Rounds of one source in any number of processes, and the row that they share. A heartbeat and its
-- answer are one step. The timer of a round that has its lease fires within its minute: time passes at
-- most until then.
use mathlib.Core.List.{Memᴰ}
use catworld.Common.{
  ℕ, ◌+◌, ◌≤◌, String, ◌≡◌, Bool, true, false, not, Option, some, List, ◌∷◌, str_eq, All, keep,
}
use catworld.Jobs.{update_where}
use catworld.Refresh.{
  SourceRow, swapping, Round, lease_heartbeat_ms, take_lease, new_round, renew, beat_answered,
  beat_missed, assert_lease, end_round, fail_round, queue_row, job_failed_row, recovered_source_row,
}

pub record World : Type 0 where
  pub now : ℕ
  pub row : SourceRow
  pub rounds : List Round

abbrev pub has_lease : String → Round → Bool
has_lease lease r = str_eq r.lease lease

abbrev pub without : String → List Round → List Round
without lease = keep (λ r. not (has_lease lease r))

module _ (stale_lease_minutes : ℕ) where
  pub data RoundStep : World → World → Type 0 where
    passes :
        (d : ℕ) (w : World)
        → All (λ r. r.lease_lost ≡ false → w.now + d ≤ r.fired_at + lease_heartbeat_ms) w.rounds
        → RoundStep w (record w { now = w.now + d })
    begins :
        (lease : String) (w : World) (row' : SourceRow)
        → take_lease stale_lease_minutes lease w.now w.row ≡ (row', true)
        → RoundStep w (record w { row = row'; rounds = new_round lease w.now ∷ w.rounds })
    beats :
        (lease : String) (w : World)
        → RoundStep w (record w {
          row = (renew lease w.now w.row).0;
          rounds =
              update_where
                (has_lease lease)
                (beat_answered (renew lease w.now w.row).1 w.now)
                w.rounds;
        })
    misses :
        (lease : String) (w : World)
        → RoundStep w (record w {
          rounds = update_where (has_lease lease) (beat_missed stale_lease_minutes w.now) w.rounds;
        })
    swaps :
        (w : World) (r r' : Round)
        → Memᴰ r w.rounds
        → assert_lease r ≡ some r'
        → RoundStep w (record w { rounds = r' ∷ without r.lease w.rounds })
    ends :
        (status : String) (last_error : Option String) (w : World) (r : Round)
        → Memᴰ r w.rounds
        → r.phase ≡ swapping
        → RoundStep w (record w {
          row = end_round status last_error w.now w.row;
          rounds = without r.lease w.rounds;
        })
    fails :
        (message : String) (w : World) (r : Round)
        → Memᴰ r w.rounds
        → RoundStep w
            (record w { row = fail_round r message w.now w.row; rounds = without r.lease w.rounds })
    dies : (lease : String) (w : World) → RoundStep w (record w { rounds = without lease w.rounds })
    queues :
        (last_error : Option String) (w : World)
        → RoundStep w (record w { row = queue_row last_error w.now w.row })
    job_fails :
        (retry : Bool) (message : String) (w : World)
        → RoundStep w (record w { row = job_failed_row retry message w.now w.row })
    recovers : (w : World) → RoundStep w (record w { row = recovered_source_row w.now w.row })

  -- What the code leaves to the outside: the last update of a round, which looks at no lease, is made
  -- before the lease is lost; the worker and the recovery write when no round believes to have its
  -- lease.
  abbrev pub IsGuarded : {w w' : World} → RoundStep w w' → Type 0
  IsGuarded (passes _ _ _) = Unit
  IsGuarded (begins _ _ _ _) = Unit
  IsGuarded (beats _ _) = Unit
  IsGuarded (misses _ _) = Unit
  IsGuarded (swaps _ _ _ _ _) = Unit
  IsGuarded (ends _ _ _ r _ _) = r.lease_lost ≡ false
  IsGuarded (fails _ _ _ _) = Unit
  IsGuarded (dies _ _) = Unit
  IsGuarded (queues _ _) = Unit
  IsGuarded (job_fails _ _ w) = All (λ r. r.lease_lost ≡ true) w.rounds
  IsGuarded (recovers w) = All (λ r. r.lease_lost ≡ true) w.rounds

  -- Any number of steps.
  pub data Rounds (w : World) : World → Type 0 where
    no_step : Rounds w w
    one_more : {w' w'' : World} → Rounds w w' → RoundStep w' w'' → Rounds w w''

  abbrev pub IsGuardedRun : {w w' : World} → Rounds w w' → Type 0
  IsGuardedRun no_step = Unit
  IsGuardedRun (one_more r s) = IsGuardedRun r × IsGuarded s
