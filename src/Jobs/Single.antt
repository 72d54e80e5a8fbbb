-- ===== src/Jobs/Single.antt =====
-- No work is done twice at the same time: an upload has one active job at most, and so has each kind of
-- run of a source.
use catworld.Common.{
  ℕ, ◌≤◌, String, ◌≡◌, refl, sym, subst, ap, ◌∙◌, inl, inr, Bool, true, false, ◌&&◌, Option, List,
  [], ◌∷◌, ◌++◌, arith, str_eq, some, All,
}
use catworld.Jobs.{Job, Db, count, is_active, same_text}
use catworld.Jobs.Claim.{Asking, take_job}
use catworld.Jobs.Sources.{is_active_run, is_run_of}
use catworld.Jobs.Tables.{
  All-map, Distinct, Distinct-one, count-keep-le, count-append, count-update-le,
}
use catworld.Jobs.Order.{ClaimEnd, nothing, takes, claim-ClaimEnd}
use catworld.Jobs.Steps.{Ceilings, Step, Run, no_step, one_more}
use catworld.Jobs.Moves.{
  Move, stays, beats, ends, requeues, dismisses, Changes, moves, grows, shrinks, works_on,
}
use catworld.Jobs.Kinds.{Step-kind}
use catworld.Jobs.Attempts.{IsValid, Run-IsValid, eligible_queued}
use catworld.Jobs.Endings.{running_active, queued_active}
use catworld.Jobs.Limits.{Moves-count-le}

abbrev pub IsSingle : List Job → Type 0
IsSingle jobs =
    ((upload : String) → count (works_on upload) jobs ≤ 1)
    × ((source : String) (reconciliation : Bool)
        → count (is_active_run source reconciliation) jobs ≤ 1)

works_on-quiet : (id : String) {j k : Job} → Move j k → works_on id k ≡ true → works_on id j ≡ true
works_on-quiet id (stays j) h = h
works_on-quiet id (beats j now) h = h
works_on-quiet id (ends j k _ closed _ _) h = absurd (ground arith)
works_on-quiet id (dismisses j k _ closed _ _) h = absurd (ground (arith, ap is_active closed))
works_on-quiet id (requeues j k run _ same _) h =
    let up = same.upload in ground (arith, running_active j.status run)

middle : (a b b' c : Bool) → (a && b && c) ≡ true → b' ≡ true → (a && b' && c) ≡ true
middle a b b' c h e = ground arith

is_active_run-quiet :
    (id : String) (r : Bool) {j k : Job}
    → Move j k
    → is_active_run id r k ≡ true
    → is_active_run id r j ≡ true
is_active_run-quiet id r (stays j) h = h
is_active_run-quiet id r (beats j now) h = h
is_active_run-quiet id r (ends j k _ closed _ _) h = absurd (ground arith)
is_active_run-quiet id r (dismisses j k _ closed _ _) h =
    absurd (ground (arith, ap is_active closed))
is_active_run-quiet id r (requeues j k run _ same _) h =
    middle _ _ _ _
      (subst
        (λ p. (str_eq j.type "SOURCE_REFRESH" && is_active k.status && is_run_of id r p) ≡ true)
        same.payload
        (subst
          (λ t.
            (str_eq t "SOURCE_REFRESH" && is_active k.status && is_run_of id r k.payload_json)
            ≡ true)
          same.type h))
      (running_active j.status run)

new_counts :
    (q : Job → Bool) (ks : List Job) (j : Job) (b : Bool)
    → q j ≡ b
    → (q j ≡ true → count q ks ≡ 0)
    → count q ks ≤ 1
    → count q (ks ++ j ∷ []) ≤ 1
new_counts q ks j true e only h = rw (count-append q ks (j ∷ [])) (ground (arith, only))
new_counts q ks j false e only h = rw (count-append q ks (j ∷ [])) (ground arith)

Changes-IsSingle : {js ks : List Job} → Changes js ks → IsSingle js → IsSingle ks
Changes-IsSingle (moves ms) (uploads, runs) = (
  λ u. omega (arith, Moves-count-le (works_on u) (λ j k m h. works_on-quiet u m h) ms, uploads u),
  λ s r. omega (
    arith,
    Moves-count-le (is_active_run s r) (λ j k m h. is_active_run-quiet s r m h) ms,
    runs s r,
  ),
)
Changes-IsSingle (grows {ks} j ms _ _ _ only) (uploads, runs) = (
  λ u.
      new_counts (works_on u) ks j (works_on u j) refl (λ h. only.upload u (ground arith))
        (omega
          (arith, Moves-count-le (works_on u) (λ j k m h. works_on-quiet u m h) ms, uploads u)),
  λ s r. new_counts (is_active_run s r) ks j (is_active_run s r j) refl (only.run s r) (
      omega (
        arith,
        Moves-count-le (is_active_run s r) (λ j k m h. is_active_run-quiet s r m h) ms,
        runs s r,
      )),
)
Changes-IsSingle {js} (shrinks p) (uploads, runs) = (
  λ u. omega (arith, count-keep-le (works_on u) p js, uploads u),
  λ s r. omega (arith, count-keep-le (is_active_run s r) p js, runs s r),
)

-- A claim makes no job active that was not.
ClaimEnd-IsSingle :
    {a : Asking} {now : ℕ} {jobs : List Job} {result : List Job × Option Job}
    → ClaimEnd a now jobs result
    → Distinct jobs
    → IsSingle jobs
    → IsSingle result.0
unfolding take_job
ClaimEnd-IsSingle (nothing _) d s = s
ClaimEnd-IsSingle {a} {now} {jobs} (takes j mem fits _) d (uploads, runs) = (
  λ u. omega (
    arith,
    uploads u,
    count-update-le (works_on u) (λ k. str_eq k.id j.id) (take_job a.locked_by now) jobs
        (All-map _ _ jobs
          (λ k same e h. right (same_text k.upload_id (some u)) (active k (same e)) h) rows),
  ),
  λ s r. omega (
    arith,
    runs s r,
    count-update-le (is_active_run s r) (λ k. str_eq k.id j.id) (take_job a.locked_by now) jobs
        (All-map _ _ jobs (λ k same e h. middle _ _ _ _ h (active k (same e))) rows),
  ),
)
  where
    rows : All (λ k. str_eq k.id j.id ≡ true → k ≡ j) jobs
    rows = Distinct-one j jobs d mem

    active : (k : Job) → k ≡ j → is_active k.status ≡ true
    active k e =
        ap (λ x. is_active x.status) e ∙ queued_active j.status (eligible_queued a now jobs j fits)

    right : (a : Bool) {b : Bool} → b ≡ true → (a && true) ≡ true → (a && b) ≡ true
    right a e h = ground arith

module _ (next_run : String → ℕ → Option ℕ) (keeps : String → Bool) (ceilings : Ceilings) where
  Step-IsSingle :
      {db db' : Db}
      → Step next_run keeps ceilings db db'
      → Distinct db.jobs
      → IsSingle db.jobs
      → IsSingle db'.jobs
  Step-IsSingle {db} {db'} s d one = elim (Step-kind next_run keeps ceilings s) [
    | inl c ↦
        subst IsSingle (sym c.after)
          (ClaimEnd-IsSingle (claim-ClaimEnd c.asking c.now db.jobs) d one)
    | inr changes ↦ Changes-IsSingle changes one
  ]

  -- Whatever is queued, claimed, failed, cancelled, dismissed, recovered, given back or deleted, in any
  -- order, by statements that are one step each: an upload never has two active jobs, and a source
  -- never two active runs of one kind (refresh or reconciliation). It was so at first, when the jobs are
  -- also valid (distinct ids; attempts, owner and pulse as their status asks for), and a failure of a
  -- job that still runs is reported by the executor of its present claim.
  pub Run-IsSingle :
      {db db' : Db}
      → Run next_run keeps ceilings db db'
      → IsValid db.jobs
      → IsSingle db.jobs
      → IsSingle db'.jobs
  Run-IsSingle no_step v one = one
  Run-IsSingle (one_more r s) v one =
      Step-IsSingle s (Run-IsValid next_run keeps ceilings r v).distinct (Run-IsSingle r v one)
