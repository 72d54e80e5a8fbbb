-- ===== src/Jobs/Attempts.antt =====
-- The invariant of the jobs: ids occur once, attempts are counted within their limit.
use catworld.Common.{
  ℕ, ◌≤◌, ◌<◌, String, ◌≡◌, refl, sym, subst, ap, ◌∙◌, inl, inr, Bool, true, false, Option, some,
  keep, Bool-cases, List, [], ◌∷◌, ◌++◌, arith, str_eq, All, is_some, eq_iff,
}
use catworld.Jobs.{
  JobStatus, queued, running, completed, failed, Job, Db, is_queued, is_running, is_active,
}
use catworld.Jobs.Claim.{Asking, is_eligible, take_job}
use catworld.Jobs.Tables.{
  All-keep, All-update, All-append, All-map, Distinct, Distinct-update, Distinct-one,
}
use catworld.Jobs.Order.{ClaimEnd, nothing, takes, claim-ClaimEnd}
use catworld.Jobs.Steps.{Ceilings, Step, Run, no_step, one_more, IsNew}
use catworld.Jobs.Moves.{
  Move, stays, beats, ends, requeues, dismisses, Moves, none_left, row, Changes, moves, grows,
  shrinks,
}
use catworld.Jobs.Kinds.{Step-kind}

-- A job in the queue has attempts left; one that runs has made one, has an owner and a pulse.
abbrev pub IsCounted : JobStatus → Job → Type 0
IsCounted queued j = j.attempts < j.max_attempts
IsCounted running j =
    (0 < j.attempts)
    × (j.attempts ≤ j.max_attempts)
    × (is_some j.locked_by ≡ true)
    × (is_some j.heartbeat_at ≡ true)
IsCounted completed j = j.attempts ≤ j.max_attempts
IsCounted failed j = j.attempts ≤ j.max_attempts

abbrev pub IsKept : Job → Type 0
IsKept j = IsCounted j.status j

within : (s : JobStatus) (j : Job) → IsCounted s j → j.attempts ≤ j.max_attempts
within queued j h = omega arith
within running j h = h.1
within completed j h = h
within failed j h = h

closed-IsCounted :
    (s : JobStatus) (j : Job) → is_active s ≡ false → j.attempts ≤ j.max_attempts → IsCounted s j
closed-IsCounted queued j e h = cc
closed-IsCounted running j e h = cc
closed-IsCounted completed j e h = h
closed-IsCounted failed j e h = h

queued-IsCounted :
    (s : JobStatus) (j : Job) → is_queued s ≡ true → j.attempts < j.max_attempts → IsCounted s j
queued-IsCounted queued j e h = h
queued-IsCounted running j e h = cc
queued-IsCounted completed j e h = cc
queued-IsCounted failed j e h = cc

counted_queued :
    (s : JobStatus) (j : Job) → is_queued s ≡ true → IsCounted s j → j.attempts < j.max_attempts
counted_queued queued j e h = h
counted_queued running j e h = cc
counted_queued completed j e h = cc
counted_queued failed j e h = cc

running-IsCounted :
    (s : JobStatus) (j : Job)
    → is_running s ≡ true
    → IsCounted s j
    → (0 < j.attempts) × (j.attempts ≤ j.max_attempts)
running-IsCounted queued j e h = cc
running-IsCounted running j e h = (h.0, h.1)
running-IsCounted completed j e h = cc
running-IsCounted failed j e h = cc

beat-IsCounted :
    (s : JobStatus) (j : Job) (now : ℕ)
    → IsCounted s j
    → IsCounted s (record j { heartbeat_at = some now })
beat-IsCounted queued j now h = h
beat-IsCounted running j now h = (h.0, h.1, h.2, refl)
beat-IsCounted completed j now h = h
beat-IsCounted failed j now h = h

Move-IsKept : {j k : Job} → Move j k → IsKept j → IsKept k
Move-IsKept (stays j) h = h
Move-IsKept (beats j now) h = beat-IsCounted j.status j now h
Move-IsKept (ends j k active closed same tries) h =
    let w = within j.status j h in
    let most = same.most in closed-IsCounted k.status k closed (omega (arith, w, most, tries))
Move-IsKept (requeues j k run back same left) h =
    let (p, q) = running-IsCounted j.status j run h in queued-IsCounted k.status k back (left p q)
Move-IsKept (dismisses j k _ closed same tries) h =
    let w = within j.status j h in
    let most = same.most in
    closed-IsCounted k.status k (ap is_active closed) (omega (arith, w, most, tries))

Moves-IsKept : {js ks : List Job} → Moves js ks → All IsKept js → All IsKept ks
Moves-IsKept none_left h = tt
Moves-IsKept (row m ms) h = (Move-IsKept m h.0, Moves-IsKept ms h.1)

pub Move-id : {j k : Job} → Move j k → k.id ≡ j.id
Move-id (stays j) = refl
Move-id (beats j now) = refl
Move-id (ends j k _ _ same _) = same.id
Move-id (requeues j k _ _ same _) = same.id
Move-id (dismisses j k _ _ same _) = same.id

Moves-IsNew : {js ks : List Job} (id : String) → Moves js ks → IsNew id js → IsNew id ks
Moves-IsNew id none_left h = tt
Moves-IsNew id (row m ms) h = (ap (λ i. str_eq i id) (Move-id m) ∙ h.0, Moves-IsNew id ms h.1)

Moves-Distinct : {js ks : List Job} → Moves js ks → Distinct js → Distinct ks
Moves-Distinct none_left d = tt
Moves-Distinct (row {j} {k} {js} {ks} m ms) d =
    (subst (λ i. IsNew i ks) (sym (Move-id m)) (Moves-IsNew j.id ms d.0), Moves-Distinct ms d.1)

Distinct-append : (js : List Job) (j : Job) → Distinct js → IsNew j.id js → Distinct (js ++ j ∷ [])
Distinct-append [] j d new = (tt, tt)
Distinct-append (k ∷ ks) j d new =
    (All-append _ ks (j ∷ []) d.0 (flipped, tt), Distinct-append ks j d.1 new.1)
  where
    flipped : str_eq j.id k.id ≡ false
    flipped = ground (arith, new.0, eq_iff k.id j.id, eq_iff j.id k.id)

Distinct-keep : (p : Job → Bool) (js : List Job) → Distinct js → Distinct (keep p js)
Distinct-keep p [] d = tt
Distinct-keep p (j ∷ js) d = elim (Bool-cases (p j)) [
  | inl e ↦ simp e (All-keep _ p js d.0, Distinct-keep p js d.1)
  | inr e ↦ simp e (Distinct-keep p js d.1)
]

pub record IsValid (jobs : List Job) : Type 0 where
  pub distinct : Distinct jobs
  pub counted : All IsKept jobs

Changes-IsValid : {js ks : List Job} → Changes js ks → IsValid js → IsValid ks
Changes-IsValid (moves ms) v = record {
  distinct = Moves-Distinct ms v.distinct;
  counted = Moves-IsKept ms v.counted;
}
Changes-IsValid (grows {ks} j ms new q h _) v = record {
  distinct = Distinct-append ks j (Moves-Distinct ms v.distinct) (Moves-IsNew j.id ms new);
  counted =
      All-append IsKept ks (j ∷ []) (Moves-IsKept ms v.counted)
        (queued-IsCounted j.status j q h, tt);
}
Changes-IsValid {js} (shrinks p) v = record {
  distinct = Distinct-keep p js v.distinct;
  counted = All-keep IsKept p js v.counted;
}

pub eligible_queued :
    (a : Asking) (now : ℕ) (jobs : List Job) (j : Job)
    → is_eligible a now jobs j ≡ true
    → is_queued j.status ≡ true
unfolding is_eligible
eligible_queued a now jobs j h = ground arith

taken-IsKept :
    (by : String) (now : ℕ) (j : Job)
    → is_queued j.status ≡ true
    → IsKept j
    → IsKept (take_job by now j)
unfolding take_job
taken-IsKept by now j q h =
    let left = counted_queued j.status j q h in (omega arith, omega (arith, left), refl, refl)

ClaimEnd-IsValid :
    {a : Asking} {now : ℕ} {jobs : List Job} {result : List Job × Option Job}
    → ClaimEnd a now jobs result
    → IsValid jobs
    → IsValid result.0
unfolding take_job
ClaimEnd-IsValid (nothing _) v = v
ClaimEnd-IsValid {a} {now} {jobs} (takes j mem fits _) v = record {
  distinct = Distinct-update _ (take_job a.locked_by now) jobs (λ k. refl) v.distinct;
  counted =
      All-update IsKept _ (take_job a.locked_by now) jobs
        (All-map _ _ jobs (λ k one h e. only k (one e) h) (Distinct-one j jobs v.distinct mem))
        v.counted;
}
  where
    only : (k : Job) → k ≡ j → IsKept k → IsKept (take_job a.locked_by now k)
    only k e h =
        taken-IsKept a.locked_by now k
          (ap (λ x. is_queued x.status) e ∙ eligible_queued a now jobs j fits) h

module _ (next_run : String → ℕ → Option ℕ) (keeps : String → Bool) (ceilings : Ceilings) where
  pub Step-IsValid :
      {db db' : Db} → Step next_run keeps ceilings db db' → IsValid db.jobs → IsValid db'.jobs
  Step-IsValid {db} {db'} s v = elim (Step-kind next_run keeps ceilings s) [
    | inl c ↦
        subst IsValid (sym c.after) (ClaimEnd-IsValid (claim-ClaimEnd c.asking c.now db.jobs) v)
    | inr changes ↦ Changes-IsValid changes v
  ]

  -- From a table of jobs with distinct ids and attempts within their limits, any steps of any number
  -- of processes lead to such a table, as long as a failure is reported by the executor of the present
  -- claim: a job in the queue has attempts left, a running one has made 1 to the limit and has an
  -- owner and a pulse, an ended one has not passed the limit.
  pub Run-IsValid :
      {db db' : Db} → Run next_run keeps ceilings db db' → IsValid db.jobs → IsValid db'.jobs
  Run-IsValid no_step v = v
  Run-IsValid (one_more r s) v = Step-IsValid s (Run-IsValid r v)
