-- ===== src/Jobs/Endings.antt =====
-- A job that has ended is never active again.
use mathlib.Core.List.{Memᴰ}
use catworld.Common.{
  ℕ, String, ◌≡◌, refl, sym, subst, ap, ◌∙◌, inl, inr, Bool, true, false, Option, none, some, keep,
  ◌⊎◌, eq_iff, All, List, [], ◌∷◌, ◌++◌, arith, str_eq, Bool-cases,
}
use catworld.Jobs.{
  JobStatus, queued, running, completed, failed, Job, Db, update_where, is_queued, is_running,
  is_active, find_job,
}
use catworld.Jobs.Claim.{Asking, take_job}
use catworld.Jobs.Tables.{All-keep, All-Memᴰ, Distinct, Distinct-one, find_job-update}
use catworld.Jobs.Order.{ClaimEnd, nothing, takes, claim-ClaimEnd}
use catworld.Jobs.Steps.{Ceilings, Step, Run, no_step, one_more}
use catworld.Jobs.Moves.{
  Move, stays, beats, ends, requeues, dismisses, Moves, none_left, row, Changes, moves, grows,
  shrinks,
}
use catworld.Jobs.Kinds.{Step-kind}
use catworld.Jobs.Attempts.{IsValid, Run-IsValid, Move-id, eligible_queued}

-- The row of an id has ended in this status, or is counted as completed since, after this many attempts.
abbrev pub HasEnded : String → JobStatus → ℕ → List Job → Type 0
HasEnded id status attempts jobs =
    (j : Job) × (find_job id jobs ≡ some j)
    × ((j.status ≡ status) ⊎ (j.status ≡ completed))
    × (j.attempts ≡ attempts)

pub running_active : (s : JobStatus) → is_running s ≡ true → is_active s ≡ true
running_active queued h = refl
running_active running h = refl
running_active completed h = cc
running_active failed h = cc

pub queued_active : (s : JobStatus) → is_queued s ≡ true → is_active s ≡ true
queued_active queued h = refl
queued_active running h = refl
queued_active completed h = cc
queued_active failed h = cc

Move-closed :
    {j k : Job}
    → Move j k
    → is_active j.status ≡ false
    → ((k.status ≡ j.status) ⊎ (k.status ≡ completed)) × (k.attempts ≡ j.attempts)
Move-closed (stays j) c = (inl refl, refl)
Move-closed (beats j now) c = (inl refl, refl)
Move-closed (ends j k active _ _ _) c = cc (active, c)
Move-closed (requeues j k run _ _ _) c = cc (running_active j.status run, c)
Move-closed (dismisses j k _ done _ tries) c = (inr done, tries)

find_job-none :
    (id : String) (js : List Job) → All (λ x. str_eq x.id id ≡ false) js → find_job id js ≡ none
unfolding find_job
find_job-none id [] h = refl
find_job-none id (j ∷ js) h = simp h.0 (find_job-none id js h.1)

-- A deletion takes the row or leaves it.
find_job-keep :
    (id : String) (p : Job → Bool) (js : List Job) (j : Job)
    → Distinct js
    → find_job id js ≡ some j
    → (find_job id (keep p js) ≡ some j) ⊎ (find_job id (keep p js) ≡ none)
unfolding find_job
find_job-keep id p [] j d e = inr refl
find_job-keep id p (k ∷ ks) j d e = elim (Bool-cases (p k)) [
  | inl kept ↦ elim (Bool-cases (str_eq k.id id)) [
    | inl here ↦ simp (kept, here) (inl (ground arith))
    | inr there ↦ simp (kept, there) (find_job-keep id p ks j d.1 (ground arith))
  ]
  | inr gone ↦ elim (Bool-cases (str_eq k.id id)) [
    | inl here ↦
        let e' = (eq_iff k.id id).0 here in
        simp gone (
          inr (
            find_job-none id (keep p ks)
              (subst (λ i. All (λ x. str_eq x.id i ≡ false) (keep p ks)) e' (All-keep _ p ks d.0))))
    | inr there ↦ simp gone (find_job-keep id p ks j d.1 (ground arith))
  ]
]

Memᴰ_of_find : (id : String) (js : List Job) (j : Job) → find_job id js ≡ some j → Memᴰ j js
unfolding find_job
Memᴰ_of_find id [] j e = cc
Memᴰ_of_find id (k ∷ ks) j e = elim (Bool-cases (str_eq k.id id)) [
  | inl here ↦ Memᴰ.head (ground arith)
  | inr there ↦ Memᴰ.tail (Memᴰ_of_find id ks j (ground arith))
]

take_job-id : (by : String) (now : ℕ) (j : Job) → (take_job by now j).id ≡ j.id
unfolding take_job
take_job-id by now j = refl

module _ (id : String) (status : JobStatus) (attempts : ℕ) (closed : is_active status ≡ false) where
  over : (j : Job) → ((j.status ≡ status) ⊎ (j.status ≡ completed)) → is_active j.status ≡ false
  over j (inl e) = ap is_active e ∙ closed
  over j (inr e) = ap is_active e

  still_ended :
      (k j s : JobStatus)
      → ((k ≡ j) ⊎ (k ≡ completed))
      → ((j ≡ s) ⊎ (j ≡ completed))
      → (k ≡ s) ⊎ (k ≡ completed)
  still_ended k j s (inl e) (inl e') = inl (e ∙ e')
  still_ended k j s (inl e) (inr e') = inr (e ∙ e')
  still_ended k j s (inr e) h = inr e

  Moves-HasEnded :
      {js ks : List Job}
      → Moves js ks
      → HasEnded id status attempts js
      → HasEnded id status attempts ks
  unfolding find_job
  Moves-HasEnded none_left (j, e, _, _) = cc
  Moves-HasEnded (row {j} {k} {js} {ks} m ms) (i, e, s, n) = elim (Bool-cases (str_eq j.id id)) [
    | inl here ↦
        let same : j ≡ i = ground arith in
        let kept = Move-closed m (ap (λ x. is_active x.status) same ∙ over i s) in
        let here' : str_eq k.id id ≡ true = ap (λ x. str_eq x id) (Move-id m) ∙ here in
        (
          k,
          simp here' refl,
          still_ended k.status j.status status kept.0
              (subst (λ x. (x.status ≡ status) ⊎ (x.status ≡ completed)) (sym same) s),
          kept.1 ∙ (ap (λ x. x.attempts) same ∙ n),
        )
    | inr there ↦
        let e' : find_job id js ≡ some i = ground arith in
        let (i', f, s', n') = Moves-HasEnded ms (i, e', s, n) in
        let there' : str_eq k.id id ≡ false = ap (λ x. str_eq x id) (Move-id m) ∙ there in
        (i', simp there' f, s', n')
  ]

  find_job-append :
      (js ks : List Job) → HasEnded id status attempts js → HasEnded id status attempts (js ++ ks)
  unfolding find_job
  find_job-append [] ks (j, e, _, _) = cc
  find_job-append (j ∷ js) ks (i, e, s, n) = elim (Bool-cases (str_eq j.id id)) [
    | inl here ↦ (i, ground arith, s, n)
    | inr there ↦
        let (i', f, s', n') = find_job-append js ks (i, ground arith, s, n) in
        (i', simp there f, s', n')
  ]

  Changes-HasEnded :
      {js ks : List Job}
      → Changes js ks
      → Distinct js
      → HasEnded id status attempts js
      → HasEnded id status attempts ks ⊎ (find_job id ks ≡ none)
  Changes-HasEnded (moves ms) d h = inl (Moves-HasEnded ms h)
  Changes-HasEnded (grows {ks} j ms _ _ _ _) d h =
      inl (find_job-append ks (j ∷ []) (Moves-HasEnded ms h))
  Changes-HasEnded {js} (shrinks p) d (j, e, s, n) = elim (find_job-keep id p js j d e) [
    | inl f ↦ inl (j, f, s, n)
    | inr f ↦ inr f
  ]

  -- The row that a claim takes is in the queue, so it is not the one that has ended.
  ClaimEnd-HasEnded :
      {a : Asking} {now : ℕ} {jobs : List Job} {result : List Job × Option Job}
      → ClaimEnd a now jobs result
      → Distinct jobs
      → HasEnded id status attempts jobs
      → HasEnded id status attempts result.0
  ClaimEnd-HasEnded (nothing _) d h = h
  ClaimEnd-HasEnded {a} {now} {jobs} (takes j mem fits _) d (i, e, s, n) = (i, untouched, s, n)
    where
      other : str_eq i.id j.id ≡ true → ⊥
      other h =
          let same = All-Memᴰ _ i jobs (Distinct-one j jobs d mem) (Memᴰ_of_find id jobs i e) h in
          let q = queued_active j.status (eligible_queued a now jobs j fits) in
          cc (q, ap (λ x. is_active x.status) same, over i s)

      different : (b : Bool) → (b ≡ true → ⊥) → b ≡ false
      different true h = absurd (h refl)
      different false h = refl

      untouched :
          find_job id (update_where (λ k. str_eq k.id j.id) (take_job a.locked_by now) jobs)
          ≡ some i
      untouched =
          find_job-update (λ k. str_eq k.id j.id) (take_job a.locked_by now) id jobs
            (take_job-id a.locked_by now)
          ∙ simp (e, different (str_eq i.id j.id) other) refl

module _ (next_run : String → ℕ → Option ℕ) (keeps : String → Bool) (ceilings : Ceilings) where
  Step-HasEnded :
      {db db' : Db} (id : String) (status : JobStatus) (attempts : ℕ)
      → is_active status ≡ false
      → Step next_run keeps ceilings db db'
      → Distinct db.jobs
      → HasEnded id status attempts db.jobs
      → HasEnded id status attempts db'.jobs ⊎ (find_job id db'.jobs ≡ none)
  Step-HasEnded {db} {db'} id status attempts closed s d h =
      elim (Step-kind next_run keeps ceilings s) [
        | inl c ↦ inl (
            subst (HasEnded id status attempts) (sym c.after) (
              ClaimEnd-HasEnded id status attempts closed (claim-ClaimEnd c.asking c.now db.jobs) d
                h))
        | inr changes ↦ Changes-HasEnded id status attempts closed changes d h
      ]

  -- On the way from one state to the other there is one in which the id has no row.
  abbrev pub WasDeleted : String → Db → Db → Type 0
  WasDeleted id db db' =
      (middle : Db) × Run next_run keeps ceilings db middle
      × Run next_run keeps ceilings middle db'
      × (find_job id middle.jobs ≡ none)

  -- A job that is completed or failed stays so, with its attempts as they were, unless its row is
  -- deleted: whatever the workers and the routes do, it is not taken, put back or counted again. A
  -- completed one stays completed, a failed one is failed or dismissed as completed. Neither a late
  -- completion, nor a late failure, nor the recovery, nor a cancellation reaches it. At first the jobs
  -- are valid (distinct ids; attempts, owner and pulse as their status asks for), and a failure of a
  -- job that still runs is reported by the executor of its present claim.
  pub Run-HasEnded :
      {db db' : Db} (id : String) (status : JobStatus) (attempts : ℕ)
      → is_active status ≡ false
      → Run next_run keeps ceilings db db'
      → IsValid db.jobs
      → HasEnded id status attempts db.jobs
      → HasEnded id status attempts db'.jobs ⊎ WasDeleted id db db'
  Run-HasEnded id status attempts closed no_step v h = inl h
  Run-HasEnded {db} {db'} id status attempts closed (one_more r s) v h =
      elim (Run-HasEnded id status attempts closed r v h) [
        | inr (gone, before, after, e) ↦ inr (gone, before, one_more after s, e)
        | inl ended ↦
            elim (Step-HasEnded id status attempts closed s
              (Run-IsValid next_run keeps ceilings r v).distinct ended) [
                | inl kept ↦ inl kept
                | inr e ↦ inr (db', one_more r s, no_step, e)
              ]
      ]
