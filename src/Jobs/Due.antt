-- ===== src/Jobs/Due.antt =====
-- The queueing of the sources that are due.
use catworld.Common.{
  ℕ, zero, suc, ◌+◌, ◌≤◌, String, ◌≡◌, refl, sym, subst, inl, inr, Bool, true, false, ◌&&◌, ◌||◌,
  not, Option, none, some, List, [], ◌∷◌, ◌++◌, arith, if◌then◌else◌, str_eq, str_eq_refl, any, All,
  length, keep, includes, length-append, Bool-cases,
}
use catworld.Jobs.{Job, Source, Payload}
use catworld.Jobs.Finish.{read_payload}
use catworld.Jobs.Sources.{
  SourceRun, Options, is_active_run, find_run, source_job, queue_found, queue_source_refresh,
  enqueue_from, busy_sources, enqueue_due,
}

any-append : (p : Job → Bool) (js ks : List Job) → any p (js ++ ks) ≡ (any p js || any p ks)
any-append p [] ks = refl
any-append p (j ∷ js) ks = ground (arith, any-append p js ks)

found_any :
    (id : String) (r : Bool) (js : List Job) (j : Job)
    → find_run id r js ≡ some j
    → any (is_active_run id r) js ≡ true
unfolding find_run
found_any id r [] j h = cc
found_any id r (k ∷ ks) j h = elim (Bool-cases (is_active_run id r k)) [
  | inl e ↦ simp e refl
  | inr e ↦ or_right (is_active_run id r k) (found_any id r ks j (simp e at h))
]
  where
    or_right : (a : Bool) {b : Bool} → b ≡ true → (a || b) ≡ true
    or_right a h = ground arith

module _ (keeps : String → Bool) (ids : String → String) (runs : String → SourceRun) (r : Bool)
    (now : ℕ) where
  abbrev options : Options
  options = record { reconciliation = r; manual = false; accept_drop = false }

  abbrev queue : String → List Job → List Source → List Job × List Source
  queue id jobs sources =
      (queue_source_refresh keeps (ids id) id (runs id) options now jobs sources).0

  -- A call leaves the jobs as they are, if the source has an active run, or adds one.
  data QueuedRun (id : String) (jobs : List Job) : List Job → Type 0 where
    there : any (is_active_run id r) jobs ≡ true → QueuedRun id jobs jobs
    added : (j : Job) → is_active_run id r j ≡ true → QueuedRun id jobs (jobs ++ j ∷ [])

  own_run : (id : String) → is_active_run id r (source_job (ids id) id (runs id) options now) ≡ true
  unfolding source_job
  own_run id = own r (str_eq id id) (str_eq_refl id)
    where
      own :
          (k same : Bool)
          → same ≡ true
          → (true && (true && true && (same && (if k then k else not k)))) ≡ true
      own true same h = ground arith
      own false same h = ground arith

  queue-QueuedRun :
      (id : String) (jobs : List Job) (sources : List Source)
      → QueuedRun id jobs (queue id jobs sources).0
  unfolding queue_source_refresh
  queue-QueuedRun id jobs sources = go (find_run id r jobs) refl
    where
      go :
          (o : Option Job)
          → find_run id r jobs ≡ o
          → QueuedRun id jobs
              (queue_found keeps id
                (source_job (ids id) id (runs id) options now)
                jobs
                sources
                o).0.0
      go none e = added (source_job (ids id) id (runs id) options now) (own_run id)
      go (some j) e = there (found_any id r jobs j e)

  QueuedRun-any :
      (p : Job → Bool) {id : String} {jobs jobs' : List Job}
      → QueuedRun id jobs jobs'
      → any p jobs ≡ true
      → any p jobs' ≡ true
  QueuedRun-any p (there _) h = h
  QueuedRun-any p {id} {jobs} (added j _) h = rw (any-append p jobs (j ∷ []), h)

  QueuedRun-own :
      {id : String} {jobs jobs' : List Job}
      → QueuedRun id jobs jobs'
      → any (is_active_run id r) jobs' ≡ true
  QueuedRun-own (there h) = h
  QueuedRun-own {id} {jobs} (added j h) =
      rw (any-append (is_active_run id r) jobs (j ∷ []), h) (ground arith)

  QueuedRun-length-le :
      {id : String} {jobs jobs' : List Job}
      → QueuedRun id jobs jobs'
      → length jobs' ≤ length jobs + 1
  QueuedRun-length-le (there h) = omega arith
  QueuedRun-length-le {id} {jobs} (added j h) = omega (arith, length-append jobs (j ∷ []))

  module _ (busy : List String) where
    abbrev enqueue : List String → ℕ → List Job → List Source → List Job × List Source
    enqueue due left jobs sources = enqueue_from keeps ids runs r now busy left due jobs sources

    -- Active jobs stay active, and at most as many are added as the batch allows.
    enqueue-any :
        (p : Job → Bool) (due : List String) (left : ℕ) (jobs : List Job) (sources : List Source)
        → any p jobs ≡ true
        → any p (enqueue due left jobs sources).0 ≡ true
    unfolding enqueue_from
    enqueue-any p [] left jobs sources h = h
    enqueue-any p (id ∷ due) zero jobs sources h = h
    enqueue-any p (id ∷ due) (suc left) jobs sources h = elim (Bool-cases (includes id busy)) [
      | inl e ↦ simp e (enqueue-any p due (suc left) jobs sources h)
      | inr e ↦
          let (jobs', sources') = queue id jobs sources in
          simp e (
            enqueue-any p due left jobs' sources'
              (QueuedRun-any p (queue-QueuedRun id jobs sources) h))
    ]

    enqueue-length-le :
        (due : List String) (left : ℕ) (jobs : List Job) (sources : List Source)
        → length (enqueue due left jobs sources).0 ≤ length jobs + left
    unfolding enqueue_from
    enqueue-length-le [] left jobs sources = omega arith
    enqueue-length-le (id ∷ due) zero jobs sources = omega arith
    enqueue-length-le (id ∷ due) (suc left) jobs sources = elim (Bool-cases (includes id busy)) [
      | inl e ↦ simp e (enqueue-length-le due (suc left) jobs sources)
      | inr e ↦
          let (jobs', sources') = queue id jobs sources in
          let one = QueuedRun-length-le (queue-QueuedRun id jobs sources) in
          let rest = enqueue-length-le due left jobs' sources' in simp e (omega (arith, one, rest))
    ]

    enqueue-zero :
        (due : List String) (jobs : List Job) (sources : List Source)
        → enqueue due zero jobs sources ≡ (jobs, sources)
    unfolding enqueue_from
    enqueue-zero [] jobs sources = refl
    enqueue-zero (id ∷ due) jobs sources = refl

    enqueue-busy :
        (id : String) (due : List String) (left : ℕ) (jobs : List Job) (sources : List Source)
        → includes id busy ≡ true
        → enqueue due (suc left) jobs sources ≡ enqueue (id ∷ due) (suc left) jobs sources
    unfolding enqueue_from
    enqueue-busy id due left jobs sources e = simp e refl

    enqueue-free :
        (id : String) (due : List String) (left : ℕ) (jobs : List Job) (sources : List Source)
        → includes id busy ≡ false
        → enqueue due left (queue id jobs sources).0 (queue id jobs sources).1
          ≡ enqueue (id ∷ due) (suc left) jobs sources
    unfolding enqueue_from
    enqueue-free id due left jobs sources e = simp e refl

    abbrev Covered : List String → List Job × List Source → Type 0
    Covered due out = All (λ id. any (is_active_run id r) out.0 ≡ true) due

    enqueue-covers :
        (due : List String) (left : ℕ) (jobs : List Job) (sources : List Source)
        → ((id : String) → includes id busy ≡ true → any (is_active_run id r) jobs ≡ true)
        → length (keep (λ id. not (includes id busy)) due) ≤ left
        → Covered due (enqueue due left jobs sources)
    enqueue-covers [] left jobs sources b h = tt
    enqueue-covers (id ∷ due) zero jobs sources b h = elim (Bool-cases (includes id busy)) [
      | inl e ↦ subst (Covered (id ∷ due)) (sym (enqueue-zero (id ∷ due) jobs sources)) (
        b id e,
        subst (Covered due) (enqueue-zero due jobs sources)
            (enqueue-covers due zero jobs sources b (simp e at h)),
      )
      | inr e ↦
          let h' : suc (length (keep (λ i. not (includes i busy)) due)) ≤ 0 = simp e at h in
          absurd (omega (arith, h'))
    ]
    enqueue-covers (id ∷ due) (suc left) jobs sources b h = elim (Bool-cases (includes id busy)) [
      | inl e ↦ subst (Covered (id ∷ due)) (enqueue-busy id due left jobs sources e) (
        enqueue-any (is_active_run id r) due (suc left) jobs sources (b id e),
        enqueue-covers due (suc left) jobs sources b (simp e at h),
      )
      | inr e ↦
          let (jobs', sources') = queue id jobs sources in
          let step = queue-QueuedRun id jobs sources in
          let h' : suc (length (keep (λ i. not (includes i busy)) due)) ≤ suc left = simp e at h in
          subst (Covered (id ∷ due)) (enqueue-free id due left jobs sources e) (
            enqueue-any (is_active_run id r) due left jobs' sources' (QueuedRun-own step),
            enqueue-covers due left jobs' sources'
                (λ i e'. QueuedRun-any (is_active_run i r) step (b i e')) (omega (arith, h')),
          )
    ]

-- A source that counts as busy has an active run.
busy-any :
    (r : Bool) (jobs : List Job) (id : String)
    → includes id (busy_sources r jobs) ≡ true
    → any (is_active_run id r) jobs ≡ true
unfolding busy_sources
busy-any r [] id h = cc
busy-any r (j ∷ js) id h = one (read_payload j.payload_json) refl (busy-any r js id)
  where
    one :
        (o : Option Payload)
        → read_payload j.payload_json ≡ o
        → (includes id (busy_sources r js) ≡ true → any (is_active_run id r) js ≡ true)
        → any (is_active_run id r) (j ∷ js) ≡ true
    one none eo rest = ground arith
    one (some p) eo rest = ground arith

-- Every source that is due has an active run of the kind after the call, if the batch has room for
-- those that had none; at most as many jobs are added as the batch allows.
pub enqueue_due-covers :
    (keeps : String → Bool) (ids : String → String) (runs : String → SourceRun) (r : Bool) (now : ℕ)
    (due : List String) (jobs : List Job) (sources : List Source)
    → length (keep (λ id. not (includes id (busy_sources r jobs))) due) ≤ 50
    → All
        (λ id.
          any (is_active_run id r) (enqueue_due keeps ids runs r now due jobs sources).0 ≡ true)
        due
      × (length (enqueue_due keeps ids runs r now due jobs sources).0 ≤ length jobs + 50)
unfolding enqueue_due
enqueue_due-covers keeps ids runs r now due jobs sources h = (
  enqueue-covers keeps ids runs r now (busy_sources r jobs) due 50 jobs sources (busy-any r jobs) h,
  enqueue-length-le keeps ids runs r now (busy_sources r jobs) due 50 jobs sources,
)
