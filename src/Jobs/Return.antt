-- ===== src/Jobs/Return.antt =====
-- A job that a process gives back when it ends is as it was before its claim.
use mathlib.Core.List.{Memᴰ}
use Prim.Native.Char.{code}
use Prim.Native.String
use text.Mathlib.TextLemmas.{cons-append}
use catworld.Common.{
  ℕ, zero, suc, ◌+◌, ◌-◌, ◌≤◌, ◌<◌, String, ◌≡◌, refl, subst, ◌∙◌, inl, inr, Bool, true, false,
  ◌||◌, Option, some, List, [], ◌∷◌, arith, str_eq, str_eq_refl, eq_iff, ◌==◌, ==_iff, Bool-cases,
}
use catworld.Jobs.{
  JobStatus, queued, running, completed, failed, Job, is_queued, find_job, update_where,
}
use catworld.Jobs.Claim.{Asking, take_job, claim}
use catworld.Jobs.Recover.{
  starts_with, label, locked_by_profile, ours, returned_row, give_back, release_self,
}
use catworld.Jobs.Tables.{All-Memᴰ, Distinct, find_job-update}
use catworld.Jobs.Attempts.{eligible_queued}
use catworld.Jobs.Order.{ClaimEnd, nothing, takes, claim-ClaimEnd}

starts_with-append : (p s : String) → starts_with p (String.◌++◌ p s) ≡ true
unfolding starts_with
starts_with-append String.[] s = refl
starts_with-append (String.◌∷◌ c p) s =
    rw (cons-append c p s) (ground (arith, ==_iff (code c) (code c), starts_with-append p s))

-- The name under which the i-th loop of a profile claims on a host.
abbrev pub worker_label : String → ℕ → String → String
worker_label name i host = String.◌++◌ (String.◌++◌ (label name i) "@") host

or_middle : (a b c : Bool) → b ≡ true → (a || b || c) ≡ true
or_middle a b c h = ground arith

or_left : (a b c : Bool) → a ≡ true → (a || b || c) ≡ true
or_left a b c h = ground arith

own_label :
    (name : String) (n i : ℕ) (host : String)
    → 0 < i
    → i ≤ n
    → locked_by_profile name n (some (worker_label name i host)) ≡ true
unfolding locked_by_profile
own_label name zero i host p q = absurd (omega arith)
own_label name (suc n) i host p q = elim (Bool-cases (i == suc n)) [
  | inl e ↦
      let same = (==_iff i (suc n)).0 e in
      let begins : starts_with (String.◌++◌ (label name (suc n)) "@") (worker_label name i host)
          ≡ true =
        subst (λ k. starts_with (String.◌++◌ (label name k) "@") (worker_label name i host) ≡ true)
          same (starts_with-append (String.◌++◌ (label name i) "@") host) in
      or_middle _ _ _ begins
  | inr e ↦ or_left _ _ _ (own_label name n i host p (ground arith))
]

pub find_job_of_Memᴰ :
    (j : Job) (js : List Job) → Distinct js → Memᴰ j js → find_job j.id js ≡ some j
unfolding find_job
find_job_of_Memᴰ j [] d m = elim m [ ]
find_job_of_Memᴰ j (k ∷ ks) d (Memᴰ.head e) = rw e (simp (str_eq_refl k.id) refl)
find_job_of_Memᴰ j (k ∷ ks) d (Memᴰ.tail m) = simp (other, find_job_of_Memᴰ j ks d.1 m) refl
  where
    other : str_eq k.id j.id ≡ false
    other = ground (
      arith,
      All-Memᴰ (λ i. str_eq i.id k.id ≡ false) j ks d.0 m,
      eq_iff k.id j.id,
      eq_iff j.id k.id,
    )

returned :
    (by : String) (now later : ℕ) (jobs : List Job) (name : String) (n : ℕ) (j : Job)
    → Distinct jobs
    → Memᴰ j jobs
    → locked_by_profile name n (some by) ≡ true
    → find_job j.id (
        release_self name n true later
          (update_where (λ k. str_eq k.id j.id) (take_job by now) jobs))
      ≡ some (returned_row true later (take_job by now j))
unfolding release_self give_back take_job
returned by now later jobs name n j d mem own =
    find_job-update (ours name n) (returned_row true later) j.id _ (λ k. refl)
    ∙ simp
        (
          find_job-update (λ k. str_eq k.id j.id) (take_job by now) j.id jobs (λ k. refl),
          find_job_of_Memᴰ j jobs d mem,
          str_eq_refl j.id,
          own,
        )
        refl

queued_of : (s : JobStatus) → is_queued s ≡ true → queued ≡ s
queued_of queued h = refl
queued_of running h = cc
queued_of completed h = cc
queued_of failed h = cc

minus_plus : (n : ℕ) → n + 1 - 1 ≡ n
minus_plus n = omega arith

module _ (a : Asking) (now later : ℕ) (jobs : List Job) (name : String) (n i : ℕ) (host : String)
    (distinct : Distinct jobs) (first : 0 < i) (last : i ≤ n)
    (own : a.locked_by ≡ worker_label name i host) where
  IsBack : List Job → Job → Type 0
  IsBack jobs' c =
      (j k : Job) × (find_job c.id jobs ≡ some j)
      × (find_job c.id (release_self name n true later jobs') ≡ some k)
      × (k.status ≡ j.status)
      × (k.attempts ≡ j.attempts)

  back : {r : List Job × Option Job} (c : Job) → ClaimEnd a now jobs r → r.1 ≡ some c → IsBack r.0 c
  unfolding take_job IsBack
  back c (nothing _) e = cc
  back c (takes j mem fits _) e =
      let same : take_job a.locked_by now j ≡ c = cc in
      let q = queued_of j.status (eligible_queued a now jobs j fits) in
      let mine : locked_by_profile name n (some a.locked_by) ≡ true =
        rw own (own_label name n i host first last) in
      subst (IsBack _) same (
        j,
        returned_row true later (take_job a.locked_by now j),
        find_job_of_Memᴰ j jobs distinct mem,
        returned a.locked_by now later jobs name n j distinct mem mine,
        q,
        minus_plus j.attempts,
      )

-- A claim under the name of one of a profile's loops, and then the end of its process with a refund:
-- the job is in the queue again, with the attempts that it had before the claim.
pub release_self-claim :
    (a : Asking) (now later : ℕ) (jobs : List Job) (name : String) (n i : ℕ) (host : String)
    (c : Job)
    → Distinct jobs
    → 0 < i
    → i ≤ n
    → a.locked_by ≡ worker_label name i host
    → (claim a now jobs).1 ≡ some c
    → (j k : Job) × (find_job c.id jobs ≡ some j)
      × (find_job c.id (release_self name n true later (claim a now jobs).0) ≡ some k)
      × (k.status ≡ j.status)
      × (k.attempts ≡ j.attempts)
unfolding IsBack
release_self-claim a now later jobs name n i host c distinct first last own e =
    back a now later jobs name n i host distinct first last own c (claim-ClaimEnd a now jobs) e
