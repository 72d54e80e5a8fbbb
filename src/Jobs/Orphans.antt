-- ===== src/Jobs/Orphans.antt =====
-- What the recovery and the cancelling of an upload leave behind.
use catworld.Common.{
  ℕ, String, ◌≡◌, refl, sym, subst, inl, inr, Bool, true, false, ◌&&◌, not, Option, none, some,
  List, [], ◌∷◌, map, arith, if◌then◌else◌, str_eq, eq_iff, leb, any, All, Bool-cases,
}
use catworld.Jobs.{Job, Upload, Source, Derived, Db, update_where, count, same_text}
use catworld.Jobs.Finish.{Failure, in_progress, fail_upload}
use catworld.Jobs.Recover.{
  is_stale, is_importing, serves, refreshes_source, refreshes_derived, fail_exhausted,
  requeue_stale, fail_orphan_uploads, fail_orphan_sources, fail_orphan_derived, recover_stale,
}
use catworld.Jobs.Uploads.{ok, cancelled_row, fail_active, cancel_writes, cancel_upload}
use catworld.Jobs.Tables.{update-none}
use catworld.Jobs.Moves.{works_on, recovered_row, recovered}
use catworld.Jobs.Growth.{none_active}

module _ {ℓ} {A : Type ℓ} where
  -- A change after which its own test fails.
  none_left_to :
      (p : A → Bool) (f : A → A) (xs : List A)
      → ((x : A) → p x ≡ true → p (f x) ≡ false)
      → All (λ x. p x ≡ false) (update_where p f xs)
  none_left_to p f [] h = tt
  none_left_to p f (x ∷ xs) h = (first, none_left_to p f xs h)
    where
      first : p (if p x then f x else x) ≡ false
      first = elim (Bool-cases (p x)) [ inl e ↦ simp e (h x e) | inr e ↦ simp e refl ]

  All-map_of {κ} :
      (Q : A → Type κ) (f : A → A) (xs : List A) → ((x : A) → Q (f x)) → All Q (map f xs)
  All-map_of Q f [] h = tt
  All-map_of Q f (x ∷ xs) h = (h x, All-map_of Q f xs h)

not_stale : (now : ℕ) (j : Job) → is_stale now (recovered_row now j) ≡ false
unfolding is_stale
not_stale now j = elim (Bool-cases (is_stale now j)) [
  | inl e ↦ elim (Bool-cases (leb j.max_attempts j.attempts)) [
    | inl late ↦ simp (e, late) refl
    | inr early ↦ simp (e, early) refl
  ]
  | inr e ↦ simp e refl
]

-- A test that the recovery makes false everywhere.
abbrev importing_alone : List Job → Upload → Bool
importing_alone jobs u = is_importing u.status && not (any (serves u.id) jobs)

abbrev source_alone : List Job → Source → Bool
source_alone jobs s =
    same_text s.last_status (some "running") && not (any (refreshes_source s.id) jobs)

abbrev derived_alone : List Job → Derived → Bool
derived_alone jobs d =
    same_text d.last_status (some "running") && not (any (refreshes_derived d.id) jobs)

abbrev pub HasNoOrphan : ℕ → Db → Type 0
HasNoOrphan now db =
    All (λ j. is_stale now j ≡ false) db.jobs
    × All (λ u. importing_alone db.jobs u ≡ false) db.uploads
    × All (λ s. source_alone db.jobs s ≡ false) db.sources
    × All (λ d. derived_alone db.jobs d ≡ false) db.derived

-- After the recovery no running job is without a pulse for its time (two minutes, or ninety for an
-- import), no upload is importing without a job that has not failed, and no source or derived table
-- counts as running without an active job of its own.
pub recover_stale-HasNoOrphan : (now : ℕ) (db : Db) → HasNoOrphan now (recover_stale now db)
unfolding recover_stale fail_orphan_uploads fail_orphan_sources fail_orphan_derived
recover_stale-HasNoOrphan now db = (
  subst (All (λ j. is_stale now j ≡ false)) (sym (recovered now db.jobs))
      (All-map_of _ (recovered_row now) db.jobs (not_stale now)),
  none_left_to (importing_alone jobs') _ db.uploads (λ u h. refl),
  none_left_to (source_alone jobs') _ db.sources (λ s h. refl),
  none_left_to (derived_alone jobs') _ db.derived (λ d h. refl),
)
  where
    jobs' : List Job
    jobs' = requeue_stale now (fail_exhausted now db.jobs)

untouched :
    (id : String) (c : Job) (u : Upload)
    → c.upload_id ≡ some id
    → (same_text c.upload_id (some u.id) && in_progress u.status) ≡ true
    → str_eq u.id id ≡ true
untouched id c u up h = go c.upload_id up h
  where
    go :
        (o : Option String)
        → o ≡ some id
        → (same_text o (some u.id) && in_progress u.status) ≡ true
        → str_eq u.id id ≡ true
    go none e h = cc
    go (some t) e h = ground (arith, eq_iff t u.id, eq_iff u.id id)

cancelled_rest :
    (id : String) (c : Job) (now : ℕ) (uploads : List Upload)
    → c.upload_id ≡ some id
    → All
        (λ u. (same_text c.upload_id (some u.id) && in_progress u.status) ≡ false)
        (update_where (λ u. str_eq u.id id) (cancelled_row now) uploads)
cancelled_rest id c now [] up = tt
cancelled_rest id c now (u ∷ us) up = (first, cancelled_rest id c now us up)
  where
    off : (b : Bool) → (b ≡ true → str_eq u.id id ≡ true) → str_eq u.id id ≡ false → b ≡ false
    off true h e = cc (h refl, e)
    off false h e = refl

    first :
        (same_text c.upload_id (some (if str_eq u.id id then cancelled_row now u else u).id)
          && in_progress (if str_eq u.id id then cancelled_row now u else u).status)
        ≡ false
    first = elim (Bool-cases (str_eq u.id id)) [
      | inl e ↦ simp e (ground arith)
      | inr e ↦ simp e (off _ (untouched id c u up) e)
    ]

-- A cancellation that succeeds, whatever became of the upload since its check, leaves no active job of
-- the upload, and a failure that an executor of
-- one of its jobs reports afterwards does not touch the upload.
pub cancelled_stays :
    (id : String) (now later : ℕ) (seen : List Upload) (jobs : List Job) (uploads : List Upload)
    (jobs' : List Job) (uploads' : List Upload) (c : Job) (e : Failure)
    → cancel_upload id now seen jobs uploads ≡ ok (jobs', uploads')
    → c.upload_id ≡ some id
    → (count (works_on id) jobs' ≡ 0) × (fail_upload c e later uploads' ≡ uploads')
unfolding cancel_upload cancel_writes fail_upload
cancelled_stays id now later seen jobs uploads jobs' uploads' c e h up =
    let same_jobs : fail_active id "Cancelled" jobs ≡ jobs' = ground arith in
    let same_uploads : update_where (λ u. str_eq u.id id) (cancelled_row now) uploads ≡ uploads' =
      ground arith in
    (
      subst (λ js. count (works_on id) js ≡ 0) same_jobs (none_active id "Cancelled" jobs),
      subst (λ us. fail_upload c e later us ≡ us) same_uploads
          (update-none _ _ _ (cancelled_rest id c now uploads up)),
    )
