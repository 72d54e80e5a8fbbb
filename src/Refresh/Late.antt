-- ===== src/Refresh/Late.antt =====
-- Rounds that lose their lease after their last check, or whose loss a worker reports.
use catworld.Common.{
  ℕ, String, ◌≡◌, refl, sym, subst, inl, inr, true, false, Option, some, List, [], ◌∷◌, arith,
  str_eq, All, Bool-cases,
}
use catworld.Jobs.{Job, Source, Payload, parsed, update_where, same_text}
use catworld.Jobs.Finish.{Failure, will_retry, given, fail_one_source, fail_source}
use catworld.Refresh.{
  SourceRow, is_owned, leased_row, take_lease, renew, end_round, is_source_busy_error,
}

-- The last update of a round goes by the id of the source. If another round owns the row by then (its
-- heartbeat meets the row), the row looks free afterwards: a third round takes the lease at once, and
-- the owner does not meet its row any more.
pub late_end_frees :
    (minutes now later : ℕ) (row : SourceRow) (owner third status : String)
    (last_error : Option String)
    → is_owned owner row ≡ true
    → str_eq status "running" ≡ false
    → let row' = end_round status last_error now row in
      ((renew owner later row).1 ≡ true)
      × (take_lease minutes third later row' ≡ (leased_row third later row', true))
      × (renew owner later row' ≡ (row', false))
unfolding take_lease renew end_round
late_end_frees minutes now later row owner third status last_error own other =
    (simp own refl, simp other refl, simp other refl)

written :
    (next_run : String → ℕ → Option ℕ) (c : Job) (e : Failure) (now : ℕ) (p : Payload) (s : Source)
    → same_text (fail_one_source next_run c e now p s).last_status (some "running") ≡ false
unfolding fail_one_source
written next_run c e now p s = elim (Bool-cases (will_retry c e)) [
  | inl again ↦ simp again refl
  | inr last ↦ elim (Bool-cases p.reconciliation) [
    | inl r ↦ simp (last, r) refl
    | inr i ↦ simp (last, i) refl
  ]
]

-- The failure by which a round ends that lost its lease is not one of a busy source: the worker writes
-- it to every row of the source, and the row of the round that took the lease looks free.
pub lost_failure_frees :
    (next_run : String → ℕ → Option ℕ) (c : Job) (e : Failure) (p : Payload) (id : String) (now : ℕ)
    (sources : List Source)
    → e.source_busy ≡ is_source_busy_error (some "SOURCE_LEASE_LOST")
    → str_eq c.type "SOURCE_REFRESH" ≡ true
    → c.payload_json ≡ parsed p
    → given p.dataset_source_id ≡ some id
    → All
        (λ s. str_eq s.id id ≡ true → same_text s.last_status (some "running") ≡ false)
        (fail_source next_run c e now sources)
unfolding fail_source is_source_busy_error
lost_failure_frees next_run c e p id now sources busy type json known =
    subst (All _) (sym found) (rows sources)
  where
    found :
        fail_source next_run c e now sources
        ≡ update_where (λ s. str_eq s.id id) (fail_one_source next_run c e now p) sources
    found = ground arith

    rows :
        (ss : List Source)
        → All
            (λ s. str_eq s.id id ≡ true → same_text s.last_status (some "running") ≡ false)
            (update_where (λ s. str_eq s.id id) (fail_one_source next_run c e now p) ss)
    rows [] = tt
    rows (s ∷ ss) = (
      elim (Bool-cases (str_eq s.id id)) [
        | inl here ↦ simp here (λ _. written next_run c e now p s)
        | inr other ↦ simp other (λ same. absurd (cc (other, same)))
      ],
      rows ss,
    )
