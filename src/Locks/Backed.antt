-- ===== src/Locks/Backed.antt =====
-- What backs an owner of a lock: the row of its key, as long as its answers may build on it.
use catworld.Common.{
  ℕ, ◌+◌, ◌≤◌, ◌<◌, String, ◌≡◌, ◌∙◌, refl, sym, subst, ap, inl, inr, Bool, true, false, ◌&&◌,
  Option, none, some, arith, if◌then◌else◌, str_eq, str_eq_refl, eq_iff, All, Bool-cases,
}
use catworld.Locks.{
  LockRow, LockTable, put_row, lease_ms, is_free, taken, try_acquire, is_held_by, extended,
  renew_lock, release, Lease, passes_assert,
}
use catworld.Locks.Steps.{Owner, World}
use catworld.Locks.Holders.{Apart}

pub and_first : (a b : Bool) → (a && b) ≡ true → a ≡ true
and_first a b h = ground arith

pub and_second : (a b : Bool) → (a && b) ≡ true → b ≡ true
and_second a b h = ground arith

pub both : (a b : Bool) → a ≡ true → b ≡ true → (a && b) ≡ true
both a b h h' = ground arith

put-other :
    (key : String) (row : Option LockRow) (table : LockTable) (k : String)
    → str_eq k key ≡ false
    → put_row key row table k ≡ table k
put-other key row table k e = simp e refl

put-here :
    (key : String) (row : Option LockRow) (table : LockTable) (k : String)
    → str_eq k key ≡ true
    → put_row key row table k ≡ row
put-here key row table k e = simp e refl

taken_table :
    (key holder : String) (now : ℕ) (table table' : LockTable) (b : Bool)
    → taken key holder now table b ≡ (table', true)
    → put_row key (some (record { locked_by = holder; expires_at = now + lease_ms })) table ≡ table'
taken_table key holder now table table' true e = ap (λ r. r.0) e
taken_table key holder now table table' false e = absurd (false_true (ap (λ r. r.1) e))
  where
    false_true : false ≡ true → ⊥
    false_true e = cc

-- No token of its job is set.
abbrev pub is_live : Option Lease → Bool
is_live none = true
is_live (some l) = if l.cancelled then false else true

module _ (delay : ℕ) where
  -- The row of the key is the holder's until a time, or until the delay before it.
  abbrev pub HasRow : LockTable → String → String → ℕ → Type 0
  HasRow table key holder until =
      (row : LockRow) × (table key ≡ some row)
      × (row.locked_by ≡ holder)
      × (until ≤ row.expires_at + delay)

  abbrev pub IsAnswerable : ℕ → LockTable → Owner → ℕ → Type 0
  IsAnswerable now table o at =
      (at ≤ now)
      × (is_live o.lease ≡ true
          → now ≤ at + delay
          → HasRow table o.key o.holder (at + lease_ms + delay))

  abbrev pub IsLeased : ℕ → LockTable → Owner → Option Lease → Type 0
  IsLeased now table o none = Unit
  IsLeased now table o (some l) =
      (l.last_ok_at ≤ now)
      × (passes_assert (now + delay) l ≡ true
          → HasRow table o.key o.holder (l.last_ok_at + lease_ms))

  -- A statement that may still be answered, and a lease whose check passes the delay later, have the
  -- row.
  pub record IsBacked (now : ℕ) (table : LockTable) (o : Owner) : Type 0 where
    pub answerable : All (IsAnswerable now table o) o.sent
    pub leased : IsLeased now table o o.lease

  pub record IsExclusive (w : World) : Type 0 where
    pub backed : All (IsBacked w.now w.table) w.owners
    pub apart : Apart w.owners

  pub HasRow-acquired :
      (key holder : String) (now : ℕ) (table table' : LockTable) (k h : String) (until : ℕ)
      → try_acquire key holder now table ≡ (table', true)
      → now + delay < until
      → HasRow table k h until
      → HasRow table' k h until
  unfolding try_acquire
  HasRow-acquired key holder now table table' k h until e later (row, at, by, u) =
      elim (Bool-cases (str_eq k key)) [
        | inl same ↦ absurd (ground (arith, eq_iff k key))
        | inr other ↦ (
          row,
          ap (λ t. t k) (sym (taken_table key holder now table table' (is_free now (table key)) e))
              ∙ put-other key _ table k other
              ∙ at,
          by,
          u,
        )
      ]

  pub HasRow-new :
      (key holder : String) (now : ℕ) (table table' : LockTable)
      → try_acquire key holder now table ≡ (table', true)
      → HasRow table' key holder (now + lease_ms + delay)
  unfolding try_acquire
  HasRow-new key holder now table table' e = (
    record { locked_by = holder; expires_at = now + lease_ms },
    ap (λ t. t key) (sym (taken_table key holder now table table' (is_free now (table key)) e))
        ∙ put-here key _ table key (str_eq_refl key),
    refl,
    omega arith,
  )

  pub HasRow-renewed :
      (key holder : String) (now : ℕ) (table : LockTable) (k h : String) (until : ℕ)
      → until ≤ now + lease_ms + delay
      → HasRow table k h until
      → HasRow (renew_lock key holder now table).0 k h until
  unfolding renew_lock
  HasRow-renewed key holder now table k h until few (row, at, by, u) =
      go (is_held_by holder (table key)) refl
    where
      own : is_held_by holder (table key) ≡ true → str_eq k key ≡ true → holder ≡ h
      own held same =
          let here : table key ≡ some row =
            subst (λ i. table i ≡ some row) ((eq_iff k key).0 same) at in
          let mine : str_eq row.locked_by holder ≡ true =
            subst (λ r. is_held_by holder r ≡ true) here held in
          sym ((eq_iff row.locked_by holder).0 mine) ∙ by

      go :
          (met : Bool)
          → is_held_by holder (table key) ≡ met
          → HasRow (extended key holder now table met).0 k h until
      go false m = (row, at, by, u)
      go true m = elim (Bool-cases (str_eq k key)) [
        | inr other ↦ (row, put-other key _ table k other ∙ at, by, u)
        | inl same ↦ (
          record { locked_by = holder; expires_at = now + lease_ms },
          put-here key _ table k same,
          own m same,
          few,
        )
      ]

  pub HasRow-met :
      (key holder : String) (now : ℕ) (table : LockTable) (k h : String)
      → (renew_lock key holder now table).1 ≡ true
      → str_eq k key ≡ true
      → str_eq h holder ≡ true
      → HasRow (renew_lock key holder now table).0 k h (now + lease_ms + delay)
  unfolding renew_lock
  HasRow-met key holder now table k h met same own = go (is_held_by holder (table key)) met
    where
      go :
          (b : Bool)
          → (extended key holder now table b).1 ≡ true
          → HasRow (extended key holder now table b).0 k h (now + lease_ms + delay)
      go false m = cc
      go true m = (
        record { locked_by = holder; expires_at = now + lease_ms },
        put-here key _ table k same,
        sym ((eq_iff h holder).0 own),
        omega arith,
      )

  pub HasRow-released :
      (key holder : String) (table : LockTable) (k h : String) (until : ℕ)
      → (str_eq k key ≡ true → str_eq h holder ≡ true → ⊥)
      → HasRow table k h until
      → HasRow (release key holder table) k h until
  unfolding release
  HasRow-released key holder table k h until not_own (row, at, by, u) =
      elim (Bool-cases (is_held_by holder (table key))) [
        | inr free ↦ (row, simp (free, at) refl, by, u)
        | inl held ↦ elim (Bool-cases (str_eq k key)) [
          | inr other ↦ (row, simp (held, other, at) refl, by, u)
          | inl same ↦ absurd (own held same)
        ]
      ]
    where
      own : is_held_by holder (table key) ≡ true → str_eq k key ≡ true → ⊥
      own held same =
          let here : table key ≡ some row =
            subst (λ i. table i ≡ some row) ((eq_iff k key).0 same) at in
          let mine : str_eq row.locked_by holder ≡ true =
            subst (λ r. is_held_by holder r ≡ true) here held in
          not_own same (subst (λ b. str_eq b holder ≡ true) by mine)
