-- ===== src/Locks/Changes.antt =====
-- What the changes of one owner, and the releases, keep of the backing of all.
use catworld.Common.{
  ℕ, ◌+◌, ◌<◌, String, ◌≡◌, sym, subst, ap, refl, inl, inr, Bool, true, false, Option, none, some,
  List, [], ◌∷◌, arith, str_eq, All, Bool-cases,
}
use catworld.Jobs.{update_where}
use catworld.Jobs.Tables.{All-map, All-update}
use catworld.Locks.{
  LockTable, lease_ms, release, Lease, renewal_answered, renewal_failed, is_lost, passes_assert,
  watch,
}
use catworld.Locks.Steps.{Owner, World, is_of, without, note_sent, on_lease}
use catworld.Locks.Holders.{Apart-update}
use catworld.Locks.Backed.{and_second, both, is_live, IsBacked, IsExclusive}
use catworld.Locks.Kept.{on_lease-IsBacked, released-IsBacked}

pub note_sent-holder : (met : Bool) (now : ℕ) (o : Owner) → (note_sent met now o).holder ≡ o.holder
note_sent-holder true now o = refl
note_sent-holder false now o = refl

pub denied_less :
    (t now : ℕ) (l : Lease)
    → passes_assert t (renewal_answered false now l) ≡ true
    → passes_assert t l ≡ true
unfolding passes_assert is_lost renewal_answered
denied_less t now l h = ground arith

pub denied_live :
    (now : ℕ) (l : Lease)
    → is_live (some (renewal_answered false now l)) ≡ true
    → is_live (some l) ≡ true
unfolding renewal_answered
denied_live now l h = h

pub denied_time : (now : ℕ) (l : Lease) → (renewal_answered false now l).last_ok_at ≡ l.last_ok_at
unfolding renewal_answered
denied_time now l = refl

pub missed_live :
    (now : ℕ) (l : Lease) → is_live (some (renewal_failed now l)) ≡ true → is_live (some l) ≡ true
unfolding renewal_failed
missed_live now l h = h

pub missed_time : (now : ℕ) (l : Lease) → (renewal_failed now l).last_ok_at ≡ l.last_ok_at
unfolding renewal_failed
missed_time now l = refl

pub missed_less :
    (t now : ℕ) (l : Lease)
    → passes_assert t (renewal_failed now l) ≡ true
    → passes_assert t l ≡ true
unfolding passes_assert is_lost renewal_failed
missed_less t now l h = ground arith

pub watched_less :
    (t : ℕ) (status : Option (Option String)) (l : Lease)
    → passes_assert t (watch status l) ≡ true
    → passes_assert t l ≡ true
unfolding passes_assert is_lost watch
watched_less t none l h = h
watched_less t (some none) l h = ground arith
watched_less t (some (some s)) l h = ground arith

pub watched_live :
    (status : Option (Option String)) (l : Lease)
    → is_live (some (watch status l)) ≡ true
    → is_live (some l) ≡ true
unfolding watch
watched_live none l h = h
watched_live (some none) l h = cc
watched_live (some (some s)) l h = ground arith

pub watched_time :
    (status : Option (Option String)) (l : Lease) → (watch status l).last_ok_at ≡ l.last_ok_at
unfolding watch
watched_time none l = refl
watched_time (some none) l = refl
watched_time (some (some s)) l = refl

module _ (delay : ℕ) (short : delay < lease_ms) where
  -- A change of the lease of one owner after which no more passes.
  pub lease_change :
      (key holder : String) (f : Lease → Lease) (w : World)
      → ((l : Lease)
          → passes_assert (w.now + delay) (f l) ≡ true
          → passes_assert (w.now + delay) l ≡ true)
      → ((l : Lease) → is_live (some (f l)) ≡ true → is_live (some l) ≡ true)
      → ((l : Lease) → (f l).last_ok_at ≡ l.last_ok_at)
      → IsExclusive delay w
      → IsExclusive delay
          (record w { owners = update_where (is_of key holder) (on_lease f) w.owners })
  lease_change key holder f w less live same x = record {
    backed =
        All-update (IsBacked delay w.now w.table) (is_of key holder) (on_lease f) w.owners
          (All-map _ _ w.owners
            (λ o b _ _. on_lease-IsBacked delay short f w.now w.table o less live same b) x.backed)
          x.backed;
    apart = Apart-update (is_of key holder) (on_lease f) w.owners (λ o. refl) x.apart;
  }

  -- A change of the only owner that has its holder.
  pub owner_change :
      (o : Owner) (f : Owner → Owner) (w : World)
      → All (λ k. str_eq k.holder o.holder ≡ true → k ≡ o) w.owners
      → ((k : Owner) → (f k).holder ≡ k.holder)
      → (IsBacked delay w.now w.table o → IsBacked delay w.now w.table (f o))
      → IsExclusive delay w
      → IsExclusive delay (record w { owners = update_where (is_of o.key o.holder) f w.owners })
  owner_change o f w one same h x = record {
    backed =
        All-update (IsBacked delay w.now w.table) (is_of o.key o.holder) f w.owners
          (All-map _ _ w.owners (λ k only b own. moved k (only (and_second _ _ own)) b) one)
          x.backed;
    apart = Apart-update (is_of o.key o.holder) f w.owners same x.apart;
  }
    where
      moved :
          (k : Owner) → k ≡ o → IsBacked delay w.now w.table k → IsBacked delay w.now w.table (f k)
      moved k e b =
          subst (λ i. IsBacked delay w.now w.table (f i)) (sym e)
            (h (subst (IsBacked delay w.now w.table) e b))

  pub ended-IsBacked :
      (key holder : String) (now : ℕ) (table : LockTable) (os : List Owner)
      → All (IsBacked delay now table) os
      → All (IsBacked delay now (release key holder table)) (without key holder os)
  ended-IsBacked key holder now table [] h = tt
  ended-IsBacked key holder now table (o ∷ os) h = elim (Bool-cases (is_of key holder o)) [
    | inl e ↦ simp e (ended-IsBacked key holder now table os h.1)
    | inr e ↦ simp e (
      released-IsBacked delay short key holder now table o (λ _ a b. cc (both _ _ a b, e)) h.0,
      ended-IsBacked key holder now table os h.1,
    )
  ]

  pub freed-IsBacked :
      (o : Owner) (l : Lease) (now : ℕ) (table : LockTable) (os : List Owner)
      → o.lease ≡ some l
      → l.cancelled ≡ true
      → All (λ k. str_eq k.holder o.holder ≡ true → k ≡ o) os
      → All (IsBacked delay now table) os
      → All (IsBacked delay now (release o.key o.holder table)) os
  freed-IsBacked o l now table [] here off one h = tt
  freed-IsBacked o l now table (k ∷ ks) here off one h = (
    released-IsBacked delay short o.key o.holder now table k
        (λ live _ same. stopped (one.0 same) live) h.0,
    freed-IsBacked o l now table ks here off one.1 h.1,
  )
    where
      stopped : k ≡ o → is_live k.lease ≡ true → ⊥
      stopped e live =
          let dead : is_live (some l) ≡ false = ground (arith, off) in
          cc (ap (λ i. is_live i.lease) e, ap is_live here, dead, live)
