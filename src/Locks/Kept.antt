-- ===== src/Locks/Kept.antt =====
-- What the steps keep of the backing of one owner.
use mathlib.Core.List.{Memᴰ}
use catworld.Common.{
  ℕ, ◌+◌, ◌≤◌, ◌<◌, String, ◌≡◌, refl, sym, subst, ap, inl, inr, Bool, true, Option, none, some,
  arith, if◌then◌else◌, str_eq, All, Bool-cases,
}
use catworld.Jobs.Tables.{All-map, All-Memᴰ}
use catworld.Locks.{
  LockTable, lease_ms, try_acquire, renew_lock, release, Lease, new_lease, renewal_answered,
  is_lost, passes_assert,
}
use catworld.Locks.Steps.{Owner, new_owner, is_of, note_sent, on_lease}
use catworld.Locks.Backed.{
  is_live, and_first, and_second, HasRow, IsAnswerable, IsLeased, IsBacked, HasRow-acquired,
  HasRow-new, HasRow-renewed, HasRow-met, HasRow-released,
}

pub live_of_passes : (t : ℕ) (l : Lease) → passes_assert t l ≡ true → is_live (some l) ≡ true
unfolding passes_assert
live_of_passes t l h = ground arith

module _ (delay : ℕ) (short : delay < lease_ms) where
  -- A change of the table that keeps the rows on which a live owner may build.
  table_change :
      (now : ℕ) (table table' : LockTable) (o : Owner)
      → ((until : ℕ)
          → now + delay < until
          → until ≤ now + lease_ms + delay
          → is_live o.lease ≡ true
          → HasRow delay table o.key o.holder until
          → HasRow delay table' o.key o.holder until)
      → IsBacked delay now table o
      → IsBacked delay now table' o
  unfolding passes_assert is_lost
  table_change now table table' o keep b = record {
    answerable =
        All-map _ _ o.sent
          (λ at h. (
            h.0,
            λ live soon.
                keep (at + lease_ms + delay) (omega (arith, soon, short)) (omega (arith, h.0)) live
                  (h.1 live soon),
          ))
          b.answerable;
    leased = go o.lease keep b.leased;
  }
    where
      go :
          (lo : Option Lease)
          → ((until : ℕ)
              → now + delay < until
              → until ≤ now + lease_ms + delay
              → is_live lo ≡ true
              → HasRow delay table o.key o.holder until
              → HasRow delay table' o.key o.holder until)
          → IsLeased delay now table o lo
          → IsLeased delay now table' o lo
      go none keep h = tt
      go (some l) keep h = (
        h.0,
        λ on.
            keep (l.last_ok_at + lease_ms) (ground arith) (let old = h.0 in omega (arith, old))
              (live_of_passes (now + delay) l on) (h.1 on),
      )

  pub acquired-IsBacked :
      (key holder : String) (now : ℕ) (table table' : LockTable) (o : Owner)
      → try_acquire key holder now table ≡ (table', true)
      → IsBacked delay now table o
      → IsBacked delay now table' o
  acquired-IsBacked key holder now table table' o e =
      table_change now table table' o (λ until later _ _ h.
        HasRow-acquired delay key holder now table table' o.key o.holder until e later h)

  pub new_owner-IsBacked :
      (key holder : String) (now : ℕ) (table table' : LockTable)
      → try_acquire key holder now table ≡ (table', true)
      → IsBacked delay now table' (new_owner key holder now)
  new_owner-IsBacked key holder now table table' e = record {
    answerable = ((omega arith, λ _ _. HasRow-new delay key holder now table table' e), tt);
    leased = tt;
  }

  pub later-IsBacked :
      (now d : ℕ) (table : LockTable) (o : Owner)
      → IsBacked delay now table o
      → IsBacked delay (now + d) table o
  unfolding passes_assert is_lost
  later-IsBacked now d table o b = record {
    answerable =
        All-map _ _ o.sent
          (λ at h.
            let old = h.0 in (omega (arith, old), λ live soon. h.1 live (omega (arith, soon))))
          b.answerable;
    leased = go o.lease b.leased;
  }
    where
      go : (lo : Option Lease) → IsLeased delay now table o lo → IsLeased delay (now + d) table o lo
      go none h = tt
      go (some l) h = let old = h.0 in (omega (arith, old), λ on. h.1 (ground arith))

  -- A change of the lease after which no more passes than before.
  pub on_lease-IsBacked :
      (f : Lease → Lease) (now : ℕ) (table : LockTable) (o : Owner)
      → ((l : Lease)
          → passes_assert (now + delay) (f l) ≡ true
          → passes_assert (now + delay) l ≡ true)
      → ((l : Lease) → is_live (some (f l)) ≡ true → is_live (some l) ≡ true)
      → ((l : Lease) → (f l).last_ok_at ≡ l.last_ok_at)
      → IsBacked delay now table o
      → IsBacked delay now table (on_lease f o)
  on_lease-IsBacked f now table o less live same b = go o.lease refl b.answerable b.leased
    where
      go :
          (lo : Option Lease)
          → lo ≡ o.lease
          → All (IsAnswerable delay now table (record o { lease = lo })) o.sent
          → IsLeased delay now table o lo
          → IsBacked delay now table (on_lease f (record o { lease = lo }))
      go none e a h = record { answerable = a; leased = tt }
      go (some l) e a h = record {
        answerable = All-map _ _ o.sent (λ at h'. (h'.0, λ on soon. h'.1 (live l on) soon)) a;
        leased = (
          let old = h.0 in omega (arith, old, same l),
          λ on.
              subst (λ t. HasRow delay table o.key o.holder (t + lease_ms)) (sym (same l))
                (h.1 (less l on)),
        );
      }

  -- An answer gives a lease that counts from now.
  answered_lease :
      (now at : ℕ) (table : LockTable) (o : Owner) (l : Lease)
      → Memᴰ at o.sent
      → now ≤ at + delay
      → l.last_ok_at ≡ now
      → (is_live (some l) ≡ true → is_live o.lease ≡ true)
      → IsBacked delay now table o
      → IsBacked delay now table (record o { lease = some l })
  answered_lease now at table o l mem soon same live b = record {
    answerable = All-map _ _ o.sent (λ t h. (h.0, λ on near. h.1 (live on) near)) b.answerable;
    leased = (
      omega (arith, same),
      λ on.
          let (row, here, by, u) =
            (All-Memᴰ (IsAnswerable delay now table o) at o.sent b.answerable mem).1
              (live (live_of_passes (now + delay) l on)) soon in
          (row, here, by, omega (arith, u, soon, same)),
    );
  }

  pub entered-IsBacked :
      (now at : ℕ) (cancelled : Bool) (table : LockTable) (o : Owner)
      → o.lease ≡ none
      → Memᴰ at o.sent
      → now ≤ at + delay
      → IsBacked delay now table o
      → IsBacked delay now table
          (record o { lease = some (new_lease o.key o.holder now cancelled) })
  entered-IsBacked now at cancelled table o e mem soon b =
      answered_lease now at table o (new_lease o.key o.holder now cancelled) mem soon refl
        (λ _. ap is_live e) b

  pub heard-IsBacked :
      (now at : ℕ) (table : LockTable) (o : Owner)
      → Memᴰ at o.sent
      → now ≤ at + delay
      → IsBacked delay now table o
      → IsBacked delay now table (on_lease (renewal_answered true now) o)
  unfolding renewal_answered
  heard-IsBacked now at table o mem soon b = go o.lease refl b
    where
      go :
          (lo : Option Lease)
          → o.lease ≡ lo
          → IsBacked delay now table (record o { lease = lo })
          → IsBacked delay now table
              (on_lease (renewal_answered true now) (record o { lease = lo }))
      go none e b' = b'
      go (some l) e b' =
          answered_lease now at table o (record l { last_ok_at = now }) mem soon refl
            (λ on. subst (λ x. is_live x ≡ true) (sym e) on) b

  pub renewed-IsBacked :
      (key holder : String) (now : ℕ) (table : LockTable) (o : Owner)
      → IsBacked delay now table o
      → IsBacked delay now
          (renew_lock key holder now table).0
          (if is_of key holder o then note_sent (renew_lock key holder now table).1 now o else o)
  renewed-IsBacked key holder now table o b = elim (Bool-cases (is_of key holder o)) [
    | inr other ↦ simp other kept
    | inl own ↦ elim (Bool-cases (renew_lock key holder now table).1) [
      | inr missed ↦ simp (own, missed) kept
      | inl met ↦
          simp (own, met)
            (record {
              answerable = (
                (
                  omega arith,
                  λ _ _.
                      HasRow-met delay key holder now table o.key o.holder met (and_first _ _ own)
                        (and_second _ _ own),
                ),
                kept.answerable,
              );
              leased = kept.leased;
            })
    ]
  ]
    where
      kept : IsBacked delay now (renew_lock key holder now table).0 o
      kept =
          table_change now table (renew_lock key holder now table).0 o
            (λ until _ few _ h.
              HasRow-renewed delay key holder now table o.key o.holder until few h)
            b

  pub released-IsBacked :
      (key holder : String) (now : ℕ) (table : LockTable) (o : Owner)
      → (is_live o.lease ≡ true → str_eq o.key key ≡ true → str_eq o.holder holder ≡ true → ⊥)
      → IsBacked delay now table o
      → IsBacked delay now (release key holder table) o
  released-IsBacked key holder now table o other =
      table_change now table (release key holder table) o (λ until _ _ live h.
        HasRow-released delay key holder table o.key o.holder until (other live) h)
