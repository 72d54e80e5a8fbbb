-- ===== src/Locks/Exclusion.antt =====
-- At most one import of a table passes the check of its lease, but for the delay of the answers.
use catworld.Common.{
  ℕ, ◌+◌, ◌≤◌, ◌<◌, String, ◌≡◌, ◌∙◌, sym, ap, refl, inl, inr, Bool, true, false, ◌&&◌, Option,
  none, some, List, [], ◌∷◌, arith, str_eq, eq_iff, All, Bool-cases,
}
use catworld.Jobs.{count}
use catworld.Refresh.Held.{All_map_to}
use catworld.Jobs.Tables.{All-map}
use catworld.Locks.{
  LockRow, LockTable, lease_ms, renew_lock, Lease, new_lease, renewal_answered, renewal_failed,
  passes_assert, watch,
}
use catworld.Locks.Steps.{
  Owner, World, is_of, note_sent, on_lease, LockStep, goes_on, acquires, enters, renews, hears,
  denies, misses, looks, ends, frees, LockRun, no_step, one_more,
}
use catworld.Locks.Holders.{Apart, Apart-update, Apart-keep, Apart-one}
use catworld.Locks.Backed.{and_first, and_second, IsLeased, IsBacked, IsExclusive}
use catworld.Locks.Kept.{
  acquired-IsBacked, new_owner-IsBacked, later-IsBacked, entered-IsBacked, heard-IsBacked,
  renewed-IsBacked,
}
use catworld.Locks.Changes.{
  note_sent-holder, denied_less, denied_live, denied_time, missed_less, missed_live, missed_time,
  watched_less, watched_live, watched_time, lease_change, owner_change, ended-IsBacked,
  freed-IsBacked,
}

module _ (delay : ℕ) (short : delay < lease_ms) where
  Step-IsExclusive :
      {w w' : World} → LockStep delay w w' → IsExclusive delay w → IsExclusive delay w'
  Step-IsExclusive (goes_on d w) x = record {
    backed = All-map _ _ w.owners (λ o b. later-IsBacked delay short w.now d w.table o b) x.backed;
    apart = x.apart;
  }
  Step-IsExclusive (acquires key holder w table' new e) x = record {
    backed = (
      new_owner-IsBacked delay short key holder w.now w.table table' e,
      All-map _ _ w.owners
          (λ o b. acquired-IsBacked delay short key holder w.now w.table table' o e b) x.backed,
    );
    apart = (new, x.apart);
  }
  Step-IsExclusive (enters o at cancelled w mem none_yet sent soon) x =
      owner_change delay short o
        (λ k. record k { lease = some (new_lease o.key o.holder w.now cancelled) }) w
        (Apart-one o w.owners x.apart mem) (λ k. refl)
        (entered-IsBacked delay short w.now at cancelled w.table o none_yet sent soon) x
  Step-IsExclusive (renews key holder w) x = record {
    backed =
        All_map_to _ _ _ w.owners (renewed-IsBacked delay short key holder w.now w.table) x.backed;
    apart =
        Apart-update (is_of key holder) (note_sent (renew_lock key holder w.now w.table).1 w.now)
          w.owners (note_sent-holder (renew_lock key holder w.now w.table).1 w.now) x.apart;
  }
  Step-IsExclusive (hears o at w mem sent soon) x =
      owner_change delay short o (on_lease (renewal_answered true w.now)) w
        (Apart-one o w.owners x.apart mem) (λ k. refl)
        (heard-IsBacked delay short w.now at w.table o sent soon) x
  Step-IsExclusive (denies key holder w) x =
      lease_change delay short key holder (renewal_answered false w.now) w
        (denied_less (w.now + delay) w.now) (denied_live w.now) (denied_time w.now) x
  Step-IsExclusive (misses key holder w) x =
      lease_change delay short key holder (renewal_failed w.now) w
        (missed_less (w.now + delay) w.now) (missed_live w.now) (missed_time w.now) x
  Step-IsExclusive (looks key holder status w) x =
      lease_change delay short key holder (watch status) w (watched_less (w.now + delay) status)
        (watched_live status) (watched_time status) x
  Step-IsExclusive (ends key holder w) x = record {
    backed = ended-IsBacked delay short key holder w.now w.table w.owners x.backed;
    apart = Apart-keep _ w.owners x.apart;
  }
  Step-IsExclusive (frees o l w mem here off) x = record {
    backed =
        freed-IsBacked delay short o l w.now w.table w.owners here off
          (Apart-one o w.owners x.apart mem) x.backed;
    apart = x.apart;
  }

  Run-IsExclusive : {w w' : World} → LockRun delay w w' → IsExclusive delay w → IsExclusive delay w'
  Run-IsExclusive no_step x = x
  Run-IsExclusive (one_more r s) x = Step-IsExclusive s (Run-IsExclusive r x)

-- The imports of a key whose check would pass at a time.
abbrev pub publishes : String → ℕ → Owner → Bool
publishes key t o = str_eq o.key key && elim o.lease [ none ↦ false | some l ↦ passes_assert t l ]

count_off : (q : Owner → Bool) (os : List Owner) → All (λ o. q o ≡ false) os → count q os ≡ 0
count_off q [] h = refl
count_off q (o ∷ os) h = let first = h.0 in ground (arith, count_off q os h.1)

-- What publishes has the row.
row_of :
    (delay : ℕ) (key : String) (now : ℕ) (table : LockTable) (o : Owner)
    → IsBacked delay now table o
    → publishes key (now + delay) o ≡ true
    → (row : LockRow) × (table key ≡ some row) × (row.locked_by ≡ o.holder)
row_of delay key now table o b on = go o.lease b.leased (and_second _ _ on)
  where
    go :
        (lo : Option Lease)
        → IsLeased delay now table o lo
        → (elim lo [ none ↦ false | some l ↦ passes_assert (now + delay) l ]) ≡ true
        → (row : LockRow) × (table key ≡ some row) × (row.locked_by ≡ o.holder)
    go none h e = cc
    go (some l) h e =
        let (row, at, by, _) = h.1 e in
        (row, ap table (sym ((eq_iff o.key key).0 (and_first _ _ on))) ∙ at, by)

at_most_one :
    (delay : ℕ) (key : String) (now : ℕ) (table : LockTable) (os : List Owner)
    → All (IsBacked delay now table) os
    → Apart os
    → count (publishes key (now + delay)) os ≤ 1
at_most_one delay key now table [] b a = omega arith
at_most_one delay key now table (o ∷ os) b a = elim (Bool-cases (publishes key (now + delay) o)) [
  | inr e ↦ simp e (at_most_one delay key now table os b.1 a.1)
  | inl e ↦
      let rest = count_off (publishes key (now + delay)) os (others os e b.1 a.0) in
      simp e (omega (arith, rest))
]
  where
    others :
        (ks : List Owner)
        → publishes key (now + delay) o ≡ true
        → All (IsBacked delay now table) ks
        → All (λ k. str_eq k.holder o.holder ≡ false) ks
        → All (λ k. publishes key (now + delay) k ≡ false) ks
    others [] e bs ds = tt
    others (k ∷ ks) e bs ds = (
      elim (Bool-cases (publishes key (now + delay) k)) [
        | inr off ↦ off
        | inl on ↦
            let (row, at, by) = row_of delay key now table o b.0 e in
            let (row', at', by') = row_of delay key now table k bs.0 on in
            absurd (clash k row row' ds.0 at by at' by')
      ],
      others ks e bs.1 ds.1,
    )
      where
        clash :
            (k : Owner) (row row' : LockRow)
            → str_eq k.holder o.holder ≡ false
            → table key ≡ some row
            → row.locked_by ≡ o.holder
            → table key ≡ some row'
            → row'.locked_by ≡ k.holder
            → ⊥
        clash k row row' other at by at' by' =
            let same : k.holder ≡ o.holder = cc in cc ((eq_iff k.holder o.holder).1 same, other)

-- Imports of any number of processes that take the lock of a table, renew it or fail to, look at their
-- job, end, and release their locks at the end of a process, in any order, where the answer to a
-- statement that met the row is heard at most a delay after the statement, a delay shorter than the
-- lease: at most one import of a table has a lease whose check, which stands before the publication,
-- would still pass that delay later. (In the last delay of a lease the check of another may pass
-- too.) At first the owners of the locks are backed by their rows and have different holders, as in a
-- world without owners.
pub LockRun-one_publishes :
    {w w' : World} (delay : ℕ) (key : String)
    → delay < lease_ms
    → LockRun delay w w'
    → IsExclusive delay w
    → count (publishes key (w'.now + delay)) w'.owners ≤ 1
LockRun-one_publishes delay key short r x =
    let y = Run-IsExclusive delay short r x in at_most_one delay key _ _ _ y.backed y.apart
