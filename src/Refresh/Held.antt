-- ===== src/Refresh/Held.antt =====
-- Rounds that believe to have the lease: while one does, the row is its own and no other takes it.
use catworld.Common.{
  ℕ, ◌+◌, ◌*◌, ◌≤◌, ◌<◌, String, ◌≡◌, refl, sym, subst, inl, inr, Bool, true, false, ◌&&◌, not,
  Option, none, some, List, [], ◌∷◌, arith, if◌then◌else◌, str_eq, str_eq_refl, eq_iff, All, map,
  Bool-cases,
}
use catworld.Jobs.{same_text, count}
use catworld.Jobs.Tables.{All-map}
use catworld.Refresh.{
  SourceRow, Round, lease_heartbeat_ms, is_busy, is_owned, leased_row, take_lease,
  max_heartbeat_failures, renewed, renew, beat_answered, beat_missed,
}
use catworld.Refresh.Steps.{World, has_lease, without}

-- A round that has not lost its lease owns the row, and its last renewal is as old as its failures say.
abbrev pub IsHeld : ℕ → ℕ → SourceRow → Round → Type 0
IsHeld minutes now row r =
    r.lease_lost ≡ false
    → (is_owned r.lease row ≡ true)
      × (now ≤ r.fired_at + lease_heartbeat_ms)
      × (r.fired_at ≤ row.updated_at + r.heartbeat_failures * 60000)
      × (r.heartbeat_failures < max_heartbeat_failures minutes)

abbrev pub believes : Round → Bool
believes r = not r.lease_lost

pub record IsExclusive (minutes : ℕ) (w : World) : Type 0 where
  pub held : All (IsHeld minutes w.now w.row) w.rounds
  pub single : count believes w.rounds ≤ 1

failures_bound : (m : ℕ) → 2 ≤ m → max_heartbeat_failures m ≤ m
unfolding max_heartbeat_failures
failures_bound m h = omega arith

-- A round that believes to have the lease keeps others from taking it.
pub no_taking :
    (minutes : ℕ) (lease : String) (now : ℕ) (row row' : SourceRow) (r : Round)
    → 2 ≤ minutes
    → IsHeld minutes now row r
    → take_lease minutes lease now row ≡ (row', true)
    → r.lease_lost ≡ true
unfolding take_lease
no_taking minutes lease now row row' r two h e = elim (Bool-cases r.lease_lost) [
  | inl lost ↦ lost
  | inr alive ↦ absurd (blocked (h alive))
]
  where
    blocked :
        (is_owned r.lease row ≡ true)
          × (now ≤ r.fired_at + lease_heartbeat_ms)
          × (r.fired_at ≤ row.updated_at + r.heartbeat_failures * 60000)
          × (r.heartbeat_failures < max_heartbeat_failures minutes)
        → ⊥
    blocked (own, near, old, few) = let bound = failures_bound minutes two in ground arith

module _ {ℓ} {A : Type ℓ} where
  pub All_map_to {κ κ'} :
      (P : A → Type κ) (Q : A → Type κ') (f : A → A) (xs : List A)
      → ((x : A) → P x → Q (f x))
      → All P xs
      → All Q (map f xs)
  All_map_to P Q f [] g h = tt
  All_map_to P Q f (x ∷ xs) g h = (g x h.0, All_map_to P Q f xs g h.1)

abbrev pub IsLost : Round → Type 0
IsLost r = r.lease_lost ≡ true

pub IsLost-all :
    (minutes : ℕ) (lease : String) (now : ℕ) (row row' : SourceRow) (rs : List Round)
    → 2 ≤ minutes
    → take_lease minutes lease now row ≡ (row', true)
    → All (IsHeld minutes now row) rs
    → All IsLost rs
IsLost-all minutes lease now row row' rs two e =
    All-map _ _ rs (λ r h. no_taking minutes lease now row row' r two h e)

pub held_lost :
    (minutes now : ℕ) (row : SourceRow) (rs : List Round)
    → All IsLost rs
    → All (IsHeld minutes now row) rs
held_lost minutes now row rs = All-map _ _ rs (λ r lost alive. absurd (cc (lost, alive)))

pub count_lost : (rs : List Round) → All IsLost rs → count believes rs ≡ 0
count_lost [] h = refl
count_lost (r ∷ rs) h = let first = h.0 in ground (arith, count_lost rs h.1)

owner_eq :
    (a b : String) (row : SourceRow)
    → is_owned a row ≡ true
    → is_owned b row ≡ true
    → str_eq a b ≡ true
owner_eq a b row h h' = go row.last_error h h'
  where
    go :
        (o : Option String)
        → (is_busy row && same_text o (some a)) ≡ true
        → (is_busy row && same_text o (some b)) ≡ true
        → str_eq a b ≡ true
    go none h h' = ground arith
    go (some t) h h' = ground (arith, eq_iff t a, eq_iff t b, eq_iff a b)

-- All rounds but the owner have lost their lease.
pub alone :
    (minutes now : ℕ) (row : SourceRow) (lease : String) (rs : List Round)
    → is_owned lease row ≡ true
    → All (IsHeld minutes now row) rs
    → All IsLost (without lease rs)
alone minutes now row lease [] own h = tt
alone minutes now row lease (r ∷ rs) own h = elim (Bool-cases (has_lease lease r)) [
  | inl e ↦ simp e (alone minutes now row lease rs own h.1)
  | inr e ↦ simp e (other e, alone minutes now row lease rs own h.1)
]
  where
    other : has_lease lease r ≡ false → IsLost r
    other e = elim (Bool-cases r.lease_lost) [
      | inl lost ↦ lost
      | inr alive ↦ let same = owner_eq r.lease lease row (h.0 alive).0 own in absurd (cc (same, e))
    ]

pub only_lost :
    (minutes now : ℕ) (row : SourceRow) (rs : List Round)
    → All IsLost rs
    → IsExclusive minutes (record { now = now; row = row; rounds = rs })
only_lost minutes now row rs lost = record {
  held = held_lost minutes now row rs lost;
  single = let none_left = count_lost rs lost in omega (arith, none_left);
}

pub max_pos : (m : ℕ) → 0 < max_heartbeat_failures m
unfolding max_heartbeat_failures
max_pos m = omega arith

pub owned_row :
    (lease : String) (now : ℕ) (row : SourceRow) → is_owned lease (leased_row lease now row) ≡ true
owned_row lease now row = simp (str_eq_refl lease) refl

pub taken_row :
    (minutes : ℕ) (lease : String) (now : ℕ) (row row' : SourceRow)
    → take_lease minutes lease now row ≡ (row', true)
    → row' ≡ leased_row lease now row
unfolding take_lease
taken_row minutes lease now row row' e = ground arith

-- A heartbeat of the owner.
pub beat_held :
    (minutes now : ℕ) (lease : String) (row : SourceRow) (r : Round)
    → IsHeld minutes now row r
    → IsHeld minutes now
        (renew lease now row).0
        (if has_lease lease r then beat_answered (renew lease now row).1 now r else r)
unfolding renew beat_answered
beat_held minutes now lease row r h = go (has_lease lease r) (is_owned lease row) refl refl
  where
    go :
        (here owned : Bool)
        → has_lease lease r ≡ here
        → is_owned lease row ≡ owned
        → IsHeld minutes now
            (renewed now row owned).0
            (if here then beat_answered (renewed now row owned).1 now r else r)
    go true true e o alive =
        let same : lease ≡ r.lease = sym ((eq_iff r.lease lease).0 e) in
        let pos = max_pos minutes in
        (subst (λ l. is_owned l row ≡ true) same o, omega arith, omega arith, pos)
    go true false e o alive = absurd (ground arith)
    go false true e o alive =
        let same = owner_eq r.lease lease row (h alive).0 o in absurd (cc (same, e))
    go false false e o alive = h alive

pub miss_held :
    (minutes now : ℕ) (row : SourceRow) (r : Round)
    → IsHeld minutes now row r
    → IsHeld minutes now row (beat_missed minutes now r)
unfolding beat_missed
miss_held minutes now row r h alive = ground (arith, step)
  where
    still : r.lease_lost ≡ false
    still = ground arith

    step :
        (is_owned r.lease row ≡ true)
        × (now ≤ r.fired_at + lease_heartbeat_ms)
        × (r.fired_at ≤ row.updated_at + r.heartbeat_failures * 60000)
        × (r.heartbeat_failures < max_heartbeat_failures minutes)
    step = h still
