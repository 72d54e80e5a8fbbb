-- ===== src/Jobs/Releases.antt =====
-- What the end or the start of a process does to the rows of its jobs.
use catworld.Common.{
  ℕ, ◌-◌, ◌≤◌, ◌<◌, String, ◌≡◌, refl, sym, subst, inl, inr, Bool, true, false, ◌&&◌, not, List, [],
  ◌∷◌, map, arith, if◌then◌else◌, leb, Bool-cases,
}
use catworld.Jobs.{Job, is_running}
use catworld.Jobs.Recover.{ours, crashed_row, returned_row, fail_crashed, give_back, release_self}
use catworld.Jobs.Tables.{All-All}
use catworld.Jobs.Moves.{
  Move, stays, ends, requeues, Moves, Moves-map, active_of_running, and_left, same,
}

-- The row after `releaseSelf`, for the rows of the process (`mine`).
abbrev released_row : Bool → ℕ → Bool → Job → Job
released_row refund now mine j =
    if mine
    then if not refund && leb j.max_attempts j.attempts
      then crashed_row j
      else returned_row refund now j
    else j

ours_run : (name : String) (n : ℕ) (j : Job) → ours name n j ≡ true → is_running j.status ≡ true
ours_run name n j h = and_left _ _ h

release_row :
    (name : String) (n : ℕ) (refund : Bool) (now : ℕ) (j : Job)
    → Move j (released_row refund now (ours name n j) j)
release_row name n refund now j = elim (Bool-cases (ours name n j)) [
  | inr e ↦ simp e (stays j)
  | inl e ↦ elim (Bool-cases (not refund && leb j.max_attempts j.attempts)) [
    | inl late ↦
        simp (e, late)
          (ends j (crashed_row j) (active_of_running j.status (ours_run name n j e)) refl
            (same j _ (refl, refl, refl, refl, refl, refl, refl)) refl)
    | inr early ↦
        simp (e, early)
          (requeues j (returned_row refund now j) (ours_run name n j e) refl
            (same j _ (refl, refl, refl, refl, refl, refl, refl)) (left refund early))
  ]
]
  where
    left :
        (r : Bool)
        → (not r && leb j.max_attempts j.attempts) ≡ false
        → 0 < j.attempts
        → j.attempts ≤ j.max_attempts
        → (if r then j.attempts - 1 else j.attempts) < j.max_attempts
    left true h p q = omega arith
    left false h p q = ground arith

released :
    (name : String) (n : ℕ) (refund : Bool) (now : ℕ) (js : List Job)
    → release_self name n refund now js ≡ map (λ j. released_row refund now (ours name n j) j) js
unfolding release_self give_back fail_crashed
released name n true now [] = refl
released name n false now [] = refl
released name n true now (j ∷ js) = ground (arith, released name n true now js)
released name n false now (j ∷ js) = ground (arith, released name n false now js)

pub Moves-release :
    (name : String) (n : ℕ) (refund : Bool) (now : ℕ) (js : List Job)
    → Moves js (release_self name n refund now js)
Moves-release name n refund now js = subst (Moves js) (sym (released name n refund now js)) (
    Moves-map (λ j. released_row refund now (ours name n j) j) js
      (All-All _ js (release_row name n refund now)))
