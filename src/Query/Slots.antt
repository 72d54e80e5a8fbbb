-- ===== src/Query/Slots.antt =====
-- server/query/protection.ts: the count of the queries that run at the same time.
use catworld.Common.{
  ℕ, ◌+◌, ◌-◌, ◌≤◌, ◌≡◌, ◌↔◌, Option, none, some, List, [], ◌∷◌, arith, if◌then◌else◌, leb,
}

abbrev pub max_concurrent : ℕ
max_concurrent = 8

-- `none` is the refusal with the status 429.
unfoldable pub acquire_query_slot : ℕ → Option ℕ
acquire_query_slot active = if leb max_concurrent active then none else some (active + 1)

-- `Math.max(0, active - 1)`.
unfoldable pub release_query_slot : ℕ → ℕ
release_query_slot active = active - 1

pub data SlotCall : Type 0 where
  acquires releases : SlotCall

-- The count after the calls; an acquisition that is refused leaves it as it is.
abbrev pub after_calls : List SlotCall → ℕ → ℕ
after_calls [] n = n
after_calls (acquires ∷ cs) n = elim (acquire_query_slot n) [
  | none ↦ after_calls cs n
  | some m ↦ after_calls cs m
]
after_calls (releases ∷ cs) n = after_calls cs (release_query_slot n)

-- No sequence of calls, releases without an acquisition among them, brings a count of at most 8 above
-- 8, and after it a query is refused exactly if the count is 8.
pub slots_bounded :
    (cs : List SlotCall) (n : ℕ)
    → n ≤ 8
    → (after_calls cs n ≤ 8)
      × ((acquire_query_slot (after_calls cs n) ≡ none) ↔ (after_calls cs n ≡ 8))
unfolding acquire_query_slot release_query_slot
slots_bounded [] n h = (h, (λ e. ground arith, λ e. ground arith))
slots_bounded (acquires ∷ cs) n h = ground (arith, slots_bounded cs n h, slots_bounded cs (n + 1))
slots_bounded (releases ∷ cs) n h = slots_bounded cs (n - 1) (omega (arith, h))
