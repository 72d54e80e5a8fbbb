-- ===== src/Worker/Profiles/Restart.antt =====
-- The order in which a profile lists its types and weights does not matter to a restart.
use catworld.Common.{
  ℕ, String, ◌≡◌, refl, ◌∙◌, false, List, [], ◌∷◌, map, arith, get_or, str_eq_refl,
}
use catworld.Common.TextOrder.{text_leb_total, text_leb_antisymm, text_leb_trans}
use mathlib.Core.List.{Permᴰ}
use catworld.Worker.Profiles.{insert_sorted, sort, sorted_key, to_text, Restartable, needs_restart}

insert_sorted_comm :
    (a b : String) (l : List String)
    → insert_sorted a (insert_sorted b l) ≡ insert_sorted b (insert_sorted a l)
unfolding insert_sorted
insert_sorted_comm a b [] = ground (arith, text_leb_total a b, text_leb_antisymm a b)
insert_sorted_comm a b (t ∷ ts) = ground (
  arith,
  text_leb_total a b,
  text_leb_antisymm a b,
  text_leb_total a t,
  text_leb_total b t,
  text_leb_trans a b t,
  text_leb_trans b a t,
  text_leb_trans a t b,
  text_leb_trans b t a,
  insert_sorted_comm a b ts,
)

sort-Permᴰ : {xs ys : List String} → Permᴰ xs ys → sort xs ≡ sort ys
unfolding sort
sort-Permᴰ Permᴰ.nil = refl
sort-Permᴰ (Permᴰ.cons e p) = rw (e, sort-Permᴰ p)
sort-Permᴰ (Permᴰ.swap {a} {b} {l} e f) = rw (← e, ← f) (insert_sorted_comm a b (sort l))
sort-Permᴰ (Permᴰ.trans p q) = sort-Permᴰ p ∙ sort-Permᴰ q

map-Permᴰ : {xs ys : List ℕ} → Permᴰ xs ys → Permᴰ (map to_text xs) (map to_text ys)
map-Permᴰ Permᴰ.nil = Permᴰ.nil
map-Permᴰ (Permᴰ.cons e p) = Permᴰ.cons (rw e) (map-Permᴰ p)
map-Permᴰ (Permᴰ.swap e f) = Permᴰ.swap (rw e) (rw f)
map-Permᴰ (Permᴰ.trans p q) = Permᴰ.trans (map-Permᴰ p) (map-Permᴰ q)

-- Two settings with the same number of slots that list the same job types and weights, in whatever
-- order, need no restart (weights left out count as the empty list).
pub needs_restart_perm :
    (before after : Restartable)
    → before.concurrency ≡ after.concurrency
    → Permᴰ before.job_types after.job_types
    → Permᴰ (get_or before.weights []) (get_or after.weights [])
    → needs_restart before after ≡ false
unfolding needs_restart sorted_key
needs_restart_perm before after c t w = ground (
  arith,
  sort-Permᴰ t,
  sort-Permᴰ (map-Permᴰ w),
  str_eq_refl (sorted_key after.job_types),
  str_eq_refl (sorted_key (map to_text (get_or after.weights []))),
)
