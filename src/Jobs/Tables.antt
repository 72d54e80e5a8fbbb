-- ===== src/Jobs/Tables.antt =====
-- Laws of `UPDATE ... WHERE` and of keys that occur once, for any table.
use mathlib.Core.List.{Memᴰ}
use catworld.Common.{
  ◌+◌, ◌≤◌, String, ◌≡◌, refl, sym, ap, subst, ◌∙◌, inl, inr, Bool, true, false, none, some, List,
  [], ◌∷◌, ◌++◌, arith, if◌then◌else◌, str_eq, eq_iff, All, Bool-cases, keep,
}
use catworld.Jobs.{update_where, count, Job, find_job}

module _ {ℓ} {A : Type ℓ} where
  -- A predicate that the change keeps where the test holds is kept by the table.
  pub All-update {κ} :
      (P : A → Type κ) (p : A → Bool) (f : A → A) (xs : List A)
      → All (λ x. P x → p x ≡ true → P (f x)) xs
      → All P xs
      → All P (update_where p f xs)
  All-update P p f [] step h = tt
  All-update P p f (x ∷ xs) step h = (row, All-update P p f xs step.1 h.1)
    where
      row : P (if p x then f x else x)
      row = elim (Bool-cases (p x)) [ inl e ↦ simp e (step.0 h.0 e) | inr e ↦ simp e h.0 ]

  pub All-All {κ} : (P : A → Type κ) (xs : List A) → ((x : A) → P x) → All P xs
  All-All P [] h = tt
  All-All P (x ∷ xs) h = (h x, All-All P xs h)

  pub All-append {κ} : (P : A → Type κ) (xs ys : List A) → All P xs → All P ys → All P (xs ++ ys)
  All-append P [] ys hx hy = hy
  All-append P (x ∷ xs) ys hx hy = (hx.0, All-append P xs ys hx.1 hy)

  pub All-map {κ κ'} :
      (P : A → Type κ) (Q : A → Type κ') (xs : List A) → ((x : A) → P x → Q x) → All P xs → All Q xs
  All-map P Q [] f h = tt
  All-map P Q (x ∷ xs) f h = (f x h.0, All-map P Q xs f h.1)

  pub All-Memᴰ {κ} : (P : A → Type κ) (a : A) (xs : List A) → All P xs → Memᴰ a xs → P a
  All-Memᴰ P a [] h m = elim m [ ]
  All-Memᴰ P a (x ∷ xs) h (Memᴰ.head e) = rw e h.0
  All-Memᴰ P a (x ∷ xs) h (Memᴰ.tail m) = All-Memᴰ P a xs h.1 m

  pub All-keep {κ} : (P : A → Type κ) (q : A → Bool) (xs : List A) → All P xs → All P (keep q xs)
  All-keep P q [] h = tt
  All-keep P q (x ∷ xs) h = elim (Bool-cases (q x)) [
    | inl e ↦ simp e (h.0, All-keep P q xs h.1)
    | inr e ↦ simp e (All-keep P q xs h.1)
  ]

  pub update-none :
      (p : A → Bool) (f : A → A) (xs : List A)
      → All (λ x. p x ≡ false) xs
      → update_where p f xs ≡ xs
  update-none p f [] h = refl
  update-none p f (x ∷ xs) h = simp (h.0, update-none p f xs h.1) refl

  pub count-append : (q : A → Bool) (xs ys : List A) → count q (xs ++ ys) ≡ count q xs + count q ys
  count-append q [] ys = omega arith
  count-append q (x ∷ xs) ys = ground (arith, count-append q xs ys)

  pub count-keep-le : (p q : A → Bool) (xs : List A) → count p (keep q xs) ≤ count p xs
  count-keep-le p q [] = omega arith
  count-keep-le p q (x ∷ xs) = ground (arith, count-keep-le p q xs)

  -- A change that makes no row count anew.
  pub count-update-le :
      (q p : A → Bool) (f : A → A) (xs : List A)
      → All (λ x. p x ≡ true → q (f x) ≡ true → q x ≡ true) xs
      → count q (update_where p f xs) ≤ count q xs
  count-update-le q p f [] h = omega arith
  count-update-le q p f (x ∷ xs) h = ground (arith, h.0, count-update-le q p f xs h.1)

-- The ids of a table of jobs occur once.
abbrev pub Distinct : List Job → Type 0
Distinct [] = Unit
Distinct (j ∷ js) = All (λ k. str_eq k.id j.id ≡ false) js × Distinct js

-- A change that leaves the ids as they are.
abbrev pub KeepsId : (Job → Job) → Type 0
KeepsId f = (j : Job) → (f j).id ≡ j.id

pub Distinct-update :
    (p : Job → Bool) (f : Job → Job) (js : List Job)
    → KeepsId f
    → Distinct js
    → Distinct (update_where p f js)
Distinct-update p f [] same d = tt
Distinct-update p f (j ∷ js) same d = (
  subst (λ i. All (λ k. str_eq k.id i ≡ false) (update_where p f js)) (sym row)
      (All-update (λ k. str_eq k.id j.id ≡ false) p f js
        (All-All _ js (λ k h _. ap (λ i. str_eq i j.id) (same k) ∙ h)) d.0),
  Distinct-update p f js same d.1,
)
  where
    row : (if p j then f j else j).id ≡ j.id
    row = elim (Bool-cases (p j)) [ inl e ↦ simp e (same j) | inr e ↦ simp e refl ]

-- In a table with such ids, the row of an id is one row.
pub Distinct-one :
    (j : Job) (js : List Job)
    → Distinct js
    → Memᴰ j js
    → All (λ k. str_eq k.id j.id ≡ true → k ≡ j) js
Distinct-one j [] d m = elim m [ ]
Distinct-one j (k ∷ ks) d (Memᴰ.head e) =
    (λ _. sym e, All-map _ _ ks (λ x h h'. absurd (other x h h')) d.0)
  where
    other : (x : Job) → str_eq x.id k.id ≡ false → str_eq x.id j.id ≡ true → ⊥
    other x h h' = cc (h, h', ap (λ i. str_eq x.id i.id) e)
Distinct-one j (k ∷ ks) d (Memᴰ.tail m) = (λ h. absurd (other h), Distinct-one j ks d.1 m)
  where
    other : str_eq k.id j.id ≡ true → ⊥
    other h = ground (
      arith,
      All-Memᴰ (λ i. str_eq i.id k.id ≡ false) j ks d.0 m,
      eq_iff k.id j.id,
      eq_iff j.id k.id,
    )

-- A change of the row of an id makes at most one row count anew.
pub count-update_one-le :
    (q : Job → Bool) (id : String) (f : Job → Job) (js : List Job)
    → Distinct js
    → count q (update_where (λ k. str_eq k.id id) f js) ≤ count q js + 1
count-update_one-le q id f [] d = omega arith
count-update_one-le q id f (j ∷ js) d = elim (Bool-cases (str_eq j.id id)) [
  | inl e ↦
      let others : All (λ k. str_eq k.id id ≡ false) js =
        All-map _ _ js (λ x h. cc (h, ap (str_eq x.id) ((eq_iff j.id id).0 e))) d.0 in
      rw (e, update-none (λ k. str_eq k.id id) f js others) (ground arith)
  | inr e ↦ simp e (ground (arith, count-update_one-le q id f js d.1))
]

-- A statement that keeps ids acts on the row that is found as it acts on every row.
pub find_job-update :
    (p : Job → Bool) (f : Job → Job) (id : String) (js : List Job)
    → KeepsId f
    → find_job id (update_where p f js)
      ≡ (elim (find_job id js) [ none ↦ none | some j ↦ some (if p j then f j else j) ])
unfolding find_job
find_job-update p f id [] same = refl
find_job-update p f id (j ∷ js) same = ground (arith, find_job-update p f id js same, same j)
