-- ===== src/Agent/SyncCoordinator/Members.antt =====
-- What stands in the lists that a plan is made of.
use mathlib.Core.List.Memᴰ
pub use mathlib.Core.List.{Memᴰ}
pub use mathlib.Core.List.Memᴰ.{head, tail}
use time_weaver.Prelude.{
  ℕ, ◌≡◌, refl, sym, ap, ◌∙◌, Bool, true, some, List, [], ◌∷◌, map, Dict, get, put, ◌==◌,
  nat_comparable, inl, inr, arith, Bool-cases, Option-cases, sort_by, insert_by,
}
use time_weaver.Agent.SyncCoordinator.{JobSpec, index, items_where, ids_where, specs_at}

module _ {ℓ} {A : Type ℓ} (le : A → A → Bool) where
  insert_by-all : (x y : A) (ys : List A) → Memᴰ x (y ∷ ys) → Memᴰ x (insert_by le y ys)
  unfolding insert_by
  insert_by-all x y [] h = h
  insert_by-all x y (z ∷ ys) h = elim (Bool-cases (le y z)) [
    | inl is ↦ rw is h
    | inr isnt ↦ rw isnt (elim (Memᴰ.cases_cons h) [
      | inl e ↦ tail (insert_by-all x y ys (head e))
      | inr m ↦ elim (Memᴰ.cases_cons m) [
        | inl e ↦ head e
        | inr m' ↦ tail (insert_by-all x y ys (tail m'))
      ]
    ])
  ]

  insert_by-only : (x y : A) (ys : List A) → Memᴰ x (insert_by le y ys) → Memᴰ x (y ∷ ys)
  unfolding insert_by
  insert_by-only x y [] = λ h. h
  insert_by-only x y (z ∷ ys) = elim (Bool-cases (le y z)) [
    | inl is ↦ rw is (λ h. h)
    | inr isnt ↦ rw isnt (λ h. elim (Memᴰ.cases_cons h) [
      | inl e ↦ tail (head e)
      | inr m ↦ elim (Memᴰ.cases_cons (insert_by-only x y ys m)) [
        | inl e ↦ head e
        | inr m' ↦ tail (tail m')
      ]
    ])
  ]

  pub sort_by-all : (x : A) (xs : List A) → Memᴰ x xs → Memᴰ x (sort_by le xs)
  unfolding sort_by
  sort_by-all x [] h = h
  sort_by-all x (y ∷ ys) h = elim (Memᴰ.cases_cons h) [
    | inl e ↦ insert_by-all x y (sort_by le ys) (head e)
    | inr m ↦ insert_by-all x y (sort_by le ys) (tail (sort_by-all x ys m))
  ]

  pub sort_by-only : (x : A) (xs : List A) → Memᴰ x (sort_by le xs) → Memᴰ x xs
  unfolding sort_by
  sort_by-only x [] h = h
  sort_by-only x (y ∷ ys) h = elim (Memᴰ.cases_cons (insert_by-only x y (sort_by le ys) h)) [
    | inl e ↦ head e
    | inr m ↦ tail (sort_by-only x ys m)
  ]

pub map-all {ℓ κ} :
    {A : Type ℓ} {B : Type κ} (f : A → B) (x : A) (xs : List A) → Memᴰ x xs → Memᴰ (f x) (map f xs)
map-all f x [] h = absurd (Memᴰ.not-nil h)
map-all f x (y ∷ ys) h = elim (Memᴰ.cases_cons h) [
  | inl e ↦ head (ap f e)
  | inr m ↦ tail (map-all f x ys m)
]

pub map-only {ℓ κ} :
    {A : Type ℓ} {B : Type κ} (f : A → B) (y : B) (xs : List A)
    → Memᴰ y (map f xs)
    → (x : A) × Memᴰ x xs × (y ≡ f x)
map-only f y [] h = absurd (Memᴰ.not-nil h)
map-only f y (x ∷ xs) h = elim (Memᴰ.cases_cons h) [
  | inl e ↦ (x, head refl, e)
  | inr m ↦ let (x', m', e) = map-only f y xs m in (x', tail m', e)
]

pub ids_where-only {ℓ} :
    {A : Type ℓ} (test : ℕ → Bool) (id : ℕ) (d : Dict ℕ A)
    → Memᴰ id (ids_where test d)
    → test id ≡ true
unfolding ids_where
ids_where-only test id [] = λ h. absurd (Memᴰ.not-nil h)
ids_where-only test id ((k, item) ∷ d) = elim (Bool-cases (test k)) [
  | inl is ↦
      rw is (λ h. elim (Memᴰ.cases_cons h) [ inl e ↦ rw e is | inr m ↦ ids_where-only test id d m ])
  | inr isnt ↦ rw isnt (λ h. ids_where-only test id d h)
]

pub ids_where-all {ℓ} :
    {A : Type ℓ} (test : ℕ → Bool) (id : ℕ) (d : Dict ℕ A) (item : A)
    → get id d ≡ some item
    → test id ≡ true
    → Memᴰ id (ids_where test d)
unfolding ids_where get
ids_where-all test id [] item at is = cc
ids_where-all test id ((k, v) ∷ d) item at is = elim (Bool-cases (k == id)) [
  | inl same ↦
      let e : id ≡ k = ground (arith, same) in
      let is' : test k ≡ true = ap test (sym e) ∙ is in rw is' (head e)
  | inr differ ↦
      let below = ids_where-all test id d item (ground (arith, at, differ)) is in
      elim (Bool-cases (test k)) [ inl taken ↦ rw taken (tail below) | inr left ↦ rw left below ]
]

pub specs_at-only {ℓ} :
    {A : Type ℓ} (spec : A → JobSpec) (x : JobSpec) (ids : List ℕ) (d : Dict ℕ A)
    → Memᴰ x (specs_at spec ids d)
    → (id : ℕ) × (item : A) × (get id d ≡ some item) × (x ≡ spec item)
unfolding specs_at
specs_at-only spec x [] d = λ h. absurd (Memᴰ.not-nil h)
specs_at-only spec x (id ∷ ids) d = elim (Option-cases (get id d)) [
  | inl absent ↦ rw (absent, specs_at) (λ h. specs_at-only spec x ids d h)
  | inr (item, at) ↦
      rw (at, specs_at)
        (λ h. elim (Memᴰ.cases_cons h) [
          | inl e ↦ (id, item, at, e)
          | inr m ↦ specs_at-only spec x ids d m
        ])
]

pub specs_at-all {ℓ} :
    {A : Type ℓ} (spec : A → JobSpec) (id : ℕ) (ids : List ℕ) (d : Dict ℕ A) (item : A)
    → Memᴰ id ids
    → get id d ≡ some item
    → Memᴰ (spec item) (specs_at spec ids d)
unfolding specs_at
specs_at-all spec id [] d item h at = absurd (Memᴰ.not-nil h)
specs_at-all spec id (k ∷ ids) d item h at = elim (Memᴰ.cases_cons h) [
  | inl e ↦ rw (← e, at, specs_at) (head refl)
  | inr m ↦ elim (Option-cases (get k d)) [
    | inl absent ↦ rw (absent, specs_at) (specs_at-all spec id ids d item m at)
    | inr (other, there) ↦ rw (there, specs_at) (tail (specs_at-all spec id ids d item m at))
  ]
]

-- Each item stands under its own id.
abbrev pub Keyed {ℓ} : {A : Type ℓ} → (A → ℕ) → Dict ℕ A → Type ℓ
Keyed id [] = Unit
Keyed id ((k, item) ∷ d) = (id item ≡ k) × Keyed id d

Keyed-put {ℓ} :
    {A : Type ℓ} (id : A → ℕ) (item : A) (d : Dict ℕ A)
    → Keyed id d
    → Keyed id (put (id item) item d)
unfolding put
Keyed-put id item [] h = (refl, tt)
Keyed-put id item ((k, v) ∷ d) h = elim (Bool-cases (k == id item)) [
  | inl same ↦ rw same (ground (arith, same), h.1)
  | inr differ ↦ rw differ (h.0, Keyed-put id item d h.1)
]

pub Keyed-index {ℓ} :
    {A : Type ℓ} (id : A → ℕ) (items : List A) (d : Dict ℕ A)
    → Keyed id d
    → Keyed id (index id items d)
unfolding index
Keyed-index id [] d h = h
Keyed-index id (item ∷ items) d h =
    Keyed-index id items (put (id item) item d) (Keyed-put id item d h)

pub Keyed-items_where {ℓ} :
    {A : Type ℓ} (id : A → ℕ) (test : A → Bool) (d : Dict ℕ A)
    → Keyed id d
    → Keyed id (items_where test d)
unfolding items_where
Keyed-items_where id test [] h = tt
Keyed-items_where id test ((k, v) ∷ d) h = elim (Bool-cases (test v)) [
  | inl is ↦ rw is (h.0, Keyed-items_where id test d h.1)
  | inr isnt ↦ rw isnt (Keyed-items_where id test d h.1)
]

pub Keyed-get {ℓ} :
    {A : Type ℓ} (id : A → ℕ) (k : ℕ) (d : Dict ℕ A) (item : A)
    → Keyed id d
    → get k d ≡ some item
    → id item ≡ k
unfolding get
Keyed-get id k [] item h at = cc
Keyed-get id k ((j, v) ∷ d) item h at = elim (Bool-cases (j == k)) [
  | inl same ↦ let e : v ≡ item = ground (arith, at, same) in rw (← e) (h.0 ∙ ground (arith, same))
  | inr differ ↦ Keyed-get id k d item h.1 (ground (arith, at, differ))
]
