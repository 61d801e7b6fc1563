-- ===== src/Common/Sort.antt =====
-- Sorting, and predicates on the rows of a list.
use mathlib.Core.Path.{◌≡◌, refl}
use mathlib.Core.Logic.{inl, inr}
use mathlib.Core.Bool.{Bool, true, ◌&&◌, ◌||◌, not}
use mathlib.Core.List.{Memᴰ, List, [], ◌∷◌, map}
use flagstack.Common.Tests.{All, All-map, Bool-cases, if◌then◌else◌}
use flagstack.Common.Tables.{filter}

-- A stable sort: an `ORDER BY` of a query.
unfoldable pub insert_by {ℓ} : {A : Type ℓ} → (A → A → Bool) → A → List A → List A
insert_by le x [] = x ∷ []
insert_by le x (y ∷ ys) = if le x y then x ∷ y ∷ ys else y ∷ insert_by le x ys

unfoldable pub sort_by {ℓ} : {A : Type ℓ} → (A → A → Bool) → List A → List A
sort_by le [] = []
sort_by le (x ∷ xs) = insert_by le x (sort_by le xs)

-- Two columns, the first compared by `first`.
abbrev pub by_two {ℓ} : {A : Type ℓ} → (A → A → Bool) → (A → A → Bool) → A → A → Bool
by_two first second a b = first a b && (not (first b a) || second a b)

pub insert_by-All {ℓ κ} :
    {A : Type ℓ} (P : A → Type κ) (le : A → A → Bool) (x : A) (xs : List A)
    → P x
    → All P xs
    → All P (insert_by le x xs)
unfolding insert_by
insert_by-All P le x [] p h = (p, tt)
insert_by-All P le x (y ∷ ys) p (q, h) = elim (Bool-cases (le x y)) [
  | inl is ↦ rw (is) (p, (q, h))
  | inr is ↦ rw (is) (q, insert_by-All P le x ys p h)
]

pub sort_by-All {ℓ κ} :
    {A : Type ℓ} (P : A → Type κ) (le : A → A → Bool) (xs : List A)
    → All P xs
    → All P (sort_by le xs)
unfolding sort_by
sort_by-All P le [] h = tt
sort_by-All P le (x ∷ xs) (p, h) = insert_by-All P le x (sort_by le xs) p (sort_by-All P le xs h)

pub filter_rows {ℓ κ μ} :
    {A : Type ℓ} (P : A → Type κ) (Q : A → Type μ) (p : A → Bool) (xs : List A)
    → ((x : A) → P x → p x ≡ true → Q x)
    → All P xs
    → All Q (filter p xs)
filter_rows P Q p [] step h = tt
filter_rows P Q p (x ∷ xs) step (h, hs) = elim (Bool-cases (p x)) [
  | inl is ↦ rw (is) (step x h is, filter_rows P Q p xs step hs)
  | inr is ↦ rw (is) (filter_rows P Q p xs step hs)
]

pub map_rows {ℓ κ μ} :
    {A : Type ℓ} {B : Type κ} (P : A → Type μ) (Q : B → Type μ) (f : A → B) (xs : List A)
    → ((x : A) → P x → Q (f x))
    → All P xs
    → All Q (map f xs)
map_rows P Q f [] step h = tt
map_rows P Q f (x ∷ xs) step (p, h) = (step x p, map_rows P Q f xs step h)

-- Every row of a list is in it.
pub mem_rows : {A : Type 0} (xs : List A) → All (λ x. Memᴰ x xs) xs
mem_rows [] = tt
mem_rows (x ∷ xs) = (Memᴰ.head refl, All-map xs (λ y m. Memᴰ.tail m) (mem_rows xs))
