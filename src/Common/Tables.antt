-- ===== src/Common/Tables.antt =====
-- Tables as lists of rows: queries and updates.
use Prim.Native.Nat.{◌≤◌}
use mathlib.Core.Path.{◌≡◌, refl, sym, subst, ◌∙◌}
use mathlib.Core.Logic.{◌≢◌, inl, inr}
use mathlib.Core.Bool.{Bool, true, false, ◌&&◌, ◌||◌}
use mathlib.Core.List.{List, [], ◌∷◌, ◌++◌, map}
use native.Mathlib.Omega.{arith}
use flagstack.Common.Tests.{All, All-map, Bool-cases, length, if◌then◌else◌}

abbrev pub filter {ℓ} : {A : Type ℓ} → (A → Bool) → List A → List A
filter p [] = []
filter p (x ∷ xs) = if p x then x ∷ filter p xs else filter p xs

abbrev pub any {ℓ} : {A : Type ℓ} → (A → Bool) → List A → Bool
any p [] = false
any p (x ∷ xs) = p x || any p xs

-- An update of the rows that a condition selects.
abbrev pub update_where {ℓ} : {A : Type ℓ} → (A → Bool) → (A → A) → List A → List A
update_where p f xs = map (λ x. if p x then f x else x) xs

pub nil-ne-cons {ℓ} : {A : Type ℓ} {x : A} {xs : List A} → [] ≢ x ∷ xs
nil-ne-cons = λ h. cc

cons-head {ℓ} : {A : Type ℓ} {x y : A} {xs ys : List A} → x ∷ xs ≡ y ∷ ys → x ≡ y
cons-head h = ground arith

module _ {ℓ} {A : Type ℓ} where
  pub All-update_where {κ} :
      (P : A → Type κ) (p : A → Bool) (f : A → A) (xs : List A)
      → ((x : A) → p x ≡ true → P x → P (f x))
      → All P xs
      → All P (update_where p f xs)
  All-update_where P p f [] step h = tt
  All-update_where P p f (x ∷ xs) step (h, hs) = elim (Bool-cases (p x)) [
    | inl chosen ↦ rw (chosen) (step x chosen h, All-update_where P p f xs step hs)
    | inr other ↦ rw (other) (h, All-update_where P p f xs step hs)
  ]

  pub update_where-All {κ} :
      (P : A → Type κ) (p : A → Bool) (f : A → A) (xs : List A)
      → ((x : A) → p x ≡ true → P (f x))
      → ((x : A) → p x ≡ false → P x)
      → All P (update_where p f xs)
  update_where-All P p f [] chosen other = tt
  update_where-All P p f (x ∷ xs) chosen other = elim (Bool-cases (p x)) [
    | inl is ↦ rw (is) (chosen x is, update_where-All P p f xs chosen other)
    | inr is ↦ rw (is) (other x is, update_where-All P p f xs chosen other)
  ]

  -- With what is known of each row before the update.
  pub update_where-All_from {κ μ} :
      (R : A → Type κ) (P : A → Type μ) (p : A → Bool) (f : A → A) (xs : List A)
      → ((x : A) → R x → p x ≡ true → P (f x))
      → ((x : A) → R x → p x ≡ false → P x)
      → All R xs
      → All P (update_where p f xs)
  update_where-All_from R P p f [] chosen other r = tt
  update_where-All_from R P p f (x ∷ xs) chosen other (r, rs) = elim (Bool-cases (p x)) [
    | inl is ↦ rw (is) (chosen x r is, update_where-All_from R P p f xs chosen other rs)
    | inr is ↦ rw (is) (other x r is, update_where-All_from R P p f xs chosen other rs)
  ]

  pub any-update_where :
      (q p : A → Bool) (f : A → A) (xs : List A)
      → ((x : A) → q (f x) ≡ q x)
      → any q (update_where p f xs) ≡ any q xs
  any-update_where q p f [] same = refl
  any-update_where q p f (x ∷ xs) same = elim (Bool-cases (p x)) [
    | inl chosen ↦ rw (chosen, same x, any-update_where q p f xs same)
    | inr other ↦ rw (other, any-update_where q p f xs same)
  ]

  pub filter-none : (p : A → Bool) (xs : List A) → All (λ x. p x ≡ false) xs → filter p xs ≡ []
  filter-none p [] h = refl
  filter-none p (x ∷ xs) (h, hs) = rw (h) (filter-none p xs hs)

  pub filter-head :
      (p : A → Bool) (xs : List A) (y : A) (ys : List A)
      → filter p xs ≡ y ∷ ys
      → (p y ≡ true) × (any p xs ≡ true)
  filter-head p [] y ys h = cc
  filter-head p (x ∷ xs) y ys h = ground (arith, filter-head p xs y ys)

  pub filter-All {κ} :
      (P : A → Type κ) (p : A → Bool) (xs : List A) (y : A) (ys : List A)
      → All P xs
      → filter p xs ≡ y ∷ ys
      → P y
  filter-All P p [] y ys h e = absurd (nil-ne-cons e)
  filter-All P p (x ∷ xs) y ys (h, hs) e = elim (Bool-cases (p x)) [
    | inl is ↦ let same : x ≡ y = cons-head (rw (is) at e) in subst P same h
    | inr is ↦ filter-All P p xs y ys hs (rw (is) at e)
  ]

  pub filter-update_where :
      (p : A → Bool) (f : A → A) (xs : List A)
      → ((x : A) → p (f x) ≡ p x)
      → filter p (update_where p f xs) ≡ map f (filter p xs)
  filter-update_where p f [] same = refl
  filter-update_where p f (x ∷ xs) same = elim (Bool-cases (p x)) [
    | inl is ↦ rw (is, same x ∙ is, filter-update_where p f xs same)
    | inr is ↦ rw (is, filter-update_where p f xs same, is)
  ]

  -- A row that a query returns is one that another condition selects too.
  pub length-filter_pos :
      (q p : A → Bool) (xs : List A) (y : A) (ys : List A)
      → filter q xs ≡ y ∷ ys
      → p y ≡ true
      → 1 ≤ length (filter p xs)
  length-filter_pos q p [] y ys e h = absurd (nil-ne-cons e)
  length-filter_pos q p (x ∷ xs) y ys e h = elim (Bool-cases (q x)) [
    | inl is ↦
        let same : y ≡ x = sym (cons-head (rw (is) at e)) in
        let chosen : p x ≡ true = subst (λ z. p z ≡ true) same h in rw (chosen) (omega arith)
    | inr is ↦
        let rest : 1 ≤ length (filter p xs) = length-filter_pos q p xs y ys (rw (is) at e) h in
        elim (Bool-cases (p x)) [
          | inl one ↦ rw (one) (omega arith)
          | inr not_one ↦ rw (not_one) rest
        ]
  ]

  pub filter-append :
      (p : A → Bool) (xs ys : List A) → filter p (xs ++ ys) ≡ filter p xs ++ filter p ys
  filter-append p [] ys = refl
  filter-append p (x ∷ xs) ys = elim (Bool-cases (p x)) [
    | inl is ↦ rw (is, filter-append p xs ys)
    | inr is ↦ rw (is, filter-append p xs ys)
  ]

  pub any-map :
      (p q : A → Bool) (xs : List A)
      → ((x : A) → p x ≡ true → q x ≡ true)
      → any p xs ≡ true
      → any q xs ≡ true
  any-map p q [] h k = k
  any-map p q (x ∷ xs) h k = ground (arith, h x, any-map p q xs h)

  pub any-false : (p : A → Bool) (xs : List A) → any p xs ≡ false → All (λ x. p x ≡ false) xs
  any-false p [] h = tt
  any-false p (x ∷ xs) h = (ground arith, any-false p xs (ground arith))

  pub any-append_left : (p : A → Bool) (xs ys : List A) → any p xs ≡ true → any p (xs ++ ys) ≡ true
  any-append_left p [] ys h = cc
  any-append_left p (x ∷ xs) ys h = ground (arith, any-append_left p xs ys)

pub length-filter-le :
    {A : Type 0} (p q : A → Bool) (xs : List A)
    → ((x : A) → p x ≡ true → q x ≡ true)
    → length (filter p xs) ≤ length (filter q xs)
length-filter-le p q [] h = omega arith
length-filter-le p q (x ∷ xs) h = ground (arith, h x, length-filter-le p q xs h)

-- Where one of two conditions implies the other and both select one row, they select the same.
pub same_rows :
    {A : Type 0} (p q : A → Bool) (xs : List A)
    → ((x : A) → p x ≡ true → q x ≡ true)
    → length (filter p xs) ≡ length (filter q xs)
    → All (λ x. q x ≡ true → p x ≡ true) xs
same_rows p q [] h e = tt
same_rows p q (x ∷ xs) h e =
    let le = length-filter-le p q xs h in
    (λ k. ground (arith, h x, le), same_rows p q xs h (ground (arith, h x, le)))

-- Where at most one row has a property, the row that a query found is that row.
pub sole_row :
    {A : Type 0} (found q good : A → Bool) (xs : List A) (row : A)
    → length (filter q xs) ≤ 1
    → filter found xs ≡ row ∷ []
    → q row ≡ true
    → good row ≡ true
    → All (λ x. q x ≡ true → good x ≡ true) xs
sole_row {A} found q good xs row few rows is fine =
    let both : A → Bool = λ x. q x && good x in
    let one = length-filter_pos found both xs row [] rows (ground arith) in
    let le = length-filter-le both q xs (λ x h. ground arith) in
    All-map xs (λ x h k. ground (arith, h k))
      (same_rows both q xs (λ x h. ground arith) (omega arith))
