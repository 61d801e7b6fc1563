-- ===== src/Common/Dict.antt =====
-- Go maps with string keys as association lists, and sets of strings as lists.
use Prim.Native.Nat.{ℕ, suc, ◌≤◌, ◌<◌}
use Prim.Native.String.{String}
use mathlib.Core.Path.{◌≡◌, refl}
use mathlib.Core.Bool.{Bool, false, ◌||◌, true}
use mathlib.Core.Option.{Option, none, some}
use mathlib.Core.List.{List, [], ◌∷◌, ◌++◌}
use native.Mathlib.Omega.{arith}
use text.Mathlib.Text.{◌==◌}
use text.Mathlib.TextEquality.{eq_iff}
use text.Mathlib.TextPositions.{eq_refl}
use flagstack.Common.Tests.{if◌then◌else◌, length}

abbrev pub member : List String → String → Bool
member [] k = false
member (x ∷ xs) k = x == k || member xs k

-- A missing key gives `none`, the second result of `v, ok := m[key]`.
module _ {ℓ} {V : Type ℓ} where
  -- m[key]
  unfoldable pub lookup : String → List (String × V) → Option V
  lookup key [] = none
  lookup key (entry ∷ rest) = if entry.0 == key then some entry.1 else lookup key rest

  -- m[key] = value
  unfoldable pub insert : String → V → List (String × V) → List (String × V)
  insert key value [] = (key, value) ∷ []
  insert key value (entry ∷ rest) =
      if entry.0 == key then (key, value) ∷ rest else entry ∷ insert key value rest

  pub lookup-insert :
      (set read : String) (value : V) (m : List (String × V))
      → lookup read (insert set value m) ≡ (if set == read then some value else lookup read m)
  unfolding lookup insert
  lookup-insert set read value [] = refl
  lookup-insert set read value (entry ∷ rest) = ground (
    arith,
    eq_iff entry.0 read,
    eq_iff entry.0 set,
    eq_iff set read,
    lookup-insert set read value rest,
  )

  pub length-insert-le :
      (k : String) (v : V) (m : List (String × V)) → length (insert k v m) ≤ suc (length m)
  unfolding insert
  length-insert-le k v [] = omega arith
  length-insert-le k v ((i, w) ∷ m) = ground (arith, length-insert-le k v m)

  -- How many entries have a key outside a set.
  pub unvisited : List (String × V) → List String → ℕ
  unvisited [] seen = 0
  unvisited ((k, v) ∷ m) seen = if member seen k then unvisited m seen else suc (unvisited m seen)

  pub unvisited-le-length :
      (m : List (String × V)) (seen : List String) → unvisited m seen ≤ length m
  unfolding unvisited
  unvisited-le-length [] seen = omega arith
  unvisited-le-length ((k, v) ∷ m) seen = ground (arith, unvisited-le-length m seen)

  pub unvisited-cons-le :
      (m : List (String × V)) (seen : List String) (key : String)
      → unvisited m (key ∷ seen) ≤ unvisited m seen
  unfolding unvisited
  unvisited-cons-le [] seen key = omega arith
  unvisited-cons-le ((k, v) ∷ m) seen key = ground (arith, unvisited-cons-le m seen key)

  pub unvisited-cons-lt :
      (m : List (String × V)) (seen : List String) (key : String) {v : V}
      → lookup key m ≡ some v
      → member seen key ≡ false
      → unvisited m (key ∷ seen) < unvisited m seen
  unfolding unvisited lookup
  unvisited-cons-lt [] seen key h fresh = cc
  unvisited-cons-lt ((k, w) ∷ m) seen key {v} h fresh = ground (
    arith,
    eq_iff k key,
    eq_iff key k,
    eq_refl key,
    unvisited-cons-le m seen key,
    unvisited-cons-lt m seen key {v = v},
  )

-- How many of some keys are outside a set.
pub unseen : List String → List String → ℕ
unseen [] seen = 0
unseen (k ∷ ks) seen = if member seen k then unseen ks seen else suc (unseen ks seen)

pub unseen-le-length : (ks seen : List String) → unseen ks seen ≤ length ks
unfolding unseen
unseen-le-length [] seen = omega arith
unseen-le-length (k ∷ ks) seen = ground (arith, unseen-le-length ks seen)

pub unseen-cons-le :
    (ks seen : List String) (key : String) → unseen ks (key ∷ seen) ≤ unseen ks seen
unfolding unseen
unseen-cons-le [] seen key = omega arith
unseen-cons-le (k ∷ ks) seen key = ground (arith, unseen-cons-le ks seen key)

pub unseen-cons-lt :
    (ks seen : List String) (key : String)
    → member ks key ≡ true
    → member seen key ≡ false
    → unseen ks (key ∷ seen) < unseen ks seen
unfolding unseen
unseen-cons-lt [] seen key h fresh = cc
unseen-cons-lt (k ∷ ks) seen key h fresh = ground (
  arith,
  eq_iff k key,
  eq_iff key k,
  eq_refl key,
  unseen-cons-le ks seen key,
  unseen-cons-lt ks seen key,
)

pub member-append :
    (xs ys : List String) (k : String) → member (xs ++ ys) k ≡ (member xs k || member ys k)
member-append [] ys k = refl
member-append (x ∷ xs) ys k = ground (arith, member-append xs ys k)
