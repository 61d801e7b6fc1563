-- ===== src/Evaluation/Evaluate/Rollout.antt =====
-- Percentage rollouts: `validateOutcome` and the loop of `resolveOutcome`.
use flagstack.Common.{
  ℕ, ◌+◌, ◌<◌, ◌≡◌, true, some, List, [], ◌∷◌, String, arith, ok, member, ℤ, pos, add_int, lt_int,
  eq_int, Bool-cases, inl, inr, pos_part,
}
use flagstack.Evaluation.Types.{Allocation}
use flagstack.Evaluation.Validate.{bucket_scale, validate_rollout}
use flagstack.Evaluation.Evaluate.{pick}

eq_int-pos : (a : ℤ) (n : ℕ) → eq_int a (pos n) ≡ true → a ≡ pos n
eq_int-pos a n h = ground arith

abbrev pub Picks : List String → ℕ → ℤ → List Allocation → Type 0
Picks allowed n total rs =
    (a : Allocation) × (pick n total rs ≡ some a) × (member allowed a.variant ≡ true)

-- A validated rollout has an allocation for every bucket, also where the sum wrapped around.
pub pick-total :
    (allowed : List String) (total : ℤ) (a : Allocation) (rest : List Allocation) (n : ℕ)
    → validate_rollout allowed total (a ∷ rest) ≡ ok tt
    → n < bucket_scale
    → Picks allowed n total (a ∷ rest)
unfolding validate_rollout pick
pick-total allowed total a [] n h lt =
    (a, ground (arith, eq_int-pos (add_int total a.weight) bucket_scale), ground arith)
pick-total allowed total a (b ∷ rest) n h lt =
    elim (Bool-cases (lt_int (pos n) (add_int total a.weight))) [
      | inl here ↦ (a, rw here, ground arith)
      | inr later ↦
          let (c, found, known) =
            pick-total allowed (add_int total a.weight) b rest n (ground arith) lt in
          (c, rw later found, known)
    ]

-- The sum of the weights, for weights that are not negative.
abbrev pub total_weight : List Allocation → ℕ
total_weight [] = 0
total_weight (a ∷ as') = pos_part a.weight + total_weight as'

abbrev pub NotNegative : Allocation → Type 0
NotNegative a = a.weight ≡ pos (pos_part a.weight)
