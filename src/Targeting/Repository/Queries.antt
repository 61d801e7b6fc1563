-- ===== src/Targeting/Repository/Queries.antt =====
-- Lemmas on the results of queries.
use flagstack.Targeting.Types.{TargetingError}
use flagstack.Targeting.Repository.{only, found}
use flagstack.Common.{[], ◌∷◌, ◌≡◌, ok, some, none, arith, List, Option}

module _ {ℓ} {A : Type ℓ} where
  pub only-some : (xs : List A) (x : A) → only xs ≡ ok (some x) → xs ≡ x ∷ []
  only-some [] x h = cc
  only-some (y ∷ []) x h = ground arith
  only-some (y ∷ z ∷ rest) x h = cc

  pub found-eq-ok : (e : TargetingError) (o : Option A) (x : A) → found e o ≡ ok x → o ≡ some x
  found-eq-ok e none x h = cc
  found-eq-ok e (some y) x h = ground arith
