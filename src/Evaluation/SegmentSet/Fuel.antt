-- ===== src/Evaluation/SegmentSet/Fuel.antt =====
-- `ValidateSegmentSet` of backend/internal/evaluation/validation.go: how deep its search goes.
use flagstack.Evaluation.Runtime.{Runtime}
use flagstack.Evaluation.SegmentSet.{
  all_known, validate_segment_set, visit_all, build_index, check_references, visit, conditions_of,
  validate_portable_conditions, segment_references,
}
use flagstack.Evaluation.Types.{
  Segment, Fault, out_of_fuel, unknown_segment, segment_key_required, duplicate_segment,
  no_conditions,
}
use flagstack.Evaluation.Validate.{validate_segment, validate_conditions, validate_match_mode}
use flagstack.Common.{
  [], ◌∷◌, ◌<◌, ◌≢◌, inl, inr, ok, err, true, false, arith, ◌>>=◌, zero, suc, ℕ, String, Bool, List,
  Result, guard, not, wrap, is_blank, is_some, length, lookup, unvisited-le-length, is_nil,
  unvisited, Bool-cases, insert, member, Option-cases, unvisited-cons-lt,
}

abbrev HasFuel {ℓ} : {A : Type ℓ} → Result Fault A → Type ℓ
HasFuel r = r ≢ err out_of_fuel

bind-HasFuel {ℓ κ} :
    {A : Type ℓ} {B : Type κ} (m : Result Fault A) (f : A → Result Fault B)
    → HasFuel m
    → ((a : A) → HasFuel (f a))
    → HasFuel (m >>= f)
bind-HasFuel (ok a) f h k = k a
bind-HasFuel (err e) f h k = λ p. h (ground arith)

visit_all-HasFuel :
    (step : List String → String → Result Fault (List String))
    → ((visited : List String) (k : String) → HasFuel (step visited k))
    → (visited ks : List String) → HasFuel (visit_all step visited ks)
unfolding visit_all
visit_all-HasFuel step h visited [] = ground arith
visit_all-HasFuel step h visited (k ∷ ks) =
    bind-HasFuel (step visited k) (λ v. visit_all step v ks) (h visited k)
      (λ v. visit_all-HasFuel step h v ks)

guard-HasFuel : (b : Bool) (e : Fault) → e ≢ out_of_fuel → HasFuel (guard b e)
guard-HasFuel true e h = ground arith
guard-HasFuel false e h = λ p. h (ground arith)

wrap-HasFuel {ℓ} :
    {A : Type ℓ} (f : Fault → Fault) (r : Result Fault A)
    → ((e : Fault) → f e ≢ out_of_fuel)
    → HasFuel (wrap f r)
wrap-HasFuel f (ok a) h = ground arith
wrap-HasFuel f (err e) h = λ p. h e (ground arith)

all_known-HasFuel :
    (known : String → Bool) (owner : String) (ks : List String) → HasFuel (all_known known owner ks)
unfolding all_known
all_known-HasFuel known owner [] = ground arith
all_known-HasFuel known owner (k ∷ ks) =
    bind-HasFuel _ (λ _. all_known known owner ks)
      (guard-HasFuel (known k) (unknown_segment owner k) (ground arith))
      (λ _. all_known-HasFuel known owner ks)

module _ (rt : Runtime) where
  validate_segment-HasFuel : (s : Segment) → HasFuel (validate_segment rt s)
  unfolding validate_segment
  validate_segment-HasFuel s =
      bind-HasFuel _ _ (guard-HasFuel (not (is_blank s.key)) segment_key_required (ground arith))
        (λ _.
          bind-HasFuel _ _
            (wrap-HasFuel (Fault.in_segment s.key) (validate_match_mode s.mode) (λ e. ground arith))
            (λ _.
              bind-HasFuel _ _
                (guard-HasFuel (not (is_nil s.conditions)) (Fault.in_segment s.key no_conditions)
                  (ground arith))
                (λ _.
                  wrap-HasFuel (Fault.in_segment s.key) (validate_conditions rt s.conditions)
                    (λ e. ground arith))))

  build_index-HasFuel :
      (index : List (String × Segment)) (ss : List Segment) → HasFuel (build_index rt index ss)
  unfolding build_index
  build_index-HasFuel index [] = ground arith
  build_index-HasFuel index (s ∷ ss) = bind-HasFuel _ _ (validate_segment-HasFuel s) (λ _.
      bind-HasFuel _ _
        (wrap-HasFuel (Fault.in_segment s.key) (validate_portable_conditions rt s.conditions)
          (λ e. ground arith))
        (λ _.
          bind-HasFuel _ _
            (guard-HasFuel (not (is_some (lookup s.key index))) (duplicate_segment s.key)
              (ground arith))
            (λ _. build_index-HasFuel (insert s.key s index) ss)))

  check_references-HasFuel :
      (index : List (String × Segment)) (ss : List Segment) → HasFuel (check_references rt index ss)
  unfolding check_references
  check_references-HasFuel index [] = ground arith
  check_references-HasFuel index (s ∷ ss) =
      bind-HasFuel _ _
        (all_known-HasFuel (λ k. is_some (lookup k index)) s.key
          (segment_references rt s.conditions))
        (λ _. check_references-HasFuel index ss)

  visit-HasFuel :
      (index : List (String × Segment)) (fuel : ℕ) (visiting visited : List String) (key : String)
      → unvisited index visiting < fuel
      → HasFuel (visit rt index fuel visiting visited key)
  unfolding visit conditions_of segment_references visit_all
  visit-HasFuel index zero visiting visited key h = absurd (omega arith)
  visit-HasFuel index (suc fuel) visiting visited key h = elim (Bool-cases (member visited key)) [
    | inl old ↦ rw (old) (ground arith)
    | inr new ↦ elim (Bool-cases (member visiting key)) [
      | inl cycle ↦ rw (new, cycle) (ground arith)
      | inr fresh ↦ elim (Option-cases (lookup key index)) [
        | inl missing ↦ rw (new, fresh, missing) (ground arith)
        | inr (s, found) ↦
            let less = unvisited-cons-lt index visiting key found fresh in
            rw (new, fresh)
              (bind-HasFuel
                (visit_all (visit rt index fuel (key ∷ visiting)) visited
                  (segment_references rt (conditions_of (lookup key index))))
                (λ v. ok (key ∷ v))
                (visit_all-HasFuel (visit rt index fuel (key ∷ visiting))
                  (λ v k. visit-HasFuel index fuel (key ∷ visiting) v k (omega arith)) visited
                  (segment_references rt (conditions_of (lookup key index))))
                (λ v. ground arith))
      ]
    ]
  ]

-- `ValidateSegmentSet` ends with the model's fuel, for every list of segments and every order of its
-- map, cyclic sets and unknown references included.
pub validate_segment_set-ends :
    (rt : Runtime) (order : List (String × Segment) → List String) (segments : List Segment)
    → validate_segment_set rt order segments ≢ err out_of_fuel
unfolding validate_segment_set
validate_segment_set-ends rt order segments =
    bind-HasFuel _ _ (build_index-HasFuel rt [] segments) (λ index.
      bind-HasFuel _ _ (check_references-HasFuel rt index segments) (λ _.
        bind-HasFuel _ _
          (visit_all-HasFuel (visit rt index (suc (suc (length index))) [])
            (λ v k.
              let enough = unvisited-le-length index [] in
              visit-HasFuel rt index (suc (suc (length index))) [] v k (omega arith))
            [] (order index))
          (λ _. ground arith)))
