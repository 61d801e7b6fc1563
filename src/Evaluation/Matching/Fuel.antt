-- ===== src/Evaluation/Matching/Fuel.antt =====
-- `matchSegment` of backend/internal/evaluation/evaluation.go: how deep its calls nest.
use flagstack.Evaluation.Values.{context_value}
use flagstack.Evaluation.Evaluate.{rule_matches}
use flagstack.Evaluation.Decode.{decode_raw, first_value}
use flagstack.Evaluation.Runtime.{Runtime, Next, eof, syntax_error}
use flagstack.Evaluation.Matching.{
  match_all_of, match_any_of, match_conditions, parse_failure, compare_values, condition_matches,
  match_segment, segment_condition, as_parse_failure, compare_present, condition_with, segment_key,
  as_string, index_segments,
}
use flagstack.Common.{
  [], ◌∷◌, ◌<◌, ◌≢◌, err, arith, zero, suc, ℕ, String, Bool, List, Result, unvisited,
  unvisited-cons-lt, inl, inr, ok, some, none, ◌>>=◌, Option, Option-cases, lookup, Bool-cases,
  member, unvisited-le-length, length,
}
use flagstack.Evaluation.Types.{
  EvaluationError, equals, match_any, Rule, in_segment, not_in_segment, exists, not_exists,
  Condition, out_of_fuel, Context, MatchMode, Operator, Segment, Value, Fault,
}

-- Whatever else a result is, it is not the model's lack of fuel.
abbrev pub HasFuel {ℓ} : {A : Type ℓ} → Result EvaluationError A → Type ℓ
HasFuel r = r ≢ err (parse_failure out_of_fuel)

bind-HasFuel {ℓ κ} :
    {A : Type ℓ} {B : Type κ} (m : Result EvaluationError A) (f : A → Result EvaluationError B)
    → HasFuel m
    → ((a : A) → HasFuel (f a))
    → HasFuel (m >>= f)
bind-HasFuel (ok a) f h k = k a
bind-HasFuel (err e) f h k = λ p. h (ground arith)

as_parse_failure-HasFuel {ℓ} :
    {A : Type ℓ} (r : Result Fault A) → r ≢ err out_of_fuel → HasFuel (as_parse_failure r)
as_parse_failure-HasFuel (ok a) h = ground arith
as_parse_failure-HasFuel (err e) h = λ p. h (ground arith)

segment_key-HasFuel : (o : Option String) → HasFuel (segment_key o)
segment_key-HasFuel none = ground arith
segment_key-HasFuel (some s) = ground arith

match_any_of-HasFuel :
    (test : Condition → Result EvaluationError Bool)
    → ((c : Condition) → HasFuel (test c))
    → (cs : List Condition) → HasFuel (match_any_of test cs)
unfolding match_any_of
match_any_of-HasFuel test h [] = ground arith
match_any_of-HasFuel test h (c ∷ cs) = ground (arith, h c, match_any_of-HasFuel test h cs)

match_all_of-HasFuel :
    (test : Condition → Result EvaluationError Bool)
    → ((c : Condition) → HasFuel (test c))
    → (cs : List Condition) → HasFuel (match_all_of test cs)
unfolding match_all_of
match_all_of-HasFuel test h [] = ground arith
match_all_of-HasFuel test h (c ∷ cs) = ground (arith, h c, match_all_of-HasFuel test h cs)

pub match_conditions-HasFuel :
    (test : Condition → Result EvaluationError Bool) (mode : MatchMode)
    → ((c : Condition) → HasFuel (test c))
    → (cs : List Condition) → HasFuel (match_conditions test mode cs)
unfolding match_conditions
match_conditions-HasFuel test match_any h cs = match_any_of-HasFuel test h cs
match_conditions-HasFuel test _ h cs = match_all_of-HasFuel test h cs

module _ (rt : Runtime) where
  first_value-HasFuel : (n : Next) → first_value rt n ≢ err out_of_fuel
  first_value-HasFuel eof = ground arith
  first_value-HasFuel syntax_error = ground arith
  first_value-HasFuel (Next.value v rest) = ground arith

  decode_raw-HasFuel : (raw : String) → decode_raw rt raw ≢ err out_of_fuel
  unfolding decode_raw
  decode_raw-HasFuel raw = ground (arith, first_value-HasFuel (rt.next_value raw))

  compare_values-HasFuel :
      (op : Operator) (actual expected : Value) → HasFuel (compare_values rt op actual expected)
  unfolding compare_values
  compare_values-HasFuel equals actual expected = ground arith
  compare_values-HasFuel _ actual expected = ground arith

  segment_condition-HasFuel :
      (test : String → Result EvaluationError Bool)
      → ((k : String) → HasFuel (test k))
      → (c : Condition) → HasFuel (segment_condition rt test c)
  unfolding segment_condition
  segment_condition-HasFuel test h c =
      bind-HasFuel (as_parse_failure (decode_raw rt c.value)) _
        (as_parse_failure-HasFuel (decode_raw rt c.value) (decode_raw-HasFuel c.value))
        (λ v. bind-HasFuel (segment_key (as_string v)) test (segment_key-HasFuel (as_string v)) h)

  compare_present-HasFuel : (c : Condition) (o : Option Value) → HasFuel (compare_present rt c o)
  compare_present-HasFuel c none = ground arith
  compare_present-HasFuel c (some actual) =
      bind-HasFuel (as_parse_failure (decode_raw rt c.value)) _
        (as_parse_failure-HasFuel (decode_raw rt c.value) (decode_raw-HasFuel c.value))
        (λ expected. compare_values-HasFuel c.operator actual expected)

  condition_with-HasFuel :
      (op : Operator) (ctx : Context) (test : String → Result EvaluationError Bool)
      → ((k : String) → HasFuel (test k))
      → (c : Condition) → HasFuel (condition_with rt op ctx test c)
  condition_with-HasFuel in_segment ctx test h c = segment_condition-HasFuel test h c
  condition_with-HasFuel not_in_segment ctx test h c =
      bind-HasFuel (segment_condition rt test c) _ (segment_condition-HasFuel test h c)
        (λ b. ground arith)
  condition_with-HasFuel exists ctx test h c = ground arith
  condition_with-HasFuel not_exists ctx test h c = ground arith
  condition_with-HasFuel _ ctx test h c = compare_present-HasFuel c (context_value ctx c.attribute)

  pub condition_matches-HasFuel :
      (ctx : Context) (test : String → Result EvaluationError Bool)
      → ((k : String) → HasFuel (test k))
      → (c : Condition) → HasFuel (condition_matches rt ctx test c)
  unfolding condition_matches
  condition_matches-HasFuel ctx test h c = condition_with-HasFuel c.operator ctx test h c

  match_segment-HasFuel :
      (ctx : Context) (index : List (String × Segment)) (fuel : ℕ) (visiting : List String)
      (key : String)
      → unvisited index visiting < fuel
      → HasFuel (match_segment rt ctx index fuel visiting key)
  unfolding match_segment
  match_segment-HasFuel ctx index zero visiting key h = elim h [ ]
  match_segment-HasFuel ctx index (suc fuel) visiting key h =
      elim (Option-cases (lookup key index)) [
        | inl missing ↦ rw (missing, match_segment) (ground arith)
        | inr (s, found) ↦ elim (Bool-cases (member visiting key)) [
          | inl cycle ↦ rw (found, match_segment, cycle) (ground arith)
          | inr new ↦
              let less = unvisited-cons-lt index visiting key found new in
              let next = match_segment rt ctx index fuel (key ∷ visiting) in
              rw (found, match_segment, new)
                (match_conditions-HasFuel (condition_matches rt ctx next) s.mode
                  (condition_matches-HasFuel ctx next
                    (λ k. match_segment-HasFuel ctx index fuel (key ∷ visiting) k (omega arith)))
                  s.conditions)
        ]
      ]

-- With the fuel that `Evaluate` is modelled with, the matching of a rule ends: for every context,
-- and for every list of segments, cyclic ones and ones with unknown references included.
pub rule_matches-ends :
    (rt : Runtime) (ctx : Context) (segments : List Segment) (rule : Rule)
    → rule_matches rt ctx segments rule ≢ err (parse_failure out_of_fuel)
unfolding rule_matches
rule_matches-ends rt ctx segments rule =
    let index = index_segments [] segments in
    let enough = unvisited-le-length index [] in
    let next = match_segment rt ctx index (suc (length index)) [] in
    match_conditions-HasFuel (condition_matches rt ctx next) rule.mode
      (condition_matches-HasFuel rt ctx next
        (λ k. match_segment-HasFuel rt ctx index (suc (length index)) [] k (omega arith)))
      rule.conditions
