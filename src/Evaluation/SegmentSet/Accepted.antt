-- ===== src/Evaluation/SegmentSet/Accepted.antt =====
-- `validateCondition` and `conditionMatches`: the conditions of a validated segment.
use flagstack.Evaluation.Values.{context_value}
use flagstack.Evaluation.SegmentSet.{
  decoded_reference, reference_key, reference_with, segment_references,
}
use flagstack.Evaluation.Decode.{decode_raw}
use flagstack.Evaluation.Validate.{
  regex_value, validate_comparison, operand, validate_reference, reference_text,
  validate_conditions, validate_with, validate_condition,
}
use flagstack.Evaluation.Matching.{
  match_all_of, match_any_of, match_conditions, compare_values, segment_condition, compare_present,
  on_strings, as_parse_failure, as_string, regex_result, condition_matches, condition_with,
  segment_key,
}
use flagstack.Evaluation.Types.{
  EvaluationError, Condition, Operator, Value, Context, MatchMode, match_any, matches_regex,
  segment_reference, attribute_required, in_segment, condition_value, not_in_segment, exists,
  not_exists,
}
use flagstack.Common.{
  [], ◌∷◌, ◌≡◌, ◌≢◌, ok, err, some, none, arith, ◌>>=◌, refl, All, String, Bool, List, Option,
  Result, false, >>=-eq-ok, guard, wrap, not, is_blank, wrap-eq-ok, All-append_left,
  All-append_right,
}
use flagstack.Evaluation.Runtime.{MatchesCompiled, Runtime}

abbrev pub NeverFails {ℓ} : {A : Type ℓ} → Result EvaluationError A → Type ℓ
NeverFails r = (e : EvaluationError) → r ≢ err e

pub bind-NeverFails {ℓ κ} :
    {A : Type ℓ} {B : Type κ} (m : Result EvaluationError A) (f : A → Result EvaluationError B)
    → NeverFails m
    → ((a : A) → m ≡ ok a → NeverFails (f a))
    → NeverFails (m >>= f)
bind-NeverFails (ok a) f h k = k a refl
bind-NeverFails (err e) f h k = λ e' p. h e' (ground arith)

match_any_of-NeverFails :
    (test : Condition → Result EvaluationError Bool) (cs : List Condition)
    → All (λ c. NeverFails (test c)) cs
    → NeverFails (match_any_of test cs)
unfolding match_any_of
match_any_of-NeverFails test [] h e = ground arith
match_any_of-NeverFails test (c ∷ cs) (here, later) e =
    ground (arith, here e, match_any_of-NeverFails test cs later e)

match_all_of-NeverFails :
    (test : Condition → Result EvaluationError Bool) (cs : List Condition)
    → All (λ c. NeverFails (test c)) cs
    → NeverFails (match_all_of test cs)
unfolding match_all_of
match_all_of-NeverFails test [] h e = ground arith
match_all_of-NeverFails test (c ∷ cs) (here, later) e =
    ground (arith, here e, match_all_of-NeverFails test cs later e)

pub match_conditions-NeverFails :
    (test : Condition → Result EvaluationError Bool) (mode : MatchMode) (cs : List Condition)
    → All (λ c. NeverFails (test c)) cs
    → NeverFails (match_conditions test mode cs)
unfolding match_conditions
match_conditions-NeverFails test match_any cs h = match_any_of-NeverFails test cs h
match_conditions-NeverFails test _ cs h = match_all_of-NeverFails test cs h

module _ (rt : Runtime) (compiled : MatchesCompiled rt) where
  regex-NeverFails :
      (a o : Option String)
      → regex_value rt o ≡ ok tt
      → NeverFails (on_strings a o (λ s p. regex_result p (rt.match_string p s)))
  regex-NeverFails (some s) (some p) h e =
      let (b, found) = compiled p s (ground arith) in rw found (ground arith)
  regex-NeverFails none o h e = ground arith
  regex-NeverFails (some s) none h e = ground arith

  compare_values-NeverFails :
      (op : Operator) (actual expected : Value)
      → operand rt op expected ≡ ok tt
      → NeverFails (compare_values rt op actual expected)
  unfolding compare_values operand
  compare_values-NeverFails matches_regex actual expected h =
      regex-NeverFails (as_string actual) (as_string expected) h
  compare_values-NeverFails op actual expected h = λ e. ground arith

  decoded-NeverFails :
      (raw : String) {v : Value}
      → decode_raw rt raw ≡ ok v
      → NeverFails (as_parse_failure (decode_raw rt raw))
  decoded-NeverFails raw h e = rw h (ground arith)

  reference_text-NeverFails :
      (test : String → Result EvaluationError Bool) (o : Option String)
      → reference_text o ≡ ok tt
      → All (λ k. NeverFails (test k)) (reference_key o)
      → NeverFails (segment_key o >>= test)
  reference_text-NeverFails test none h refs e = ground arith
  reference_text-NeverFails test (some s) h refs e =
      let text : is_blank s ≡ false = ground arith in (rw text at refs).0 e

  segment_condition-NeverFails :
      (test : String → Result EvaluationError Bool) (c : Condition)
      → validate_reference rt c ≡ ok tt
      → All (λ k. NeverFails (test k)) (decoded_reference (decode_raw rt c.value))
      → NeverFails (segment_condition rt test c)
  unfolding segment_condition validate_reference
  segment_condition-NeverFails test c h refs =
      let (v, wrapped, text) = >>=-eq-ok (wrap segment_reference (decode_raw rt c.value)) _ h in
      let decoded = wrap-eq-ok segment_reference (decode_raw rt c.value) wrapped in
      rw decoded (reference_text-NeverFails test (as_string v) text (rw decoded at refs))

  compare_present-NeverFails :
      (c : Condition) (o : Option Value)
      → validate_comparison rt c ≡ ok tt
      → NeverFails (compare_present rt c o)
  unfolding validate_comparison
  compare_present-NeverFails c none h = λ e. ground arith
  compare_present-NeverFails c (some actual) h =
      let (_, _, h1) = >>=-eq-ok (guard (not (is_blank c.attribute)) attribute_required) _ h in
      let (v, wrapped, valid) = >>=-eq-ok (wrap condition_value (decode_raw rt c.value)) _ h1 in
      let decoded = wrap-eq-ok condition_value (decode_raw rt c.value) wrapped in
      rw decoded (compare_values-NeverFails c.operator actual v valid)

  condition_with-NeverFails :
      (op : Operator) (ctx : Context) (test : String → Result EvaluationError Bool) (c : Condition)
      → validate_with rt op c ≡ ok tt
      → All (λ k. NeverFails (test k)) (reference_with rt op c)
      → NeverFails (condition_with rt op ctx test c)
  condition_with-NeverFails in_segment ctx test c h refs =
      segment_condition-NeverFails test c h refs
  condition_with-NeverFails not_in_segment ctx test c h refs =
      bind-NeverFails (segment_condition rt test c) _ (segment_condition-NeverFails test c h refs)
        (λ b _ e. ground arith)
  condition_with-NeverFails exists ctx test c h refs = λ e. ground arith
  condition_with-NeverFails not_exists ctx test c h refs = λ e. ground arith
  condition_with-NeverFails _ ctx test c h refs =
      compare_present-NeverFails c (context_value ctx c.attribute) h

  pub condition_matches-NeverFails :
      (ctx : Context) (test : String → Result EvaluationError Bool) (c : Condition)
      → validate_condition rt c ≡ ok tt
      → All (λ k. NeverFails (test k)) (reference_with rt c.operator c)
      → NeverFails (condition_matches rt ctx test c)
  unfolding condition_matches validate_condition
  condition_matches-NeverFails ctx test c h refs =
      condition_with-NeverFails c.operator ctx test c h refs

  pub conditions-NeverFail :
      (ctx : Context) (test : String → Result EvaluationError Bool) (cs : List Condition)
      → validate_conditions rt cs ≡ ok tt
      → All (λ k. NeverFails (test k)) (segment_references rt cs)
      → All (λ c. NeverFails (condition_matches rt ctx test c)) cs
  unfolding validate_conditions segment_references
  conditions-NeverFail ctx test [] h refs = tt
  conditions-NeverFail ctx test (c ∷ cs) h refs =
      let here = reference_with rt c.operator c in
      let (_, first, rest) = >>=-eq-ok (validate_condition rt c) _ h in
      (
        condition_matches-NeverFails ctx test c (ground arith)
            (All-append_left (λ k. NeverFails (test k)) here (segment_references rt cs) refs),
        conditions-NeverFail ctx test cs rest
            (All-append_right (λ k. NeverFails (test k)) here (segment_references rt cs) refs),
      )
