-- ===== src/Sdkconfig/Referenced/Agree.antt =====
-- `matchSegment` with two indexes of segments.
use flagstack.Sdkconfig.Referenced.Closed.{AreCovered, is_covered}
use flagstack.Sdkconfig.Referenced.{
  references, unmarshal_string, reference, key_list, first_text, only_text,
}
use flagstack.Evaluation.Decode.{decode_raw, first_value, only_value}
use flagstack.Evaluation.Types.{
  EvaluationError, Condition, Operator, Context, MatchMode, Segment, Value, match_any, in_segment,
  not_in_segment, str,
}
use flagstack.Evaluation.Matching.{
  match_all_of, match_any_of, match_conditions, condition_matches, match_segment, segment_condition,
  as_parse_failure, as_string, condition_with, segment_key,
}
use flagstack.Common.{
  [], ◌∷◌, ◌<◌, ◌≡◌, inl, inr, ok, err, some, none, true, arith, ◌>>=◌, refl, sym, ◌∙◌, zero, suc,
  All, ℕ, String, Bool, List, Option, Result, lookup, subst, unvisited, All-append_left,
  Option-cases, All-append_right, Bool-cases, member, unvisited-cons-lt,
}
use flagstack.Evaluation.Runtime.{Next, eof, syntax_error, Runtime}

match_any_of-cong :
    (test test' : Condition → Result EvaluationError Bool) (cs : List Condition)
    → All (λ c. test c ≡ test' c) cs
    → match_any_of test cs ≡ match_any_of test' cs
unfolding match_any_of
match_any_of-cong test test' [] h = refl
match_any_of-cong test test' (c ∷ cs) (e, es) = rw (e, match_any_of-cong test test' cs es)

match_all_of-cong :
    (test test' : Condition → Result EvaluationError Bool) (cs : List Condition)
    → All (λ c. test c ≡ test' c) cs
    → match_all_of test cs ≡ match_all_of test' cs
unfolding match_all_of
match_all_of-cong test test' [] h = refl
match_all_of-cong test test' (c ∷ cs) (e, es) = rw (e, match_all_of-cong test test' cs es)

pub match_conditions-cong :
    (test test' : Condition → Result EvaluationError Bool) (mode : MatchMode) (cs : List Condition)
    → All (λ c. test c ≡ test' c) cs
    → match_conditions test mode cs ≡ match_conditions test' mode cs
unfolding match_conditions
match_conditions-cong test test' match_any cs h = match_any_of-cong test test' cs h
match_conditions-cong test test' _ cs h = match_all_of-cong test test' cs h

bind-cong {ℓ κ} :
    {A : Type ℓ} {B : Type κ} (m : Result EvaluationError A) (f g : A → Result EvaluationError B)
    → ((a : A) → m ≡ ok a → f a ≡ g a)
    → (m >>= f) ≡ (m >>= g)
bind-cong (ok a) f g h = h a refl
bind-cong (err e) f g h = refl

module _ (rt : Runtime) where
  only_value-text :
      (v w : Value) (n : Next) (key : String)
      → only_value rt v n ≡ ok w
      → as_string w ≡ some key
      → only_text v n ≡ some key
  only_value-text (str s) w eof key h e = ground arith
  only_value-text v w eof key h e = ground arith
  only_value-text v w syntax_error key h e = cc
  only_value-text v w (Next.value u rest) key h e = cc

  first_value-text :
      (n : Next) (v : Value) (key : String)
      → first_value rt n ≡ ok v
      → as_string v ≡ some key
      → first_text rt n ≡ some key
  first_value-text eof v key h e = cc
  first_value-text syntax_error v key h e = cc
  first_value-text (Next.value u rest) v key h e = only_value-text u v (rt.next_value rest) key h e

  -- Where the evaluator decodes a string, so does `referencedSegments`.
  decode_raw-unmarshal :
      (raw key : String) (v : Value)
      → decode_raw rt raw ≡ ok v
      → as_string v ≡ some key
      → unmarshal_string rt raw ≡ some key
  unfolding decode_raw unmarshal_string
  decode_raw-unmarshal raw key v h e = first_value-text (rt.next_value raw) v key (ground arith) e

  segment_condition-cong :
      (test test' : String → Result EvaluationError Bool) (c : Condition)
      → ((key : String) → unmarshal_string rt c.value ≡ some key → test key ≡ test' key)
      → segment_condition rt test c ≡ segment_condition rt test' c
  unfolding segment_condition
  segment_condition-cong test test' c h =
      bind-cong (as_parse_failure (decode_raw rt c.value)) _ _ (λ v decoded.
        bind-cong (segment_key (as_string v)) test test'
          (λ key found. h key (decode_raw-unmarshal c.value key v (ground arith) (ground arith))))

  condition_with-cong :
      (op : Operator) (ctx : Context) (test test' : String → Result EvaluationError Bool)
      (c : Condition)
      → ((key : String) → reference rt op c ≡ some key → test key ≡ test' key)
      → condition_with rt op ctx test c ≡ condition_with rt op ctx test' c
  condition_with-cong in_segment ctx test test' c h = segment_condition-cong test test' c h
  condition_with-cong not_in_segment ctx test test' c h = rw (segment_condition-cong test test' c h)
  condition_with-cong _ ctx test test' c h = refl

  condition_matches-cong :
      (ctx : Context) (test test' : String → Result EvaluationError Bool) (c : Condition)
      → ((key : String) → reference rt c.operator c ≡ some key → test key ≡ test' key)
      → condition_matches rt ctx test c ≡ condition_matches rt ctx test' c
  unfolding condition_matches
  condition_matches-cong ctx test test' c h = condition_with-cong c.operator ctx test test' c h

  pub conditions-cong :
      (needed : List String) (ctx : Context) (test test' : String → Result EvaluationError Bool)
      (cs : List Condition)
      → AreCovered needed (references rt cs)
      → ((key : String) → is_covered needed key ≡ true → test key ≡ test' key)
      → All (λ c. condition_matches rt ctx test c ≡ condition_matches rt ctx test' c) cs
  unfolding references
  conditions-cong needed ctx test test' [] h same = tt
  conditions-cong needed ctx test test' (c ∷ cs) h same =
      let o = reference rt c.operator c in
      let Covered = λ (k : String). is_covered needed k ≡ true in
      (
        condition_matches-cong ctx test test' c (λ key e.
            same key (listed key o e (All-append_left Covered (key_list o) (references rt cs) h))),
        conditions-cong needed ctx test test' cs
            (All-append_right Covered (key_list o) (references rt cs) h) same,
      )
    where
      listed :
          (key : String) (o : Option String)
          → o ≡ some key
          → AreCovered needed (key_list o)
          → is_covered needed key ≡ true
      listed key none e h = cc
      listed key (some k) e h =
          let same : k ≡ key = ground arith in subst (λ j. is_covered needed j ≡ true) same h.0

  -- Two indexes that agree on covered keys match a covered key alike, each with enough fuel.
  pub match_segment-agree :
      (needed : List String) (index index' : List (String × Segment)) (ctx : Context)
      → ((k : String) → is_covered needed k ≡ true → lookup k index ≡ lookup k index')
      → ((k : String) (s : Segment)
          → is_covered needed k ≡ true
          → lookup k index ≡ some s
          → AreCovered needed (references rt s.conditions))
      → (fuel fuel' : ℕ) (visiting : List String) (key : String) → is_covered needed key ≡ true
      → unvisited index visiting < fuel
      → unvisited index' visiting < fuel'
      → match_segment rt ctx index fuel visiting key
        ≡ match_segment rt ctx index' fuel' visiting key
  unfolding match_segment
  match_segment-agree needed index index' ctx same closed zero fuel' visiting key c p q =
      absurd (omega arith)
  match_segment-agree needed index index' ctx same closed (suc fuel) zero visiting key c p q =
      absurd (omega arith)
  match_segment-agree needed index index' ctx same closed (suc fuel) (suc fuel') visiting key c p
        q =
      elim (Option-cases (lookup key index)) [
        | inl missing ↦ rw (missing, sym (same key c) ∙ missing, match_segment)
        | inr (s, found) ↦ elim (Bool-cases (member visiting key)) [
          | inl cycle ↦ rw (found, sym (same key c) ∙ found, match_segment, cycle)
          | inr new ↦
              let less = unvisited-cons-lt index visiting key found new in
              let less' = unvisited-cons-lt index' visiting key (sym (same key c) ∙ found) new in
              let inner = match_segment rt ctx index fuel (key ∷ visiting) in
              let inner' = match_segment rt ctx index' fuel' (key ∷ visiting) in
              rw (found, sym (same key c) ∙ found, match_segment, new)
                (match_conditions-cong (condition_matches rt ctx inner)
                  (condition_matches rt ctx inner') s.mode s.conditions
                  (conditions-cong needed ctx inner inner' s.conditions (closed key s c found)
                    (λ k h.
                      match_segment-agree needed index index' ctx same closed fuel fuel'
                        (key ∷ visiting) k h (omega arith) (omega arith))))
        ]
      ]
