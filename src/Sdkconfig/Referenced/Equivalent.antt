-- ===== src/Sdkconfig/Referenced/Equivalent.antt =====
-- `referencedSegments` and `Evaluate` together.
use flagstack.Evaluation.SegmentSet.{conditions_of}
use flagstack.Sdkconfig.Referenced.Agree.{
  match_conditions-cong, conditions-cong, match_segment-agree,
}
use flagstack.Evaluation.Validate.{validate_segment}
use flagstack.Evaluation.Evaluate.{evaluate, evaluate_rules, rule_matches, validate_segments}
use flagstack.Evaluation.Runtime.{Runtime}
use flagstack.Sdkconfig.Referenced.Closed.{is_covered, AreCovered, IsClosed, needed_keys-IsClosed}
use flagstack.Sdkconfig.Referenced.{
  keep_needed, referenced_segments, flag_references, rule_references, needed_keys, references,
}
use flagstack.Evaluation.Matching.{index_segments, match_segment, condition_matches}
use flagstack.Evaluation.Types.{Segment, Context, Rule, EvaluationError, segment_key_required}
use flagstack.Sdkconfig.Types.{Flag}
use flagstack.Evaluation.Types
use flagstack.Common.{
  [], ◌∷◌, ◌==◌, ◌≡◌, inl, inr, true, false, arith, sym, All, String, List, is_blank, is_empty,
  member, Bool-cases, lookup, insert, subst, eq_iff, lookup-insert, ◌++◌, ok, some, refl, suc, Bool,
  Result, >>=-eq-ok, Option-cases, guard, All-append_left, not, All-append_right, length,
  unvisited-le-length, none, All-map,
}

is_empty-is_blank : (s : String) → is_empty s ≡ true → is_blank s ≡ true
unfolding is_blank
is_empty-is_blank String.[] h = refl
is_empty-is_blank (String.◌∷◌ c s) h = cc

dropped :
    (needed : List String) (key k : String)
    → is_blank key ≡ false
    → member needed key ≡ false
    → is_covered needed k ≡ true
    → (key == k) ≡ false
dropped needed key k b m c = elim (Bool-cases (key == k)) [
  | inr different ↦ different
  | inl equal ↦
      let covered = subst (λ j. is_covered needed j ≡ true) (sym ((eq_iff key k).0 equal)) c in
      ground (arith, is_empty-is_blank key)
]

abbrev HasKey : Segment → Type 0
HasKey s = is_blank s.key ≡ false

-- The index of the segments that are kept agrees with the full index on covered keys.
index_segments-agree :
    (needed : List String) (k : String)
    → is_covered needed k ≡ true
    → (segments : List Segment) (index index' : List (String × Segment)) → All HasKey segments
    → lookup k index ≡ lookup k index'
    → lookup k (index_segments index segments)
      ≡ lookup k (index_segments index' (keep_needed needed segments))
unfolding index_segments keep_needed
index_segments-agree needed k c [] index index' b h = h
index_segments-agree needed k c (s ∷ ss) index index' (b, bs) h =
    elim (Bool-cases (member needed s.key)) [
      | inl kept ↦
          rw (kept, index_segments)
            (index_segments-agree needed k c ss (insert s.key s index) (insert s.key s index') bs
              (rw (lookup-insert s.key k s index, lookup-insert s.key k s index', h)))
      | inr gone ↦
          let other = dropped needed s.key k b gone c in
          rw (gone) (
            index_segments-agree needed k c ss (insert s.key s index) index' bs
              (rw (lookup-insert s.key k s index, other) h))
    ]

index_segments-HasKey :
    (k : String) (s : Segment) (segments : List Segment) (index : List (String × Segment))
    → All HasKey segments
    → ((t : Segment) → lookup k index ≡ some t → is_blank k ≡ false)
    → lookup k (index_segments index segments) ≡ some s
    → is_blank k ≡ false
unfolding index_segments
index_segments-HasKey k s [] index b h found = h s found
index_segments-HasKey k s (t ∷ ts) index (b, bs) h found =
    index_segments-HasKey k s ts (insert t.key t index) bs
      (λ u e. elim (Bool-cases (t.key == k)) [
        | inl equal ↦ subst (λ j. is_blank j ≡ false) ((eq_iff t.key k).0 equal) b
        | inr other ↦ h u (rw (lookup-insert t.key k t index, other) at e)
      ])
      found

none-ne-some {ℓ} : {A : Type ℓ} {a : A} → none ≡ some a → ⊥
none-ne-some h = cc

some-inj {ℓ} : {A : Type ℓ} {a b : A} → some a ≡ some b → a ≡ b
some-inj h = ground arith

module _ (rt : Runtime) where
  validate_segments-HasKey : (ss : List Segment) → validate_segments rt ss ≡ ok tt → All HasKey ss
  unfolding validate_segments validate_segment
  validate_segments-HasKey [] h = tt
  validate_segments-HasKey (s ∷ ss) h =
      let (u, first, rest) = >>=-eq-ok (validate_segment rt s) _ h in
      let (v, blank, more) =
        >>=-eq-ok (guard (not (is_blank s.key)) segment_key_required) _ first in
      (ground arith, validate_segments-HasKey ss rest)

  validate_segments-keep_needed :
      (needed : List String) (ss : List Segment)
      → validate_segments rt ss ≡ ok tt
      → validate_segments rt (keep_needed needed ss) ≡ ok tt
  unfolding validate_segments keep_needed
  validate_segments-keep_needed needed [] h = refl
  validate_segments-keep_needed needed (s ∷ ss) h =
      let (u, first, rest) = >>=-eq-ok (validate_segment rt s) _ h in
      ground (arith, validate_segments-keep_needed needed ss rest)

  evaluate_rules-cong :
      (matches matches' : Rule → Result EvaluationError Bool) (flag : Types.Flag) (ctx : Context)
      (rules : List Rule)
      → All (λ r. matches r ≡ matches' r) rules
      → evaluate_rules rt matches flag ctx rules ≡ evaluate_rules rt matches' flag ctx rules
  unfolding evaluate_rules
  evaluate_rules-cong matches matches' flag ctx [] h = refl
  evaluate_rules-cong matches matches' flag ctx (r ∷ rs) (e, es) =
      rw (e, evaluate_rules-cong matches matches' flag ctx rs es)

  rules-covered :
      (needed : List String) (rules : List Rule)
      → AreCovered needed (rule_references rt rules)
      → All (λ r. AreCovered needed (references rt r.conditions)) rules
  unfolding rule_references
  rules-covered needed [] h = tt
  rules-covered needed (r ∷ rs) h =
      let Covered = λ (k : String). is_covered needed k ≡ true in
      (
        All-append_left Covered (references rt r.conditions) (rule_references rt rs) h,
        rules-covered needed rs
            (All-append_right Covered (references rt r.conditions) (rule_references rt rs) h),
      )

  flag-covered :
      (needed : List String) (before : List Flag) (f : Flag) (after : List Flag)
      → AreCovered needed (flag_references rt (before ++ f ∷ after))
      → AreCovered needed (rule_references rt f.policy.rules)
  unfolding flag_references
  flag-covered needed [] f after h =
      All-append_left (λ k. is_covered needed k ≡ true) (rule_references rt f.policy.rules)
        (flag_references rt after) h
  flag-covered needed (g ∷ gs) f after h = flag-covered needed gs f after (
      All-append_right (λ k. is_covered needed k ≡ true) (rule_references rt g.policy.rules)
        (flag_references rt (gs ++ f ∷ after)) h)

  segment-covered :
      (needed : List String) (segments : List Segment)
      → All HasKey segments
      → IsClosed rt (index_segments [] segments) needed
      → (k : String) (s : Segment) → is_covered needed k ≡ true
      → lookup k (index_segments [] segments) ≡ some s
      → AreCovered needed (references rt s.conditions)
  unfolding lookup
  segment-covered needed segments keys closed k s c found =
      let key = index_segments-HasKey k s segments [] keys (λ t e. absurd (none-ne-some e)) found in
      let collected : member needed k ≡ true = ground (arith, is_empty-is_blank k) in
      subst (λ o. AreCovered needed (references rt (conditions_of o))) found (closed k collected)

  rule_matches-agree :
      (needed : List String) (segments : List Segment) (ctx : Context) (r : Rule)
      → All HasKey segments
      → IsClosed rt (index_segments [] segments) needed
      → AreCovered needed (references rt r.conditions)
      → rule_matches rt ctx segments r ≡ rule_matches rt ctx (keep_needed needed segments) r
  unfolding rule_matches
  rule_matches-agree needed segments ctx r keys closed covered =
      let index = index_segments [] segments in
      let index' = index_segments [] (keep_needed needed segments) in
      let test = match_segment rt ctx index (suc (length index)) [] in
      let test' = match_segment rt ctx index' (suc (length index')) [] in
      let enough = unvisited-le-length index [] in
      let enough' = unvisited-le-length index' [] in
      match_conditions-cong (condition_matches rt ctx test) (condition_matches rt ctx test') r.mode
        r.conditions
        (conditions-cong rt needed ctx test test' r.conditions covered (λ k c.
          match_segment-agree rt needed index index' ctx
            (λ j d. index_segments-agree needed j d segments [] [] keys refl)
            (λ j s d found. segment-covered needed segments keys closed j s d found)
            (suc (length index)) (suc (length index')) [] k c (omega arith) (omega arith)))

  evaluate-keep_needed :
      (needed : List String) (segments : List Segment) (flag : Types.Flag) (ctx : Context)
      → validate_segments rt segments ≡ ok tt
      → IsClosed rt (index_segments [] segments) needed
      → AreCovered needed (rule_references rt flag.policy.rules)
      → evaluate rt flag ctx (keep_needed needed segments) ≡ evaluate rt flag ctx segments
  unfolding evaluate
  evaluate-keep_needed needed segments flag ctx valid closed covered =
      let keys = validate_segments-HasKey segments valid in
      let kept = keep_needed needed segments in
      rw (
        valid,
        validate_segments-keep_needed needed segments valid,
        evaluate_rules-cong (rule_matches rt ctx kept) (rule_matches rt ctx segments) flag ctx
            flag.policy.rules
            (All-map flag.policy.rules
              (λ r c. sym (rule_matches-agree needed segments ctx r keys closed c))
              (rules-covered needed flag.policy.rules covered)),
      )

-- An SDK that gets only the segments that `referencedSegments` keeps for a configuration with the
-- flag f evaluates a flag of f's policy as the server does with all segments, on every context and
-- on every path, errors included, where the segments are valid one by one.
pub referenced_segments-equivalent :
    (rt : Runtime) (before : List Flag) (f : Flag) (after : List Flag)
    (segments kept : List Segment) (flag : Types.Flag) (ctx : Context)
    → flag.policy ≡ f.policy
    → validate_segments rt segments ≡ ok tt
    → referenced_segments rt (before ++ f ∷ after) segments ≡ some kept
    → evaluate rt flag ctx kept ≡ evaluate rt flag ctx segments
unfolding referenced_segments evaluate
referenced_segments-equivalent rt before f after segments kept flag ctx same valid h =
    elim (Option-cases (needed_keys rt (before ++ f ∷ after) segments)) [
      | inl failed ↦ absurd (none-ne-some (rw failed at h))
      | inr (needed, found) ↦
          let (covered, closed) =
            needed_keys-IsClosed rt (before ++ f ∷ after) segments needed found in
          let rules =
            subst (λ p. AreCovered needed (rule_references rt p.rules)) (sym same)
              (flag-covered rt needed before f after covered) in
          subst (λ ss. evaluate rt flag ctx ss ≡ evaluate rt flag ctx segments)
            (some-inj (rw found at h))
            (evaluate-keep_needed rt needed segments flag ctx valid closed rules)
    ]
