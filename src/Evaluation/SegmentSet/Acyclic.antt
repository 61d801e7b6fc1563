-- ===== src/Evaluation/SegmentSet/Acyclic.antt =====
-- `ValidateSegmentSet` and the matching of segments: references and cycles.
use flagstack.Evaluation.SegmentSet.{
  segment_references, build_index, validate_segment_set, validate_portable_conditions,
  check_references, visit, visit_all,
}
use flagstack.Evaluation.SegmentSet.Accepted.{
  NeverFails, match_conditions-NeverFails, conditions-NeverFail,
}
use flagstack.Evaluation.SegmentSet.Order.{IsLayered, refs, visit_all-Extends, visit-Extends}
use flagstack.Evaluation.Matching.{match_segment, condition_matches, index_segments}
use flagstack.Evaluation.Validate.{validate_conditions, validate_match_mode, validate_segment}
use flagstack.Evaluation.Types.{
  Segment, Context, segment_key_required, no_conditions, Fault, duplicate_segment,
}
use flagstack.Common.{
  [], ◌∷◌, ◌==◌, ◌<◌, ◌≡◌, inl, inr, ok, some, true, false, arith, zero, suc, All, ℕ, String, List,
  member, Bool-cases, is_some, lookup, eq_iff, subst, unvisited, Option-cases, unvisited-cons-lt,
  All-map, sym, length, insert, lookup-insert, >>=-eq-ok, guard, not, is_blank, wrap, is_nil,
  wrap-eq-ok, refl, unvisited-le-length,
}
use flagstack.Evaluation.Runtime.{MatchesCompiled, Runtime}

abbrev pub IsValidIndex : Runtime → List (String × Segment) → Type 0
IsValidIndex rt index =
    (k : String) (s : Segment)
    → lookup k index ≡ some s
    → validate_conditions rt s.conditions ≡ ok tt

-- The order of `range index` runs through every key.
abbrev pub Covers : (List (String × Segment) → List String) → Type 0
Covers order =
    (index : List (String × Segment)) (k : String)
    → is_some (lookup k index) ≡ true
    → member (order index) k ≡ true

All-member :
    (P : String → Type 0) (ks : List String) (k : String) → All P ks → member ks k ≡ true → P k
All-member P (j ∷ ks) k (p, h) m = elim (Bool-cases (j == k)) [
  | inl e ↦ subst P ((eq_iff j k).0 e) p
  | inr e ↦ All-member P ks k h (ground arith)
]
All-member P [] k h m = cc

module _ (rt : Runtime) (compiled : MatchesCompiled rt) (ctx : Context)
    (index : List (String × Segment)) (valid : IsValidIndex rt index) where
  abbrev Disjoint : List String → List String → Type 0
  Disjoint layers visiting = (k : String) → member layers k ≡ true → member visiting k ≡ false

  Disjoint-below :
      (rest visiting : List String) (key : String)
      → member rest key ≡ false
      → Disjoint (key ∷ rest) visiting
      → Disjoint rest (key ∷ visiting)
  Disjoint-below rest visiting key fresh apart k m = ground (arith, apart k, eq_iff key k)

  match_layers :
      (layers : List String) (fuel : ℕ) (visiting : List String) (key : String)
      → IsLayered rt index layers
      → member layers key ≡ true
      → Disjoint layers visiting
      → unvisited index visiting < fuel
      → NeverFails (match_segment rt ctx index fuel visiting key)
  unfolding match_segment
  match_layers [] fuel visiting key l m apart enough = cc
  match_layers (k ∷ rest) zero visiting key l m apart enough = absurd (omega arith)
  match_layers (k ∷ rest) (suc fuel) visiting key (fresh, below, l) m apart enough =
      elim (Bool-cases (k == key)) [
        | inr other ↦
            match_layers rest (suc fuel) visiting key l (ground arith)
              (λ j h. apart j (ground arith)) enough
        | inl same ↦
            let e = (eq_iff k key).0 same in
            elim (Option-cases (lookup key index)) [
              | inl missing ↦ rw (missing, match_segment) (λ err p. ground arith)
              | inr (s, found) ↦
                  let new = apart key m in
                  let less = unvisited-cons-lt index visiting key found new in
                  let next = match_segment rt ctx index fuel (key ∷ visiting) in
                  let Behind = λ (r : String). member rest r ≡ true in
                  let behind : All Behind (refs rt index key) =
                    subst (λ j. All Behind (refs rt index j)) e below in
                  let below' : All Behind (segment_references rt s.conditions) =
                    rw found at behind in
                  let apart' =
                    Disjoint-below rest visiting key (subst (λ j. member rest j ≡ false) e fresh)
                      (subst (λ j. Disjoint (j ∷ rest) visiting) e apart) in
                  rw (found, match_segment, new)
                    (match_conditions-NeverFails (condition_matches rt ctx next) s.mode s.conditions
                      (conditions-NeverFail rt compiled ctx next s.conditions (valid key s found) (
                        All-map (segment_references rt s.conditions)
                          (λ r h.
                            match_layers rest fuel (key ∷ visiting) r l h apart' (omega arith))
                          below')))
            ]
      ]

module _ (rt : Runtime) where
  insert-IsValidIndex :
      (s : Segment) (index : List (String × Segment))
      → validate_conditions rt s.conditions ≡ ok tt
      → IsValidIndex rt index
      → IsValidIndex rt (insert s.key s index)
  insert-IsValidIndex s index c v k t found = elim (Bool-cases (s.key == k)) [
    | inl here ↦
        let same : s ≡ t = ground (arith, lookup-insert s.key k s index) in
        subst (λ (u : Segment). validate_conditions rt u.conditions ≡ ok tt) same c
    | inr there ↦ v k t (ground (arith, lookup-insert s.key k s index))
  ]

  build_index-index :
      (index : List (String × Segment)) (ss : List Segment) {final : List (String × Segment)}
      → build_index rt index ss ≡ ok final
      → IsValidIndex rt index
      → (final ≡ index_segments index ss) × IsValidIndex rt final
  unfolding build_index index_segments validate_segment
  build_index-index index [] {final} h v =
      let same : index ≡ final = ground arith in (sym same, subst (IsValidIndex rt) same v)
  build_index-index index (s ∷ ss) h v =
      let (_, segment, h1) = >>=-eq-ok (validate_segment rt s) _ h in
      let (_, _, h2) = >>=-eq-ok (guard (not (is_blank s.key)) segment_key_required) _ segment in
      let (_, _, h3) =
        >>=-eq-ok (wrap (Fault.in_segment s.key) (validate_match_mode s.mode)) _ h2 in
      let (_, _, h4) =
        >>=-eq-ok (guard (not (is_nil s.conditions)) (Fault.in_segment s.key no_conditions)) _ h3 in
      let conditions =
        wrap-eq-ok (Fault.in_segment s.key) (validate_conditions rt s.conditions) h4 in
      let (_, _, h5) =
        >>=-eq-ok (wrap (Fault.in_segment s.key) (validate_portable_conditions rt s.conditions)) _
          h1 in
      let (_, _, h6) =
        >>=-eq-ok (guard (not (is_some (lookup s.key index))) (duplicate_segment s.key)) _ h5 in
      build_index-index (insert s.key s index) ss h6
        (λ k t found. insert-IsValidIndex s index conditions v k t found)

  match_key-NeverFails :
      (index : List (String × Segment)) (visited : List String)
      → MatchesCompiled rt
      → IsValidIndex rt index
      → IsLayered rt index visited
      → ((k : String) → is_some (lookup k index) ≡ true → member visited k ≡ true)
      → (ctx : Context) (key : String)
      → NeverFails (match_segment rt ctx index (suc (length index)) [] key)
  unfolding match_segment
  match_key-NeverFails index visited compiled valid layered all ctx key =
      elim (Option-cases (lookup key index)) [
        | inl missing ↦ rw (missing, match_segment) (λ e p. ground arith)
        | inr (s, found) ↦
            let enough = unvisited-le-length index [] in
            match_layers rt compiled ctx index valid visited (suc (length index)) [] key layered
              (all key (rw found)) (λ k m. refl) (omega arith)
      ]

  -- For a set that `ValidateSegmentSet` accepts, in whatever order `range index` runs through the
  -- keys, the matching of any key from the start returns: it meets no cycle, and nothing else in
  -- the segments makes it fail.
  pub validate_segment_set_sound :
      (order : List (String × Segment) → List String) (segments : List Segment)
      → MatchesCompiled rt
      → Covers order
      → validate_segment_set rt order segments ≡ ok tt
      → (ctx : Context) (key : String)
      → NeverFails (
          match_segment rt ctx
            (index_segments [] segments)
            (suc (length (index_segments [] segments)))
            []
            key)
  unfolding validate_segment_set lookup
  validate_segment_set_sound order segments compiled covers h ctx key =
      let (index, built, h1) = >>=-eq-ok (build_index rt [] segments) _ h in
      let (same, valid) = build_index-index [] segments built (λ k s found. ground arith) in
      let (_, _, h2) = >>=-eq-ok (check_references rt index segments) _ h1 in
      let search = visit rt index (suc (suc (length index))) [] in
      let (visited, run, _) = >>=-eq-ok (visit_all search [] (order index)) _ h2 in
      let (extends, all) =
        visit_all-Extends rt index [] search (visit-Extends rt index (suc (suc (length index))) [])
          [] (order index) visited tt run in
      subst (λ i. NeverFails (match_segment rt ctx i (suc (length i)) [] key)) same
        (match_key-NeverFails index visited compiled valid extends.layered
          (λ k here.
            All-member (λ j. member visited j ≡ true) (order index) k all (covers index k here))
          ctx key)
