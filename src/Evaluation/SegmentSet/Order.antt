-- ===== src/Evaluation/SegmentSet/Order.antt =====
-- The depth-first search of `ValidateSegmentSet`: the order of what it visits.
use flagstack.Evaluation.SegmentSet.{segment_references, visit, visit_all, conditions_of}
use flagstack.Evaluation.Types.{Segment, Fault}
use flagstack.Evaluation.Runtime.{Runtime}
use flagstack.Common.{
  ok, [], ◌∷◌, ◌≡◌, inl, inr, true, false, arith, zero, suc, All, ℕ, String, List, Result, member,
  Bool-cases, eq_refl, subst, >>=-eq-ok, eq_iff, lookup,
}

-- What the segment of a key refers to.
abbrev pub refs : Runtime → List (String × Segment) → String → List String
refs rt index key = segment_references rt (conditions_of (lookup key index))

-- Newest first: each key is new, and refers only to keys behind it.
abbrev pub IsLayered : Runtime → List (String × Segment) → List String → Type 0
IsLayered rt index [] = Unit
IsLayered rt index (k ∷ rest) =
    (member rest k ≡ false)
    × (All (λ r. member rest r ≡ true) (refs rt index k))
    × IsLayered rt index rest

module _ (rt : Runtime) (index : List (String × Segment)) where
  -- From one set of visited keys to the next, while the keys of `visiting` are open.
  pub record Extends (visiting visited next : List String) : Type 0 where
    pub layered : IsLayered rt index next
    pub kept : (k : String) → member visited k ≡ true → member next k ≡ true
    pub closed :
        (k : String) → member visiting k ≡ true → member next k ≡ true → member visited k ≡ true

  Extends-trans :
      (visiting : List String) {a b c : List String}
      → Extends visiting a b
      → Extends visiting b c
      → Extends visiting a c
  Extends-trans visiting p q = record {
    layered = q.layered;
    kept = λ k h. q.kept k (p.kept k h);
    closed = λ k o h. p.closed k o (q.closed k o h);
  }

  abbrev pub Steps : List String → (List String → String → Result Fault (List String)) → Type 0
  Steps visiting step =
      (visited : List String) (key : String) (next : List String)
      → IsLayered rt index visited
      → step visited key ≡ ok next
      → Extends visiting visited next × (member next key ≡ true)

  All-kept :
      {visiting a b : List String} (ks : List String)
      → Extends visiting a b
      → All (λ k. member a k ≡ true) ks
      → All (λ k. member b k ≡ true) ks
  All-kept [] e h = tt
  All-kept (k ∷ ks) e (here, later) = (e.kept k here, All-kept ks e later)

  pub visit_all-Extends :
      (visiting : List String) (step : List String → String → Result Fault (List String))
      → Steps visiting step
      → (visited ks next : List String) → IsLayered rt index visited
      → visit_all step visited ks ≡ ok next
      → Extends visiting visited next × All (λ k. member next k ≡ true) ks
  unfolding visit_all
  visit_all-Extends visiting step one visited [] next l h =
      let same : visited ≡ next = ground arith in
      (
        subst (Extends visiting visited) same
            (record { layered = l; kept = λ k m. m; closed = λ k o m. m }),
        tt,
      )
  visit_all-Extends visiting step one visited (k ∷ ks) next l h =
      let (mid, first, rest) = >>=-eq-ok (step visited k) _ h in
      let (e, found) = one visited k mid l first in
      let (e', all) = visit_all-Extends visiting step one mid ks next e.layered rest in
      (Extends-trans visiting e e', (e'.kept k found, all))

  close_key :
      (visiting visited mid : List String) (key : String)
      → member visited key ≡ false
      → member visiting key ≡ false
      → Extends (key ∷ visiting) visited mid
      → All (λ r. member mid r ≡ true) (refs rt index key)
      → Extends visiting visited (key ∷ mid)
  close_key visiting visited mid key new not_open e all =
      let fresh : member mid key ≡ false = ground (arith, eq_refl key, e.closed key) in
      record {
        layered = (fresh, all, e.layered);
        kept = λ k m. ground (arith, e.kept k);
        closed = λ k o m. ground (arith, e.closed k, eq_iff key k);
      }

  pub visit-Extends :
      (fuel : ℕ) (visiting : List String) → Steps visiting (visit rt index fuel visiting)
  unfolding visit
  visit-Extends zero visiting visited key next l h = cc
  visit-Extends (suc fuel) visiting visited key next l h = elim (Bool-cases (member visited key)) [
    | inl old ↦
        let same : visited ≡ next = ground arith in
        subst (λ n. Extends visiting visited n × (member n key ≡ true)) same
          (record { layered = l; kept = λ k m. m; closed = λ k o m. m }, old)
    | inr new ↦ elim (Bool-cases (member visiting key)) [
      | inl cycle ↦ absurd (ground arith)
      | inr not_open ↦
          let inner = visit rt index fuel (key ∷ visiting) in
          let (mid, run, e) =
            >>=-eq-ok (visit_all inner visited (refs rt index key)) _
              (rw (new, visit, not_open) at h) in
          let (ext, all) =
            visit_all-Extends (key ∷ visiting) inner (visit-Extends fuel (key ∷ visiting)) visited
              (refs rt index key) mid l run in
          let same : key ∷ mid ≡ next = ground arith in
          subst (λ n. Extends visiting visited n × (member n key ≡ true)) same
            (close_key visiting visited mid key new not_open ext all, ground (arith, eq_refl key))
    ]
  ]
