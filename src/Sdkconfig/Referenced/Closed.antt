-- ===== src/Sdkconfig/Referenced/Closed.antt =====
-- The keys that `referencedSegments` collects.
use flagstack.Evaluation.Matching.{index_segments}
use flagstack.Evaluation.SegmentSet.{conditions_of}
use flagstack.Evaluation.Types.{Segment, Condition, Rule}
use flagstack.Evaluation.Runtime.{Runtime}
use flagstack.Common.{
  All-append, [], ◌∷◌, ◌||◌, ◌≡◌, ◌⊎◌, some, none, true, arith, All, ℕ, String, Bool, List, Option,
  is_empty, member, member-append, eq_refl, lookup, ◌==◌, inl, inr, zero, suc, List-cases, or-cases,
  subst, eq_iff, length, All-map,
}
use flagstack.Sdkconfig.Types.{Flag}
use flagstack.Sdkconfig.Referenced.{
  Work, add_key, add_conditions, add_flags, add_rules, drain, expand, key_list, flag_references,
  references, rule_references, reference, needed_keys, all_references,
}

-- A reference that is empty, which the source skips, or collected.
abbrev pub is_covered : List String → String → Bool
is_covered needed k = is_empty k || member needed k

abbrev pub AreCovered : List String → List String → Type 0
AreCovered needed ks = All (λ k. is_covered needed k ≡ true) ks

-- What adding conditions does: nothing is lost, and what is new is queued.
record Grows (w w' : Work) : Type 0 where
  kept : (k : String) → member w.needed k ≡ true → member w'.needed k ≡ true
  queued : (k : String) → member w.queue k ≡ true → member w'.queue k ≡ true
  fresh : (k : String) → member w'.needed k ≡ true → (member w.needed k || member w'.queue k) ≡ true

Grows-refl : (w : Work) → Grows w w
Grows-refl w = record { kept = λ k h. h; queued = λ k h. h; fresh = λ k h. ground arith }

Grows-trans : {a b c : Work} → Grows a b → Grows b c → Grows a c
Grows-trans {a} {b} {c} p q = record {
  kept = λ k h. q.kept k (p.kept k h);
  queued = λ k h. q.queued k (p.queued k h);
  fresh = λ k h. ground (arith, q.fresh k h, p.fresh k, q.queued k);
}

add_key-Grows : (o : Option String) (w : Work) → Grows w (add_key o w)
add_key-Grows none w = Grows-refl w
add_key-Grows (some key) w = record {
  kept = λ k h. ground arith;
  queued = λ k h. ground (arith, member-append w.queue (key ∷ []) k);
  fresh = λ k h. ground (arith, member-append w.queue (key ∷ []) k);
}

add_key-covers : (o : Option String) (w : Work) → AreCovered (add_key o w).needed (key_list o)
add_key-covers none w = tt
add_key-covers (some key) w = (ground (arith, eq_refl key), tt)

AreCovered-grow :
    (ks : List String) {w w' : Work} → Grows w w' → AreCovered w.needed ks → AreCovered w'.needed ks
AreCovered-grow [] g h = tt
AreCovered-grow (k ∷ ks) {w} {w'} g (p, h) = (ground (arith, g.kept k), AreCovered-grow ks g h)

none-ne-some : {needed : List String} → none ≡ some needed → ⊥
none-ne-some h = cc

empty-ne : (k : String) → member [] k ≡ true → ⊥
empty-ne k h = cc

module _ (rt : Runtime) where
  add_conditions-Grows : (cs : List Condition) (w : Work) → Grows w (add_conditions rt cs w)
  unfolding add_conditions
  add_conditions-Grows [] w = Grows-refl w
  add_conditions-Grows (c ∷ cs) w =
      let o = reference rt c.operator c in
      Grows-trans (add_key-Grows o w) (add_conditions-Grows cs (add_key o w))

  add_conditions-covers :
      (cs : List Condition) (w : Work)
      → AreCovered (add_conditions rt cs w).needed (references rt cs)
  unfolding add_conditions references
  add_conditions-covers [] w = tt
  add_conditions-covers (c ∷ cs) w =
      let o = reference rt c.operator c in
      All-append _ (key_list o) (references rt cs)
        (AreCovered-grow (key_list o) (add_conditions-Grows cs (add_key o w)) (add_key-covers o w))
        (add_conditions-covers cs (add_key o w))

  add_rules-Grows : (rs : List Rule) (w : Work) → Grows w (add_rules rt rs w)
  unfolding add_rules
  add_rules-Grows [] w = Grows-refl w
  add_rules-Grows (r ∷ rs) w =
      Grows-trans (add_conditions-Grows r.conditions w)
        (add_rules-Grows rs (add_conditions rt r.conditions w))

  add_rules-covers :
      (rs : List Rule) (w : Work) → AreCovered (add_rules rt rs w).needed (rule_references rt rs)
  unfolding add_rules rule_references
  add_rules-covers [] w = tt
  add_rules-covers (r ∷ rs) w =
      let w' = add_conditions rt r.conditions w in
      All-append _ (references rt r.conditions) (rule_references rt rs)
        (AreCovered-grow (references rt r.conditions) (add_rules-Grows rs w')
          (add_conditions-covers r.conditions w))
        (add_rules-covers rs w')

  add_flags-Grows : (fs : List Flag) (w : Work) → Grows w (add_flags rt fs w)
  unfolding add_flags
  add_flags-Grows [] w = Grows-refl w
  add_flags-Grows (f ∷ fs) w =
      Grows-trans (add_rules-Grows f.policy.rules w)
        (add_flags-Grows fs (add_rules rt f.policy.rules w))

  add_flags-covers :
      (fs : List Flag) (w : Work) → AreCovered (add_flags rt fs w).needed (flag_references rt fs)
  unfolding add_flags flag_references
  add_flags-covers [] w = tt
  add_flags-covers (f ∷ fs) w =
      let w' = add_rules rt f.policy.rules w in
      All-append _ (rule_references rt f.policy.rules) (flag_references rt fs)
        (AreCovered-grow (rule_references rt f.policy.rules) (add_flags-Grows fs w')
          (add_rules-covers f.policy.rules w))
        (add_flags-covers fs w')

  -- Every collected key still waits, or the references of its segment are covered.
  abbrev IsOpen : List (String × Segment) → Work → Type 0
  IsOpen index w =
      (k : String)
      → member w.needed k ≡ true
      → (member w.queue k ≡ true)
        ⊎ AreCovered w.needed (references rt (conditions_of (lookup k index)))

  abbrev pub IsClosed : List (String × Segment) → List String → Type 0
  IsClosed index needed =
      (k : String)
      → member needed k ≡ true
      → AreCovered needed (references rt (conditions_of (lookup k index)))

  expand-IsOpen :
      (index : List (String × Segment)) (key : String) (rest : List String) (w : Work)
      → w.queue ≡ key ∷ rest
      → IsOpen index w
      → IsOpen index (expand rt index key (record w { queue = rest }))
  unfolding expand
  expand-IsOpen index key rest w e open_w k m =
      let w0 : Work = record w { queue = rest } in
      let cs = conditions_of (lookup key index) in
      let g = add_conditions-Grows cs w0 in
      let Done = λ (j : String).
        AreCovered (add_conditions rt cs w0).needed
          (references rt (conditions_of (lookup j index))) in
      elim (or-cases (member w.needed k) (member (add_conditions rt cs w0).queue k) (g.fresh k m)) [
        | inr queued ↦ inl queued
        | inl old ↦ elim (open_w k old) [
          | inr covered ↦
              inr (AreCovered-grow (references rt (conditions_of (lookup k index))) g covered)
          | inl waiting ↦ elim (or-cases (key == k) (member rest k) (rw e at waiting)) [
            | inl now ↦ inr (subst Done ((eq_iff key k).0 now) (add_conditions-covers cs w0))
            | inr later ↦ inl (g.queued k later)
          ]
        ]
      ]

  finished :
      (index : List (String × Segment)) (w : Work) (needed : List String)
      → IsOpen index w
      → w.queue ≡ []
      → some w.needed ≡ some needed
      → IsClosed index needed × ((k : String) → member w.needed k ≡ true → member needed k ≡ true)
  finished index w needed o empty h =
      let same : w.needed ≡ needed = ground arith in
      let Closed = λ (ks : List String).
        IsClosed index ks × ((k : String) → member w.needed k ≡ true → member ks k ≡ true) in
      subst Closed same (
        λ k m. elim (o k m) [
          | inl waiting ↦ absurd (empty-ne k (rw empty at waiting))
          | inr covered ↦ covered
        ],
        λ k m. m,
      )

  drain-IsClosed :
      (index : List (String × Segment)) (fuel : ℕ) (w : Work) (needed : List String)
      → IsOpen index w
      → drain rt index fuel w ≡ some needed
      → IsClosed index needed × ((k : String) → member w.needed k ≡ true → member needed k ≡ true)
  unfolding drain expand
  drain-IsClosed index zero w needed o h = elim (List-cases w.queue) [
    | inl empty ↦ finished index w needed o empty (rw (empty, drain) at h)
    | inr (key, rest, e) ↦ absurd (none-ne-some (rw (e, drain) at h))
  ]
  drain-IsClosed index (suc fuel) w needed o h = elim (List-cases w.queue) [
    | inl empty ↦ finished index w needed o empty (rw (empty, drain) at h)
    | inr (key, rest, e) ↦
        let w0 : Work = record w { queue = rest } in
        let g = add_conditions-Grows (conditions_of (lookup key index)) w0 in
        let (closed, kept) =
          drain-IsClosed index fuel (expand rt index key w0) needed
            (expand-IsOpen index key rest w e o) (rw (e, drain) at h) in
        (closed, λ k m. kept k (g.kept k m))
  ]

-- Closed and covering the rules: the keys that `referencedSegments` collects hold every reference
-- of the flags' rules and every reference of the segment of a collected key.
pub needed_keys-IsClosed :
    (rt : Runtime) (flags : List Flag) (segments : List Segment) (needed : List String)
    → needed_keys rt flags segments ≡ some needed
    → AreCovered needed (flag_references rt flags) × IsClosed rt (index_segments [] segments) needed
unfolding needed_keys
needed_keys-IsClosed rt flags segments needed h =
    let index = index_segments [] segments in
    let start : Work = record { needed = []; queue = [] } in
    let w = add_flags rt flags start in
    let g = add_flags-Grows rt flags start in
    let (closed, kept) =
      drain-IsClosed rt index (length (all_references rt flags index)) w needed
        (λ k m. inl (g.fresh k m)) h in
    (
      All-map (flag_references rt flags) (λ k c. ground (arith, kept k))
          (add_flags-covers rt flags start),
      closed,
    )
