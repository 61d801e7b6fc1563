-- ===== src/Sdkconfig/Referenced/Loop.antt =====
-- The loop over the queue of `referencedSegments`: its length.
use flagstack.Evaluation.Matching.{index_segments}
use flagstack.Evaluation.SegmentSet.{conditions_of}
use flagstack.Evaluation.Types.{Condition, Rule, Segment}
use flagstack.Evaluation.Runtime.{Runtime}
use flagstack.Common.{
  [], ◌∷◌, ◌++◌, ◌+◌, ◌≤◌, ◌≡◌, some, none, true, arith, refl, ap, zero, suc, All, ℕ, String, List,
  Option, eq_refl, length, member, member-append, unseen, lookup, unseen-cons-lt, All-append_left,
  All-append_right, ◌==◌, inl, inr, Bool-cases, List-cases, unseen-le-length,
}
use flagstack.Sdkconfig.Types.{Flag}
use flagstack.Sdkconfig.Referenced.{
  Work, key_list, add_conditions, add_flags, add_key, add_rules, drain, index_references, expand,
  flag_references, references, rule_references, reference, needed_keys, all_references,
}

-- The keys of a list are among some keys.
abbrev pub IsAmong : List String → List String → Type 0
IsAmong keys ks = All (λ k. member keys k ≡ true) ks

IsAmong-left : (xs ys ks : List String) → IsAmong xs ks → IsAmong (xs ++ ys) ks
IsAmong-left xs ys [] h = tt
IsAmong-left xs ys (k ∷ ks) (p, h) =
    (ground (arith, member-append xs ys k), IsAmong-left xs ys ks h)

IsAmong-right : (xs ys ks : List String) → IsAmong ys ks → IsAmong (xs ++ ys) ks
IsAmong-right xs ys [] h = tt
IsAmong-right xs ys (k ∷ ks) (p, h) =
    (ground (arith, member-append xs ys k), IsAmong-right xs ys ks h)

IsAmong-cons : (x : String) (ys ks : List String) → IsAmong ys ks → IsAmong (x ∷ ys) ks
IsAmong-cons x ys [] h = tt
IsAmong-cons x ys (k ∷ ks) (p, h) = (ground arith, IsAmong-cons x ys ks h)

IsAmong-self : (ks : List String) → IsAmong ks ks
IsAmong-self [] = tt
IsAmong-self (k ∷ ks) = (ground (arith, eq_refl k), IsAmong-cons k ks ks (IsAmong-self ks))

-- What is left to do: the queue, and the keys that may still be queued.
abbrev work_left : List String → Work → ℕ
work_left keys w = length w.queue + unseen keys w.needed

length-concat : (xs : List String) (k : String) → length (xs ++ k ∷ []) ≡ suc (length xs)
length-concat [] k = refl
length-concat (x ∷ xs) k = ap suc (length-concat xs k)

add_key-le :
    (keys : List String) (o : Option String) (w : Work)
    → IsAmong keys (key_list o)
    → work_left keys (add_key o w) ≤ work_left keys w
add_key-le keys none w h = omega arith
add_key-le keys (some k) w h =
    ground (arith, length-concat w.queue k, unseen-cons-lt keys w.needed k h.0)

module _ (rt : Runtime) where
  add_conditions-le :
      (keys : List String) (cs : List Condition) (w : Work)
      → IsAmong keys (references rt cs)
      → work_left keys (add_conditions rt cs w) ≤ work_left keys w
  unfolding add_conditions references
  add_conditions-le keys [] w h = omega arith
  add_conditions-le keys (c ∷ cs) w h =
      let o = reference rt c.operator c in
      let Among = λ (k : String). member keys k ≡ true in
      omega (
        arith,
        add_key-le keys o w (All-append_left Among (key_list o) (references rt cs) h),
        add_conditions-le keys cs (add_key o w)
            (All-append_right Among (key_list o) (references rt cs) h),
      )

  add_rules-le :
      (keys : List String) (rs : List Rule) (w : Work)
      → IsAmong keys (rule_references rt rs)
      → work_left keys (add_rules rt rs w) ≤ work_left keys w
  unfolding add_rules rule_references
  add_rules-le keys [] w h = omega arith
  add_rules-le keys (r ∷ rs) w h =
      let Among = λ (k : String). member keys k ≡ true in
      let here = references rt r.conditions in
      let later = rule_references rt rs in
      omega (
        arith,
        add_conditions-le keys r.conditions w (All-append_left Among here later h),
        add_rules-le keys rs (add_conditions rt r.conditions w)
            (All-append_right Among here later h),
      )

  add_flags-le :
      (keys : List String) (fs : List Flag) (w : Work)
      → IsAmong keys (flag_references rt fs)
      → work_left keys (add_flags rt fs w) ≤ work_left keys w
  unfolding add_flags flag_references
  add_flags-le keys [] w h = omega arith
  add_flags-le keys (f ∷ fs) w h =
      let Among = λ (k : String). member keys k ≡ true in
      let here = rule_references rt f.policy.rules in
      let later = flag_references rt fs in
      omega (
        arith,
        add_rules-le keys f.policy.rules w (All-append_left Among here later h),
        add_flags-le keys fs (add_rules rt f.policy.rules w) (All-append_right Among here later h),
      )

  entry-IsAmong :
      (index : List (String × Segment)) (key : String)
      → IsAmong (index_references rt index) (references rt (conditions_of (lookup key index)))
  unfolding index_references lookup references
  entry-IsAmong [] key = tt
  entry-IsAmong ((k, s) ∷ index) key = elim (Bool-cases (k == key)) [
    | inl here ↦ rw here (
        IsAmong-left (references rt s.conditions) (index_references rt index)
          (references rt s.conditions) (IsAmong-self (references rt s.conditions)))
    | inr there ↦ rw there (
        IsAmong-right (references rt s.conditions) (index_references rt index)
          (references rt (conditions_of (lookup key index))) (entry-IsAmong index key))
  ]

  drain_ends :
      (index : List (String × Segment)) (keys : List String) (fuel : ℕ) (w : Work)
      → ((key : String) → IsAmong keys (references rt (conditions_of (lookup key index))))
      → work_left keys w ≤ fuel
      → (needed : List String) × (drain rt index fuel w ≡ some needed)
  unfolding drain expand
  drain_ends index keys zero w h le = elim (List-cases w.queue) [
    | inl empty ↦ (w.needed, rw (empty, drain))
    | inr (k, rest, e) ↦ absurd (omega (arith, ap length e))
  ]
  drain_ends index keys (suc fuel) w h le = elim (List-cases w.queue) [
    | inl empty ↦ (w.needed, rw (empty, drain))
    | inr (k, rest, e) ↦
        let popped : Work = record w { queue = rest } in
        let less = add_conditions-le keys (conditions_of (lookup k index)) popped (h k) in
        let (needed, run) =
          drain_ends index keys fuel (expand rt index k popped) h (omega (arith, ap length e)) in
        (needed, rw (e, drain) run)
  ]

-- `referencedSegments` returns for every list of flags and of segments, with the model's fuel.
pub needed_keys-ends :
    (rt : Runtime) (flags : List Flag) (segments : List Segment)
    → (needed : List String) × (needed_keys rt flags segments ≡ some needed)
unfolding needed_keys all_references
needed_keys-ends rt flags segments =
    let index = index_segments [] segments in
    let ours = flag_references rt flags in
    let theirs = index_references rt index in
    let keys = ours ++ theirs in
    let start : Work = record { needed = []; queue = [] } in
    let first =
      add_flags-le rt keys flags start (IsAmong-left ours theirs ours (IsAmong-self ours)) in
    drain_ends rt index keys (length keys) (add_flags rt flags start)
      (λ k.
        IsAmong-right ours theirs (references rt (conditions_of (lookup k index)))
          (entry-IsAmong rt index k))
      (omega (arith, unseen-le-length keys []))
