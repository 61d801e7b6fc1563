-- ===== src/Sdkconfig/Referenced.antt =====
-- backend/internal/sdkconfig/sdkconfig.go: `referencedSegments`, the segments that an SDK needs.
pub mod Loop
pub mod Closed
pub mod Agree
pub mod Equivalent
use mathlib.Core.Option
use flagstack.Evaluation.Runtime.{Next, eof, syntax_error, Runtime}
use flagstack.Evaluation.Types.{
  null, str, in_segment, not_in_segment, Segment, Value, Condition, Operator, Rule,
}
use flagstack.Evaluation.Matching.{index_segments}
use flagstack.Evaluation.SegmentSet.{conditions_of}
use flagstack.Common.{
  [], ◌∷◌, ◌++◌, ◌&&◌, some, none, if◌then◌else◌, ℕ, String, List, Option, zero, suc, not, is_empty,
  member, length, lookup,
}
use flagstack.Sdkconfig.Types.{Flag}

-- `needed` and `queue`.
pub record Work : Type 0 where
  pub needed : List String
  pub queue : List String

abbrev pub text_of : Value → Option String
text_of null = some ""
text_of (str s) = some s
text_of _ = none

-- What may follow the value: white space only.
abbrev pub only_text : Value → Next → Option String
only_text v eof = text_of v
only_text v syntax_error = none
only_text v (Next.value w rest) = none

abbrev pub first_text : Runtime → Next → Option String
first_text rt eof = none
first_text rt syntax_error = none
first_text rt (Next.value v rest) = only_text v (rt.next_value rest)

-- `json.Unmarshal(raw, &key)` into a string; `none` is its error. A null leaves the empty string.
unfoldable pub unmarshal_string : Runtime → String → Option String
unmarshal_string rt raw = first_text rt (rt.next_value raw)

abbrev pub add_key : Option String → Work → Work
add_key none w = w
add_key (some key) w =
    if not (is_empty key) && not (member w.needed key)
    then record { needed = key ∷ w.needed; queue = w.queue ++ key ∷ [] }
    else w

abbrev pub key_list : Option String → List String
key_list none = []
key_list (some k) = k ∷ []

module _ (rt : Runtime) where
  -- The key that a condition refers to, if its operator is one on segments.
  abbrev pub reference : Operator → Condition → Option String
  reference in_segment c = unmarshal_string rt c.value
  reference not_in_segment c = unmarshal_string rt c.value
  reference _ c = none

  unfoldable pub add_conditions : List Condition → Work → Work
  add_conditions [] w = w
  add_conditions (c ∷ cs) w = add_conditions cs (add_key (reference c.operator c) w)

  unfoldable pub add_rules : List Rule → Work → Work
  add_rules [] w = w
  add_rules (r ∷ rs) w = add_rules rs (add_conditions r.conditions w)

  unfoldable pub add_flags : List Flag → Work → Work
  add_flags [] w = w
  add_flags (f ∷ fs) w = add_flags fs (add_rules f.policy.rules w)

  -- One round of the loop over the queue, for the key at its head.
  unfoldable pub expand : List (String × Segment) → String → Work → Work
  expand index key w = add_conditions (conditions_of (lookup key index)) w

  -- The loop over the queue. `none` means that the fuel ran out.
  unfoldable pub drain : List (String × Segment) → ℕ → Work → Option (List String)
  drain index zero w = elim w.queue [ [] ↦ some w.needed | key ∷ rest ↦ none ]
  drain index (suc fuel) w = elim w.queue [
    | [] ↦ some w.needed
    | key ∷ rest ↦ drain index fuel (expand index key (record w { queue = rest }))
  ]

  -- Every key that the conditions of a list refer to.
  unfoldable pub references : List Condition → List String
  references [] = []
  references (c ∷ cs) = key_list (reference c.operator c) ++ references cs

  unfoldable pub rule_references : List Rule → List String
  rule_references [] = []
  rule_references (r ∷ rs) = references r.conditions ++ rule_references rs

  unfoldable pub flag_references : List Flag → List String
  flag_references [] = []
  flag_references (f ∷ fs) = rule_references f.policy.rules ++ flag_references fs

  unfoldable pub index_references : List (String × Segment) → List String
  index_references [] = []
  index_references ((k, s) ∷ index) = references s.conditions ++ index_references index

  -- The fuel: each round takes a key from the queue, and a key is queued once.
  unfoldable pub all_references : List Flag → List (String × Segment) → List String
  all_references flags index = flag_references flags ++ index_references index

  unfoldable pub needed_keys : List Flag → List Segment → Option (List String)
  needed_keys flags segments =
      let index = index_segments [] segments in
      drain index (length (all_references flags index))
        (add_flags flags (record { needed = []; queue = [] }))

-- The last loop, over the segments in their order.
unfoldable pub keep_needed : List String → List Segment → List Segment
keep_needed needed [] = []
keep_needed needed (s ∷ ss) =
    if member needed s.key then s ∷ keep_needed needed ss else keep_needed needed ss

unfoldable pub referenced_segments : Runtime → List Flag → List Segment → Option (List Segment)
referenced_segments rt flags segments =
    Option.map (λ needed. keep_needed needed segments) (needed_keys rt flags segments)
