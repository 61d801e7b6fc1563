-- ===== src/Evaluation/Values.antt =====
-- backend/internal/evaluation/evaluation.go: values, their comparison, and the context.
use flagstack.Common.{
  ℕ, String, Bool, true, false, ◌&&◌, ◌||◌, Option, none, some, List, [], ◌∷◌, eqb, eq_int,
  if◌then◌else◌, ◌==◌, split, contains_text, member, is_some, is_empty, Result, ok, err,
}
use flagstack.Evaluation.Types.{
  Value, Values, Entries, IntKind, null, bool, str, number, float64, float32, integer, array,
  strings, object, nil, cons, end, entry, Context, Fault, not_scalar, marshal_failed,
  EvaluationError, targeting_key_missing, invalid_context, targeting_key_required,
  bucket_attribute_missing, bucket_attribute,
}
use flagstack.Evaluation.Floats.{float_eq}
use flagstack.Evaluation.Runtime.{Runtime}

pub IntKind-discrete : Discrete IntKind
IntKind-discrete = hlevel

same_kind : IntKind → IntKind → Bool
same_kind a b = elim (IntKind-discrete a b) [ yes p ↦ true | no p ↦ false ]

abbrev pub same_bool : Bool → Bool → Bool
same_bool true b = b
same_bool false true = false
same_bool false false = true

abbrev pub same_strings : List String → List String → Bool
same_strings [] [] = true
same_strings (a ∷ xs) (b ∷ ys) = a == b && same_strings xs ys
same_strings _ _ = false

-- mapping[key]
unfoldable pub field : String → Entries → Option Value
field k end = none
field k (entry j v es) = if j == k then some v else field k es

abbrev pub size : Entries → ℕ
size end = 0
size (entry k v es) = Prim.Native.Nat.suc (size es)

-- reflect.DeepEqual on the dynamic types above.
unfoldable mutual
  unfolding same_kind IntKind-discrete float_eq

  pub deep_equal : Value → Value → Bool
  deep_equal null null = true
  deep_equal (bool a) (bool b) = same_bool a b
  deep_equal (str a) (str b) = a == b
  deep_equal (number a) (number b) = a == b
  deep_equal (float64 a) (float64 b) = float_eq a b
  deep_equal (float32 a) (float32 b) = float_eq a b
  deep_equal (integer k a) (integer j b) = same_kind k j && eq_int a b
  deep_equal (array a) (array b) = deep_equal_values a b
  deep_equal (strings a) (strings b) = same_strings a b
  deep_equal (object a) (object b) = eqb (size a) (size b) && deep_equal_entries a b
  deep_equal _ _ = false

  pub deep_equal_values : Values → Values → Bool
  deep_equal_values nil nil = true
  deep_equal_values (cons a xs) (cons b ys) = deep_equal a b && deep_equal_values xs ys
  deep_equal_values _ _ = false

  pub deep_equal_entries : Entries → Entries → Bool
  deep_equal_entries end b = true
  deep_equal_entries (entry k v es) b =
      elim (field k b) [ none ↦ false | some w ↦ deep_equal v w ] && deep_equal_entries es b

-- The loop over the parts of a dotted path.
walk : Value → List String → Option Value
walk current [] = some current
walk (object es) (part ∷ parts) = elim (field part es) [ none ↦ none | some v ↦ walk v parts ]
walk _ (part ∷ parts) = none

unfoldable pub context_value : Context → String → Option Value
unfolding walk
context_value ctx path =
    if path == "targetingKey"
    then (if is_empty ctx.targeting_key then none else some (str ctx.targeting_key))
    else if is_empty path
    then none
    else walk (object ctx.attributes) (split path b'.')

module _ (rt : Runtime) where
  unfoldable pub number_value : Value → Option ℕ
  number_value (number n) = rt.parse_float n
  number_value (float64 b) = some b
  number_value (float32 b) = some (rt.float_of_float32 b)
  number_value (integer k n) = some (rt.float_of_int n)
  number_value _ = none

  abbrev pub both_numbers : Option ℕ → Option ℕ → Bool → Bool
  both_numbers (some a) (some b) other = float_eq a b
  both_numbers _ _ other = other

  unfoldable pub equal_values : Value → Value → Bool
  equal_values left right =
      both_numbers (number_value left) (number_value right) (deep_equal left right)

  -- The loops over candidates of `conditionMatches` and `containsValue`.
  unfoldable pub any_equal : Value → Values → Bool
  any_equal actual nil = false
  any_equal actual (cons v vs) = equal_values actual v || any_equal actual vs

  unfoldable pub any_equal_to : Values → Value → Bool
  any_equal_to nil expected = false
  any_equal_to (cons v vs) expected = equal_values v expected || any_equal_to vs expected

  unfoldable pub contains_value : Value → Value → Bool
  contains_value (str s) (str t) = contains_text s t
  contains_value (array vs) expected = any_equal_to vs expected
  contains_value (strings ss) (str t) = member ss t
  contains_value (object es) (str t) = is_some (field t es)
  contains_value _ _ = false

  abbrev pub marshalled : Option String → Result Fault String
  marshalled none = err marshal_failed
  marshalled (some s) = ok s

  unfoldable pub scalar_bucket_value : Value → Result Fault String
  scalar_bucket_value (str s) = marshalled (rt.marshal (str s))
  scalar_bucket_value (bool b) = marshalled (rt.marshal (bool b))
  scalar_bucket_value (number n) = marshalled (rt.marshal (number n))
  scalar_bucket_value (float64 b) = marshalled (rt.marshal (float64 b))
  scalar_bucket_value (float32 b) = marshalled (rt.marshal (float32 b))
  scalar_bucket_value (integer k n) = marshalled (rt.marshal (integer k n))
  scalar_bucket_value _ = err not_scalar

  abbrev pub encoded_bucket : String → Result Fault String → Result EvaluationError String
  encoded_bucket path (ok s) = ok s
  encoded_bucket path (err e) =
      err (record { code = invalid_context; cause = bucket_attribute path e })

  unfoldable pub bucket_value : Context → String → Result EvaluationError String
  bucket_value ctx bucket_by =
      if is_empty bucket_by || bucket_by == "targetingKey"
      then (if is_empty ctx.targeting_key
          then err (record { code = targeting_key_missing; cause = targeting_key_required })
          else ok ctx.targeting_key)
      else elim (context_value ctx bucket_by) [
        | none ↦ err (record { code = invalid_context; cause = bucket_attribute_missing bucket_by })
        | some v ↦ encoded_bucket bucket_by (scalar_bucket_value v)
      ]
