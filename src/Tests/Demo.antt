-- ===== src/Tests/Demo.antt =====
-- A concrete runtime, and a flag with segments that uses it.
use flagstack.Evaluation.Evaluate.Kinds.{DecodesBooleans}
use flagstack.Evaluation.SegmentSet.Acyclic.{Covers}
use flagstack.Evaluation.Types.{
  Allocation, Condition, Context, Flag, Policy, Segment, Variant, entry, in_segment, match_all,
  match_any, text, ends_with, exists, str, bool, end, number,
}
use flagstack.Evaluation.Decode.{decode_raw}
use flagstack.Evaluation.Runtime.{MatchesCompiled, Next, Runtime, eof}
use flagstack.Common.{
  [], ◌∷◌, String, ◌==◌, some, none, true, false, arith, if◌then◌else◌, refl, sym, List, is_empty,
  lookup, is_blank, map, pos, true-ne-false, trim_space, has_prefix,
}

-- All characters but the last.
abbrev init_text : String → String
init_text String.[] = ""
init_text (String.◌∷◌ c s) = let rest = init_text s in if is_empty s then "" else String.◌∷◌ c rest

abbrev unquote : String → String
unquote String.[] = ""
unquote (String.◌∷◌ c s) = init_text s

-- A decoder of one scalar, a text in quotes without escapes among them.
abbrev scalar : String → Next
scalar s =
    if is_blank s
    then eof
    else if s == "true"
    then Next.value (bool true) ""
    else if s == "false"
    then Next.value (bool false) ""
    else if has_prefix s "\""
    then Next.value (str (unquote s)) ""
    else Next.value (number s) ""

abbrev pub demo : Runtime
demo = record {
  next_value = scalar;
  marshal = λ v. some "";
  parse_float = λ s. some 0;
  float_of_int = λ n. 0;
  float_of_float32 = λ n. n;
  sha256 = λ s. 0 ∷ 0 ∷ 200 ∷ 7 ∷ [];
  compiles = λ s. false;
  match_string = λ p s. none;
  semver_valid = λ s. true;
  semver_compare = λ a b. pos 0;
}

pub demo-MatchesCompiled : MatchesCompiled demo
demo-MatchesCompiled p s h = absurd (true-ne-false (sym h))

pub demo-DecodesBooleans : DecodesBooleans demo
unfolding decode_raw is_blank trim_space
demo-DecodesBooleans = (refl, refl)

abbrev pub keys_in_order : List (String × Segment) → List String
keys_in_order index = map (λ e. e.0) index

pub keys_in_order-Covers : Covers keys_in_order
unfolding lookup
keys_in_order-Covers [] k h = cc
keys_in_order-Covers ((j, s) ∷ index) k h = ground (arith, keys_in_order-Covers index k)

abbrev pub in_beta : Condition
in_beta = record { attribute = ""; operator = in_segment; value = "\"beta\"" }

abbrev pub beta : Segment
beta = record {
  key = "beta";
  name = "Beta";
  mode = match_any;
  conditions = (record { attribute = ""; operator = in_segment; value = "\"staff\"" }) ∷ [];
}

abbrev pub staff : Segment
staff = record {
  key = "staff";
  name = "Staff";
  mode = match_all;
  conditions = (record { attribute = "email"; operator = ends_with; value = "\"@x.org\"" }) ∷ [];
}

abbrev pub unused : Segment
unused = record {
  key = "unused";
  name = "Unused";
  mode = match_all;
  conditions = (record { attribute = "plan"; operator = exists; value = "" }) ∷ [];
}

abbrev pub demo_segments : List Segment
demo_segments = beta ∷ staff ∷ unused ∷ []

abbrev pub even_split : List Allocation
even_split =
    (record { variant = "blue"; weight = pos 50_000 })
    ∷ (record { variant = "default"; weight = pos 50_000 })
    ∷ []

abbrev pub demo_policy : Policy
demo_policy = record {
  rules =
      (record {
        id = "rule-1";
        name = "Beta";
        mode = match_all;
        conditions = in_beta ∷ [];
        outcome = record { variant = ""; rollout = even_split; bucket_by = "" };
      })
      ∷ [];
  fallthrough = record { variant = "blue"; rollout = []; bucket_by = "" };
}

abbrev pub demo_variants : List Variant
demo_variants = (record { key = "blue"; value = "\"b\"" }) ∷ []

abbrev pub demo_flag : Flag
demo_flag = record {
  id = "flag-1";
  environment_id = "environment-1";
  key = "colour";
  kind = text;
  default_value = "\"d\"";
  enabled = true;
  variants = demo_variants;
  policy = demo_policy;
}

abbrev pub demo_context : Context
demo_context = record { targeting_key = "user-1"; attributes = entry "email" (str "a@x.org") end }
