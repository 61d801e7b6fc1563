-- ===== src/Evaluation/Decode.antt =====
-- backend/internal/evaluation/evaluation.go: decoding of raw JSON, and values of a flag's kind.
use flagstack.Common.{String, Result, ok, err, ◌>>=◌, if◌then◌else◌, is_blank}
use flagstack.Evaluation.Types.{
  Value, bool, str, number, Kind, boolean, text, numeric, json, Fault, json_required, json_syntax,
  json_multiple, not_boolean, not_text, not_number, unsupported_kind,
}
use flagstack.Evaluation.Runtime.{Next, eof, syntax_error, value, Runtime}

module _ (rt : Runtime) where
  -- The second call of `Decode`, which has to meet the end.
  abbrev pub only_value : Value → Next → Result Fault Value
  only_value v eof = ok v
  only_value v syntax_error = err json_multiple
  only_value v (value w rest) = err json_multiple

  abbrev pub first_value : Next → Result Fault Value
  first_value eof = err json_syntax
  first_value syntax_error = err json_syntax
  first_value (value v rest) = only_value v (rt.next_value rest)

  unfoldable pub decode_raw : String → Result Fault Value
  decode_raw raw = if is_blank raw then err json_required else first_value (rt.next_value raw)

  -- The switch of `validateValueKind` on the decoded value.
  abbrev pub kind_of_value : Kind → Value → Result Fault (Unit {0})
  kind_of_value boolean (bool b) = ok tt
  kind_of_value boolean _ = err not_boolean
  kind_of_value text (str s) = ok tt
  kind_of_value text _ = err not_text
  kind_of_value numeric (number n) = ok tt
  kind_of_value numeric _ = err not_number
  kind_of_value json _ = ok tt
  kind_of_value (Kind.other s) _ = err (unsupported_kind (Kind.other s))

  unfoldable pub validate_value_kind : Kind → String → Result Fault (Unit {0})
  validate_value_kind kind raw = do v ← decode_raw raw; kind_of_value kind v
