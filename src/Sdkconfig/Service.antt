-- ===== src/Sdkconfig/Service.antt =====
-- backend/internal/sdkconfig/sdkconfig.go: the service, on an interface of its repository.
pub mod Served
pub mod Authentic
use Prim.Native.Char.{Char, code}
use flagstack.Evaluation.SegmentSet.{
  validate_definition, validate_segment_set, validate_policy_segments,
}
use flagstack.Sdkconfig.Referenced.{referenced_segments}
use flagstack.Evaluation.Runtime.{Runtime}
use flagstack.Sdkconfig.Types.{Flag, Configuration, Credential, StoredServerCredential}
use flagstack.Evaluation.Types.{Fault, Segment}
use flagstack.Targeting.Types.{TargetingError}
use flagstack.Common.{
  [], ◌∷◌, ◌&&◌, ◌||◌, ok, err, some, none, if◌then◌else◌, ◌>>=◌, ◌>>◌, ℕ, String, List, Option,
  Result, eqb, guard, trim_space, wrap, byte_length, not, is_blank, is_empty, after_prefix,
  same_bytes,
}

pub data InputFault : Type 0 where
  required too_long bad_kind : InputFault

pub data SdkError : Type 0 where
  credential_not_found invalid_credential environment_not_found feature_flag_not_found : SdkError
  -- a `ValidationError`: the field and the message
  invalid_input : String → InputFault → SdkError
  scope_required no_randomness : SdkError
  environment_identity_required flag_identity_required : SdkError
  -- a fault of package evaluation, about the segments or about a flag
  in_segments : Fault → SdkError
  in_flag : String → Fault → SdkError
  -- "validate stored SDK configuration"
  stored_configuration : SdkError → SdkError
  -- any other error of the repository
  database_fault : TargetingError → SdkError
  -- not in the source: the model's fuel for `referencedSegments` ran out
  no_fuel : SdkError

-- The queries of `Repository` that the service reads with.
pub record Repository : Type 0 where
  pub find_server_credential : String → Result SdkError StoredServerCredential
  pub find_client_credential : String → Result SdkError Credential
  pub load_configuration : Credential → Result SdkError Configuration

-- What the service uses of other packages: the evaluator's, the order of `range` on a segment
-- index, and `uuid.Parse` with the canonical text of its result.
pub record Platform : Type 0 where
  pub runtime : Runtime
  pub order : List (String × Segment) → List String
  pub parse_uuid : String → Option String

abbrev pub current_schema_version : ℕ
current_schema_version = 1

abbrev pub server_key_prefix : String
server_key_prefix = "syoc_server_"

abbrev pub client_key_prefix : String
client_key_prefix = "syoc_client_"

abbrev pub with_head : Char → Option (String × String) → Option (String × String)
with_head c none = none
with_head c (some (before, after)) = some (String.◌∷◌ c before, after)

-- strings.SplitN(s, ".", 2), where it has two parts.
unfoldable pub cut_at_dot : String → Option (String × String)
cut_at_dot String.[] = none
cut_at_dot (String.◌∷◌ c s) =
    let rest = cut_at_dot s in if eqb (code c) 46 then some ("", s) else with_head c rest

abbrev pub or_invalid {ℓ} : {A : Type ℓ} → Option A → Result SdkError A
or_invalid none = err invalid_credential
or_invalid (some a) = ok a

-- Any error of a query becomes the one error.
abbrev pub hide_error {ℓ} : {A : Type ℓ} → Result SdkError A → Result SdkError A
hide_error (ok a) = ok a
hide_error (err e) = err invalid_credential

abbrev pub or_no_fuel {ℓ} : {A : Type ℓ} → Option A → Result SdkError A
or_no_fuel none = err no_fuel
or_no_fuel (some a) = ok a

module _ (pf : Platform) where
  unfoldable pub validate_flags : List Segment → List Flag → Result SdkError (Unit {0})
  validate_flags segments [] = ok tt
  validate_flags segments (f ∷ fs) = do
    guard (not (is_blank f.id || is_blank f.key)) flag_identity_required
    wrap (in_flag f.key) (validate_definition pf.runtime f.kind f.default_value f.variants f.policy)
    wrap (in_flag f.key) (validate_policy_segments pf.runtime f.policy segments)
    validate_flags segments fs

  unfoldable pub validate_configuration : Configuration → Result SdkError (Unit {0})
  validate_configuration c = do
    guard (not (is_blank c.environment.id || is_blank c.environment.key))
        environment_identity_required
    wrap in_segments (validate_segment_set pf.runtime pf.order c.segments)
    validate_flags c.segments c.flags

  module _ (repo : Repository) where
    -- The branch of `authenticate` for a server key, on what follows the prefix.
    unfoldable pub authenticate_server : String → Result SdkError Credential
    authenticate_server rest = do
      (id_text, secret) ← or_invalid (cut_at_dot rest)
      guard (eqb (byte_length id_text) 32 && not (is_empty secret)) invalid_credential
      id ← or_invalid (pf.parse_uuid id_text)
      stored ← hide_error (repo.find_server_credential id)
      guard (same_bytes stored.secret_digest (pf.runtime.sha256 secret)) invalid_credential
      ok stored.credential

    abbrev pub authenticate_client : String → Option String → Result SdkError Credential
    authenticate_client key none = err invalid_credential
    authenticate_client key (some rest) = hide_error (repo.find_client_credential key)

    abbrev pub authenticate_by : String → Option String → Result SdkError Credential
    authenticate_by key (some rest) = authenticate_server rest
    authenticate_by key none = authenticate_client key (after_prefix client_key_prefix key)

    unfoldable pub authenticate : String → Result SdkError Credential
    authenticate key = authenticate_by key (after_prefix server_key_prefix key)

    unfoldable pub authenticate_key : String → Result SdkError Credential
    authenticate_key raw = authenticate (trim_space raw)

    unfoldable pub configuration_for_key : String → Result SdkError Configuration
    configuration_for_key raw = do
      credential ← authenticate_key raw
      c ← repo.load_configuration credential
      wrap stored_configuration (validate_configuration c)
      segments ← or_no_fuel (referenced_segments pf.runtime c.flags c.segments)
      ok (record c { schema_version = current_schema_version; segments = segments })
