-- ===== src/Lib.antt =====
-- flagstack: a verification library for the feature-flag server of this repository.
--
-- The program. A Go server keeps projects, environments, feature flags with a targeting policy per
-- environment, and reusable segments. Package evaluation (backend/internal/evaluation) validates
-- flags and segments and evaluates a flag for a context. Package targeting checks what a user
-- stores and runs scheduled changes; its repository (backend/internal/database) keeps the tables.
-- Package flagconfig turns a flag on and off in an environment. Package sdkconfig keeps the
-- credentials of SDKs, sends an SDK the flags of an environment with the segments that they need,
-- and wakes its event stream on a change. Package auth creates the first user and signs users in
-- and out; package httpapi puts its guards in front of what changes state. The services call the
-- evaluator's validation before they store, and `Preview` and the SDKs evaluate what was stored.
--
-- Which file models what.
--   Common: the parts of Go that the code uses: results, maps as association lists, strings.TrimSpace
--     and its kin, 64-bit integers, encoding/base64 without padding (Base64), the decimal numbers of
--     strconv and fmt (Decimal), byte slices (Bytes), statements on tables (Tables) and their
--     ORDER BY (Sort).
--   Evaluation: evaluation.go, validation.go and portability.go. Types has the data, Decode
--     `decodeRaw` and `validateValueKind`, Values `contextValue`, `equalValues`, `containsValue`,
--     `numberValue` and `bucketValue`, Matching `conditionMatches`, `matchConditions` and
--     `matchSegment`, Validate `ValidateFlag` and `ValidateSegment`, SegmentSet the functions of
--     validation.go and portability.go, Evaluate `Evaluate`, `Bucket` and `resolveOutcome`.
--   Sdkconfig: Types, Service and Credentials are backend/internal/sdkconfig/sdkconfig.go, Service
--     what an SDK's key reads and Credentials what a user does to credentials, with
--     `referencedSegments` in Referenced; Invalidation is the hub of invalidation.go. Repository is
--     backend/internal/database/sdk_config_repository.go; it fills the interfaces of Service
--     (`sdk_reader`) and of Credentials (`sdk_store`).
--   Targeting: Types and Service are backend/internal/targeting/targeting.go; Repository and
--     Schedules are backend/internal/database/targeting_repository.go. A service operation has the
--     prefix service_, the repository's has none.
--   Flagconfig: backend/internal/flagconfig/flagconfig.go and
--     backend/internal/database/flag_config_repository.go.
--   Auth: Types and Input are backend/internal/auth/types.go, Password is password.go, Service is
--     service.go, and Repository is backend/internal/database/auth_repository.go.
--   Http: Auth is backend/internal/httpapi/auth.go, with the guards in the order of router.go.
--   Tests: concrete inputs, runs of the definitions and the instances of the theorems.
--
-- Parameters. Evaluation.Runtime holds what the code calls and does not implement: encoding/json,
-- SHA-256, regexp, float conversions, semver. Targeting.Repository.Store holds `uuid.Parse` and
-- reflect.DeepEqual, Targeting.Service.Environment also strings.ToLower and the order of `range`
-- over a map; Sdkconfig.Service.Platform is the like for an SDK's requests, and its Repository is
-- the interface that the service reads through. Auth.Input.Platform holds Argon2id, SHA-256,
-- strings.ToLower, strings.EqualFold, mail.ParseAddress and `uuid.Parse`; the records called Draw
-- hold what randomness gives a call, with none where it fails, and Sdkconfig.Repository.Sorting the
-- orders of the database. The clock is an argument. What a theorem needs of them is a named
-- hypothesis: MatchesCompiled, DecodesBooleans, Covers, ParsesText, DeepEqualIsEqual,
-- HasUniqueFlags, HasOneRow, IsDrawn, IsKdf, AreSecrets.
--
-- Fuel. `matchSegment` runs on one more than the number of segments: each nested call adds a key of
-- the index to those visited. The loop of `referencedSegments` runs on the number of references in
-- rules and segments: a key enters the queue once. The search of `ValidateSegmentSet` runs on two
-- more than the number of keys: each nested call visits a new key of the index. The digits of a
-- number are written on one more than the number.
--
-- State. A table is a list of rows. A statement or a transaction of the repository is one step, and
-- a cancellation is two, since the source reads and writes in two statements; so is the enabling of
-- a flag, where what happens between the two is an argument. The advisory lock makes a bootstrap one
-- step. A channel of the hub is an address in a store that the hub, the reader and the function
-- `cancel` share.
--
-- Not modelled. Failures of the database, time stamps of rows but those that are read, the checks of
-- the database on texts that the services' normalisation implies, the text of errors (an error is a
-- value with what its text is built from), nil slices as different from empty ones, the bodies of
-- HTTP requests and responses, the handlers of httpapi but those of auth.go, the services and the
-- repositories of flags, environments and projects, start-up, and the frontend.
pub mod Auth
pub mod Common
pub mod Evaluation
pub mod Flagconfig
pub mod Http
pub mod Sdkconfig
pub mod Targeting
pub mod Tests
