-- ===== src/Server/Errors.antt =====
-- src/server/errors.ts: how an error becomes a problem detail. `Thrown` has the classes of errors that the code
-- tells apart, with their message; a subclass of `PublishError` or `ResolverError` that has no case of its own is
-- its parent. The extra fields of the details, but the seconds of a rate limit, are left out.
use Prim.Native.String.{◌++◌ as concat}
use actjs.Prelude.{ℕ, String, Option, none, some, get_or}
use actjs.Prelude.Keys.{string_keyed, nat_keyed}

pub data ThrownError : Type 0 where
  zod_error : ThrownError
  -- the error's name, its status and its message
  status_error : String → ℕ → String → ThrownError
  version_already_published syntax_invalid forbidden_import : String → ThrownError
  invalid_version invalid_dep_range incompatible_engine : String → ThrownError
  -- the code and the message of another `PublishError`
  publish_error : String → String → ThrownError
  dep_conflict : String → ThrownError
  resolver_error : String → String → ThrownError
  mailbox_full : String → ThrownError
  rate_limited : ℕ → String → ThrownError
  capacity_exhausted policy_denied manifest_regression : String → ThrownError
  class_version_expired compile_error : String → ThrownError
  loader_error : String → String → ThrownError
  -- a validation error of Fastify, with its status if it has one
  validation_error : Option ℕ → String → ThrownError
  unknown_error : String → ThrownError

pub record ProblemDetail : Type 0 where
  pub type : String
  pub status : ℕ
  pub code : String
  pub detail : String

abbrev pub error_type : String → String
error_type code = concat "https://actjs.dev/errors/" code

abbrev pub wrap : String → ℕ → String → ProblemDetail
wrap message status code = record {
  type = error_type code;
  status = status;
  code = code;
  detail = message;
}

unfoldable pub problem_detail_for : ThrownError → ProblemDetail
problem_detail_for zod_error =
    wrap "one or more request fields failed validation" 400 "SchemaInvalid"
problem_detail_for (status_error name status message) = wrap message status name
problem_detail_for (version_already_published m) = wrap m 409 "VersionAlreadyPublished"
problem_detail_for (syntax_invalid m) = wrap m 400 "SyntaxInvalid"
problem_detail_for (forbidden_import m) = wrap m 400 "ForbiddenImport"
problem_detail_for (invalid_version m) = wrap m 400 "InvalidVersion"
problem_detail_for (invalid_dep_range m) = wrap m 400 "InvalidDepRange"
problem_detail_for (incompatible_engine m) = wrap m 400 "IncompatibleEngine"
problem_detail_for (publish_error code m) = wrap m 400 code
problem_detail_for (dep_conflict m) = wrap m 409 "DepConflict"
problem_detail_for (resolver_error code m) = wrap m 400 code
problem_detail_for (mailbox_full m) = wrap m 429 "MailboxFull"
problem_detail_for (rate_limited seconds m) = wrap m 429 "RateLimited"
problem_detail_for (capacity_exhausted m) = wrap m 503 "CapacityExhausted"
problem_detail_for (policy_denied m) = wrap m 403 "PolicyDenied"
problem_detail_for (manifest_regression m) = wrap m 409 "ManifestRegression"
problem_detail_for (class_version_expired m) = wrap m 410 "Gone"
problem_detail_for (compile_error m) = wrap m 500 "CompileError"
problem_detail_for (loader_error code m) = wrap m 500 code
problem_detail_for (validation_error status m) = wrap m (get_or status 400) "SchemaInvalid"
problem_detail_for (unknown_error m) = wrap m 500 "InternalError"

-- What `handleError` replies: the detail, and the `Retry-After` header
unfoldable pub handle_error : ThrownError → ProblemDetail × Option ℕ
unfolding problem_detail_for
handle_error (rate_limited seconds m) = (problem_detail_for (rate_limited seconds m), some seconds)
handle_error e = (problem_detail_for e, none)
