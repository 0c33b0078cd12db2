-- ===== src/Registry/Publisher.antt =====
-- src/registry/publisher.ts over the memory driver. `Tools` has what the code takes from semver,
-- typescript, node and the regular expressions of JavaScript; `Meta` makes the metadata objects of
-- the audit entries.
pub mod Effects
use actjs.Prelude.{
  ℕ, zero, suc, ◌+◌, ◌-◌, ◌≤◌, ◌<◌, String, ◌≡◌, ◌≢◌, ◌&&◌, not, refl, ap, sym, ◌∙◌, Bool, true,
  false, Option, none, some, List, [], ◌∷◌, ◌++◌, map, length, leb, ltb, nat_beq, get_or, arith,
  if◌then◌else◌, Bool-cases, inl, inr,
}
use actjs.Prelude.Keys.{string_keyed, nat_keyed, ◌==◌}
use actjs.Prelude.Outcome.{Outcome, Attempt, ok, throw, ◌>>=◌, ◌>>◌}
use actjs.Prelude.Map.{Map, get}
use Prim.Native.String.{◌++◌ as concat}
use actjs.Storage.Types.{PublishClassInput, DepsMap, StorageError}
use actjs.Storage.Driver.{Driver}
use actjs.Storage.Classes
use actjs.Audit.{Auditor, AuditWriteError, Audited, RecordInput, named}
use actjs.Registry.Signing.{VerifyResult, verified, refused, SigningKeyVerifyInput}

pub data Source : Type 0 where
  text : String → Source
  bytes : List ℕ → Source

pub record Signature : Type 0 where
  pub kid : String
  pub signature : List ℕ

pub record PublishInput : Type 0 where
  pub name : String
  pub version : String
  pub source : Source
  pub deps : Option DepsMap
  pub engines : Option (Map String String)
  pub floating : Option Bool
  pub event_sourced : Option Bool
  pub principal : Option String
  pub signature : Option Signature

pub data PublishError : Type 0 where
  invalid_version : String → PublishError
  invalid_dep_range : String → String → PublishError
  incompatible_engine : String → String → PublishError
  syntax_invalid : List String → PublishError
  forbidden_import : String → PublishError
  signature_required : PublishError
  signature_invalid : String → PublishError

-- What `publishClass` throws
pub data PublishFailure (E : Type 0) : Type 0 where
  not_published : PublishError → PublishFailure E
  storage_failed : StorageError → PublishFailure E
  audit_failed : AuditWriteError E → PublishFailure E

pub record Tools : Type 0 where
  pub valid : String → Bool
  pub valid_range : String → Bool
  pub satisfies : String → String → Bool
  pub encode : String → List ℕ
  pub decode : List ℕ → String
  pub sha256 : List ℕ → String
  pub strip_line_comments : String → String
  pub strip_block_comments : String → String
  pub match_import : String → Option String
  pub trim : String → String
  pub parse_diagnostics : String → String → List String

pub record Meta (V : Type 0) : Type 0 where
  pub class_published : String → Bool → Bool → Option String → V
  pub class_signed : String → String → V

pub record PublishOptions (E V : Type 0) : Type 0 where
  pub auditor : Option (Auditor E V)
  pub signing_keys : Option (SigningKeyVerifyInput → VerifyResult)
  pub require_signed_classes : Bool

pub record Published : Type 0 where
  pub sha256 : String
  pub signed_by : Option String

-- `SERVER_ACTJS_VERSION`
abbrev pub server_version : String
server_version = "0.3.0"

abbrev pub engine_range : Option (Map String String) → Option String
engine_range none = none
engine_range (some engines) = get engines "actjs"

unfoldable pub signing_message : String → String → String → String
signing_message sha name version =
    concat "sha256:" (concat sha (concat "|" (concat name (concat "@" version))))

module _ (tools : Tools) where
  unfoldable pub check_deps : List (String × String) → Attempt PublishError
  check_deps [] = ok tt
  check_deps (d ∷ ds) =
      let rest = check_deps ds in
      if d.0 == ""
      then throw (invalid_dep_range d.0 d.1)
      else if not (tools.valid_range d.1)
      then throw (invalid_dep_range d.0 d.1)
      else rest

  abbrev pub check_engine : Option String → Attempt PublishError
  check_engine none = ok tt
  check_engine (some range) =
      if not (tools.valid_range range)
      then throw (incompatible_engine range server_version)
      else if not (tools.satisfies server_version range)
      then throw (incompatible_engine range server_version)
      else ok tt

  abbrev pub trimmed : Option String → Option String
  trimmed none = none
  trimmed (some m) = some (tools.trim m)

  unfoldable pub find_forbidden_import : String → Option String
  find_forbidden_import source =
      trimmed (tools.match_import (tools.strip_block_comments (tools.strip_line_comments source)))

  unfoldable pub parse_typescript : String → String → List String
  parse_typescript source name = tools.parse_diagnostics (concat name ".ts") source

  abbrev pub source_str : Source → String
  source_str (text s) = s
  source_str (bytes b) = tools.decode b

  abbrev pub source_buf : Source → List ℕ
  source_buf (text s) = tools.encode s
  source_buf (bytes b) = b

  abbrev pub check_import : Option String → Attempt PublishError
  check_import none = ok tt
  check_import (some statement) =
      if statement == "" then ok tt else throw (forbidden_import statement)

  abbrev pub check_syntax : List String → Attempt PublishError
  check_syntax [] = ok tt
  check_syntax (d ∷ ds) = throw (syntax_invalid (d ∷ ds))

  abbrev pub check_version : String → Attempt PublishError
  check_version version =
      if not (tools.valid version) then throw (invalid_version version) else ok tt

  unfoldable pub validate_publish : PublishInput → Attempt PublishError
  unfolding check_deps find_forbidden_import parse_typescript
  validate_publish input =
      check_version input.version
      >> check_deps (get_or input.deps [])
      >> check_engine (engine_range input.engines)
      >> check_import (find_forbidden_import (source_str input.source))
      >> check_syntax (parse_typescript (source_str input.source) input.name)

  abbrev pub checked_signature : String → VerifyResult → Outcome PublishError (Option String)
  checked_signature kid verified = ok (some kid)
  checked_signature kid (refused reason) = throw (signature_invalid reason)

  -- The name of the key that signed, when there is a signature
  unfoldable pub verify_signature :
      Option (SigningKeyVerifyInput → VerifyResult)
      → Bool
      → String
      → PublishInput
      → Outcome PublishError (Option String)
  unfolding signing_message
  verify_signature keys require sha input = elim input.signature [
    | none ↦ if require then throw signature_required else ok none
    | some s ↦ elim keys [
      | none ↦ throw (signature_invalid "no signing-key registry configured on the server")
      | some verify ↦ checked_signature s.kid (
          verify (record {
            kid = s.kid;
            signature = s.signature;
            message = signing_message sha input.name input.version;
          }))
    ]
  ]

  abbrev pub storage_input : PublishInput → Option String → PublishClassInput
  storage_input input signed_by = record {
    name = input.name;
    version = input.version;
    source = source_buf input.source;
    deps = get_or input.deps [];
    engines = get_or input.engines [];
    floating = input.floating;
    event_sourced = input.event_sourced;
    signed_by = signed_by;
  }

  module _ {V : Type 0} (meta : Meta V) where
    abbrev pub class_published : PublishInput → String → Option String → RecordInput V
    class_published input sha signed_by = record {
      action = "class.published";
      target = concat input.name (concat "@" input.version);
      meta = some (
          meta.class_published sha (get_or input.floating false) (get_or input.event_sourced false)
            signed_by);
      principal = named (get_or input.principal "system");
    }

    abbrev pub class_signed : PublishInput → String → String → RecordInput V
    class_signed input sha kid = record {
      action = "class.signed";
      target = concat input.name (concat "@" input.version);
      meta = some (meta.class_signed sha kid);
      principal = named (get_or input.principal "system");
    }

  -- A key's name that is empty counts as none.
  abbrev pub truthy : Option String → Option String
  truthy none = none
  truthy (some kid) = if kid == "" then none else some kid

  module _ {E V : Type 0} (meta : Meta V) where
    abbrev pub returned : Published → Audited E V → Outcome (PublishFailure E) Published × Driver V
    returned out a = (elim a.outcome [ throw e ↦ throw (audit_failed e) | ok _ ↦ ok out ], a.driver)

    abbrev pub signed_entry :
        Auditor E V
        → PublishInput
        → String
        → Option String
        → Audited E V
        → Outcome (PublishFailure E) Published × Driver V
    signed_entry auditor input sha none a = returned (record { sha256 = sha; signed_by = none }) a
    signed_entry auditor input sha (some kid) a = elim a.outcome [
      | throw e ↦ (throw (audit_failed e), a.driver)
      | ok _ ↦
          returned (record { sha256 = sha; signed_by = some kid })
            (auditor 1 (class_signed meta input sha kid) a.driver)
    ]

    abbrev pub stored :
        Auditor E V
        → PublishInput
        → String
        → Option String
        → Driver V
        → Outcome StorageError (Driver V)
        → Outcome (PublishFailure E) Published × Driver V
    stored auditor input sha signed_by d (throw e) = (throw (storage_failed e), d)
    stored auditor input sha signed_by d (ok d') =
        signed_entry auditor input sha signed_by
          (auditor 0 (class_published meta input sha signed_by) d')

    abbrev pub admitted :
        Auditor E V
        → ℕ
        → PublishInput
        → String
        → Driver V
        → Outcome PublishError (Option String)
        → Outcome (PublishFailure E) Published × Driver V
    admitted auditor now input sha d (throw e) = (throw (not_published e), d)
    admitted auditor now input sha d (ok signed_by) =
        stored auditor input sha (truthy signed_by) d
          (Classes.publish_class d now (storage_input input (truthy signed_by)))

    -- `now` is the time of the driver. `strict_auditor` is `new Auditor(driver, { mode: 'strict' })`.
    unfoldable pub publish :
        Auditor E V
        → PublishOptions E V
        → ℕ
        → PublishInput
        → Driver V
        → Outcome (PublishFailure E) Published × Driver V
    unfolding validate_publish verify_signature
    publish strict_auditor options now input d =
        let sha = tools.sha256 (source_buf input.source) in
        admitted (get_or options.auditor strict_auditor) now input sha d (
          validate_publish input
          >> verify_signature options.signing_keys options.require_signed_classes sha input)
