-- ===== src/Registry/Publisher/Effects.antt =====
-- What a publish of src/registry/publisher.ts changes, and what it asks for.
use Prim.Native.String.{◌++◌ as concat}
use actjs.Registry.Publisher.{
  concat, class_published, storage_input, class_signed, returned, source_buf, PublishInput,
  PublishOptions, Published, PublishFailure, PublishError, Signature, Tools, Meta, publish,
  admitted, stored, signed_entry, truthy, checked_signature, verify_signature, validate_publish,
  signing_message, audit_failed,
}
use actjs.Prelude.{
  Option-cases, ◌⊎◌, ℕ, String, ◌≡◌, refl, true, false, Option, none, some, get_or, inl, inr,
}
use actjs.Prelude.Outcome.{>>-eq-ok, Outcome, ok, throw, Outcome-cases, ◌>>◌}
use actjs.Prelude.Keys.{string_keyed, nat_keyed}
use actjs.Prelude.Map.{get, has}
use actjs.Storage.Types.{StorageError}
use actjs.Storage.Driver.{Driver}
use actjs.Audit.{Auditor, AuditWriteError, Audited, strict, record_audit, audit_write_failed}
use actjs.Prelude.Map.Laws.{get-set_self}
use actjs.Registry.Signing.{VerifyResult, verified, refused, SigningKeyVerifyInput}
use actjs.Storage.Classes

module _ (tools : Tools) where
  checked-ok :
      (kid : String) (r : VerifyResult) (signed_by : Option String)
      → checked_signature tools kid r ≡ ok signed_by
      → r ≡ verified
  checked-ok kid verified signed_by h = refl
  checked-ok kid (refused reason) signed_by h = cc

module _ (tools : Tools) {E V : Type 0} (meta : Meta V) where
  returned-throws :
      (out : Published) (a : Audited E V) (f : PublishFailure E)
      → (returned tools meta out a).0 ≡ throw f
      → (e : AuditWriteError E) × (f ≡ audit_failed e)
  returned-throws out a f h = elim (Outcome-cases a.outcome) [
    | inl (e, bad) ↦
        (let same : ◌≡◌ {A = Outcome (PublishFailure E) Published} (throw (audit_failed e))
              (throw f) =
            rw bad at h in
          (e, cc))
    | inr (u, good) ↦
        (let no : ◌≡◌ {A = Outcome (PublishFailure E) Published} (ok out) (throw f) =
            rw good at h in
          cc)
  ]

  signed_entry-throws :
      (auditor : Auditor E V) (input : PublishInput) (sha : String) (signed_by : Option String)
      (a : Audited E V) (f : PublishFailure E)
      → (signed_entry tools meta auditor input sha signed_by a).0 ≡ throw f
      → (e : AuditWriteError E) × (f ≡ audit_failed e)
  signed_entry-throws auditor input sha none a f h =
      returned-throws (record { sha256 = sha; signed_by = none }) a f h
  signed_entry-throws auditor input sha (some kid) a f h = elim (Outcome-cases a.outcome) [
    | inl (e, bad) ↦
        (let same : ◌≡◌ {A = Outcome (PublishFailure E) Published} (throw (audit_failed e))
              (throw f) =
            rw bad at h in
          (e, cc))
    | inr (u, good) ↦
        returned-throws (record { sha256 = sha; signed_by = some kid })
          (auditor 1 (class_signed tools meta input sha kid) a.driver) f (rw good at h)
  ]

  stored-throws :
      (auditor : Auditor E V) (input : PublishInput) (sha : String) (signed_by : Option String)
      (d : Driver V) (o : Outcome StorageError (Driver V)) (f : PublishFailure E)
      → (stored tools meta auditor input sha signed_by d o).0 ≡ throw f
      → ((stored tools meta auditor input sha signed_by d o).1 ≡ d)
        ⊎ ((e : AuditWriteError E) × (f ≡ audit_failed e))
  stored-throws auditor input sha signed_by d (throw e) f h = inl refl
  stored-throws auditor input sha signed_by d (ok d') f h = inr (
      signed_entry-throws auditor input sha signed_by
        (auditor 0 (class_published tools meta input sha signed_by) d') f h)

  admitted-throws :
      (auditor : Auditor E V) (now : ℕ) (input : PublishInput) (sha : String) (d : Driver V)
      (o : Outcome PublishError (Option String)) (f : PublishFailure E)
      → (admitted tools meta auditor now input sha d o).0 ≡ throw f
      → ((admitted tools meta auditor now input sha d o).1 ≡ d)
        ⊎ ((e : AuditWriteError E) × (f ≡ audit_failed e))
  admitted-throws auditor now input sha d (throw e) f h = inl refl
  admitted-throws auditor now input sha d (ok signed_by) f h =
      stored-throws auditor input sha (truthy tools signed_by) d
        (Classes.publish_class d now (storage_input tools input (truthy tools signed_by))) f h

  -- A publish that throws leaves the driver as it was, whatever failed of the validation, the signature and
  -- the storage, unless what failed is the audit log.
  pub publish-throws :
      (strict_auditor : Auditor E V) (options : PublishOptions E V) (now : ℕ) (input : PublishInput)
      (d : Driver V) (f : PublishFailure E)
      → (publish tools meta strict_auditor options now input d).0 ≡ throw f
      → ((publish tools meta strict_auditor options now input d).1 ≡ d)
        ⊎ ((e : AuditWriteError E) × (f ≡ audit_failed e))
  unfolding publish
  publish-throws strict_auditor options now input d f h =
      admitted-throws (get_or options.auditor strict_auditor) now input
        (tools.sha256 (source_buf tools input.source)) d
        (validate_publish tools input
          >> verify_signature tools options.signing_keys options.require_signed_classes
              (tools.sha256 (source_buf tools input.source)) input)
        f h

  -- A signature of the class by a key that the registry of keys accepts
  pub record IsSigned (options : PublishOptions E V) (input : PublishInput) : Type 0 where
    pub signature : Signature
    pub verify : SigningKeyVerifyInput → VerifyResult
    pub given : input.signature ≡ some signature
    pub keys : options.signing_keys ≡ some verify
    pub accepted :
        verify (record {
          kid = signature.kid;
          signature = signature.signature;
          message =
              signing_message
                (tools.sha256 (source_buf tools input.source))
                input.name
                input.version;
        })
        ≡ verified

  verify_signature-IsSigned :
      (options : PublishOptions E V) (input : PublishInput) (signed_by : Option String)
      → options.require_signed_classes ≡ true
      → verify_signature tools options.signing_keys options.require_signed_classes
          (tools.sha256 (source_buf tools input.source))
          input
        ≡ ok signed_by
      → IsSigned options input
  unfolding verify_signature
  verify_signature-IsSigned options input signed_by required h =
      elim (Option-cases input.signature) [
        | inl missing ↦
            (let no : ◌≡◌ {A = Outcome PublishError (Option String)}
                  (throw PublishError.signature_required) (ok signed_by) =
                rw (missing, required) at h in
              cc)
        | inr (s, given) ↦ elim (Option-cases options.signing_keys) [
          | inl missing ↦
              (let no : ◌≡◌ {A = Outcome PublishError (Option String)}
                    (throw (
                      PublishError.signature_invalid
                        "no signing-key registry configured on the server"))
                    (ok signed_by) =
                  rw (given, missing) at h in
                cc)
          | inr (verify, keys) ↦ record {
            signature = s;
            verify = verify;
            given = given;
            keys = keys;
            accepted = checked-ok tools s.kid _ signed_by (rw (given, keys) at h);
          }
        ]
      ]

  admitted-ok :
      (auditor : Auditor E V) (now : ℕ) (input : PublishInput) (sha : String) (d : Driver V)
      (o : Outcome PublishError (Option String)) (out : Published)
      → (admitted tools meta auditor now input sha d o).0 ≡ ok out
      → (signed_by : Option String) × (o ≡ ok signed_by)
  admitted-ok auditor now input sha d (throw e) out h = cc
  admitted-ok auditor now input sha d (ok signed_by) out h = (signed_by, refl)

  -- A server that requires signed classes publishes a class only when the input has a signature, and the
  -- registry of keys accepts it for the digest of the source, the name and the version.
  pub publish-IsSigned :
      (strict_auditor : Auditor E V) (options : PublishOptions E V) (now : ℕ) (input : PublishInput)
      (d : Driver V) (out : Published)
      → options.require_signed_classes ≡ true
      → (publish tools meta strict_auditor options now input d).0 ≡ ok out
      → IsSigned options input
  unfolding publish
  publish-IsSigned strict_auditor options now input d out required h =
      let sha = tools.sha256 (source_buf tools input.source) in
      let checks =
        verify_signature tools options.signing_keys options.require_signed_classes sha input in
      let passed =
        admitted-ok (get_or options.auditor strict_auditor) now input sha d
          (validate_publish tools input >> checks) out h in
      verify_signature-IsSigned options input passed.0 required
        (>>-eq-ok (validate_publish tools input) checks passed.1)

module _ (tools : Tools) {E V : Type 0} (meta : Meta V) where
  -- When no auditor is configured, so that the publisher makes a strict one, and the audit log cannot be written,
  -- a publish of a new version whose validation and signature check pass, signed or not, throws, and
  -- yet the version is published.
  pub publish-audit_failed :
      (empty : V) (cause : E) (next_id : ℕ → String) (clock : ℕ → ℕ) (options : PublishOptions E V)
      (now : ℕ) (input : PublishInput) (d : Driver V) (signed_by : Option String)
      → options.auditor ≡ none
      → validate_publish tools input ≡ ok tt
      → verify_signature tools options.signing_keys options.require_signed_classes
          (tools.sha256 (source_buf tools input.source))
          input
        ≡ ok signed_by
      → has d.class_versions (Classes.class_key input.name input.version) ≡ false
      → (let done =
            publish tools meta
              (record_audit empty (λ entry e. throw cause) strict next_id clock)
              options
              now
              input
              d in
          (done.0
            ≡ throw (
                audit_failed (
                  audit_write_failed "class.published"
                    (concat input.name (concat "@" input.version))
                    cause)))
          × (get done.1.class_versions (Classes.class_key input.name input.version)
              ≡ some (Classes.record_for now (storage_input tools input (truthy tools signed_by)))))
  unfolding publish record_audit Classes.publish_class
  publish-audit_failed empty cause next_id clock options now input d signed_by own valid signature
        fresh =
      elim (Option-cases (truthy tools signed_by)) [
        | inl unsigned ↦
            rw (publish, own, valid, signature, Classes.publish_class, fresh, unsigned)
              (refl, get-set_self d.class_versions (Classes.class_key input.name input.version) _)
        | inr (kid, signed) ↦
            rw (publish, own, valid, signature, Classes.publish_class, fresh, signed)
              (refl, get-set_self d.class_versions (Classes.class_key input.name input.version) _)
      ]
