-- ===== src/Registry/PublishExamples.antt =====
-- Publishes and signing keys of src/registry at concrete inputs.
use actjs.Audit.{AuditWriteError, strict, noop_auditor, record_audit, audit_write_failed}
use actjs.Prelude.{◌⊎◌, String, ◌≡◌, refl, true, false, Option, none, some, [], ◌∷◌}
use actjs.Prelude.Keys.{string_keyed, nat_keyed}
use actjs.Prelude.Outcome.{ok, throw}
use actjs.Prelude.Map.{get, set, has}
use actjs.Storage.Driver.{new_driver}
use actjs.Registry.Signing.{SigningKeys, MemoryRow, verified, refused, verify_key}
use actjs.Registry.Signing.Revoked.{added, revoked, run, verify_key-revoke_key}
use actjs.Registry.Publisher.{
  Tools, Meta, PublishInput, PublishOptions, Signature, text, publish, validate_publish, check_deps,
  find_forbidden_import, parse_typescript, verify_signature, signing_message, not_published,
  signature_required, audit_failed, storage_input,
}
use actjs.Registry.Publisher.Effects.{
  IsSigned, publish-throws, publish-IsSigned, publish-audit_failed,
}
use actjs.Storage.Classes

abbrev plain_tools : Tools
plain_tools = record {
  valid = λ v. true;
  valid_range = λ r. true;
  satisfies = λ v r. true;
  encode = λ s. 1 ∷ 2 ∷ [];
  decode = λ b. "text";
  sha256 = λ b. "digest";
  strip_line_comments = λ s. s;
  strip_block_comments = λ s. s;
  match_import = λ s. none;
  trim = λ s. s;
  parse_diagnostics = λ name s. [];
}

abbrev text_meta : Meta String
text_meta = record { class_published = λ sha f e by. sha; class_signed = λ sha kid. kid }

abbrev cart_input : Option Signature → PublishInput
cart_input signature = record {
  name = "Cart";
  version = "1.0.0";
  source = text "class Cart {}";
  deps = none;
  engines = none;
  floating = none;
  event_sourced = none;
  principal = some "ada";
  signature = signature;
}

abbrev by_release : Signature
by_release = record { kid = "release"; signature = 7 ∷ [] }

abbrev signed_only : PublishOptions String String
signed_only = record {
  auditor = none;
  signing_keys = some (λ i. verified);
  require_signed_classes = true;
}

publish-throws_example :
    ((publish plain_tools text_meta noop_auditor signed_only 5 (cart_input none) new_driver).1
      ≡ new_driver)
    ⊎ ((e : AuditWriteError String) × (not_published signature_required ≡ audit_failed e))
unfolding publish validate_publish check_deps find_forbidden_import parse_typescript
    verify_signature
publish-throws_example =
    publish-throws plain_tools text_meta noop_auditor signed_only 5 (cart_input none) new_driver
      (not_published signature_required) refl

publish-IsSigned_example : IsSigned plain_tools text_meta signed_only (cart_input (some by_release))
unfolding publish validate_publish check_deps find_forbidden_import parse_typescript
    verify_signature signing_message Classes.publish_class get set has
publish-IsSigned_example =
    publish-IsSigned plain_tools text_meta noop_auditor signed_only 5 (cart_input (some by_release))
      new_driver (record { sha256 = "digest"; signed_by = some "release" }) refl refl

abbrev open_server : PublishOptions String String
open_server = record { auditor = none; signing_keys = none; require_signed_classes = false }

publish-audit_failed_example :
    ((publish plain_tools text_meta
        (record_audit "" (λ entry d. throw "disk full") strict (λ n. "id") (λ n. n))
        open_server
        5
        (cart_input none)
        new_driver).0
      ≡ throw (audit_failed (audit_write_failed "class.published" "Cart@1.0.0" "disk full")))
    × (get
          (publish plain_tools text_meta
            (record_audit "" (λ entry d. throw "disk full") strict (λ n. "id") (λ n. n))
            open_server
            5
            (cart_input none)
            new_driver).1.class_versions
          "Cart@1.0.0"
        ≡ some (Classes.record_for 5 (storage_input plain_tools (cart_input none) none)))
unfolding validate_publish check_deps find_forbidden_import parse_typescript verify_signature has
publish-audit_failed_example =
    publish-audit_failed plain_tools text_meta "" "disk full" (λ n. "id") (λ n. n) open_server 5
      (cart_input none) new_driver none refl refl refl refl

abbrev release_row : MemoryRow String
release_row = record { public_key = "key"; public_key_pem = "pem"; added_at = 1; revoked_at = none }

abbrev one_key : SigningKeys String String
one_key = record { rows = ("release", release_row) ∷ []; driver = new_driver }

verify_key-revoke_key_example :
    verify_key
      (λ message key signature. ok true)
      (run {E = String}
        (λ pem. ok "key")
        (λ key. "ed25519")
        none
        ""
        (λ t. "")
        (λ n. n)
        3
        (revoked "release" "ada" ∷ added "release" "pem" "eve" ∷ [])
        one_key)
      (record { kid = "release"; message = "m"; signature = 7 ∷ [] })
    ≡ refused "signing key release is revoked"
unfolding get
verify_key-revoke_key_example =
    verify_key-revoke_key (λ pem. ok "key") (λ key. "ed25519") (λ message key signature. ok true)
      none "" (λ t. "") (λ n. n) 3 (added "release" "pem" "eve" ∷ []) one_key "release" "ada"
      release_row "m" (7 ∷ []) refl
