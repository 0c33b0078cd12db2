-- ===== src/Registry/Signing.antt =====
-- `MemorySigningKeyRegistry` of src/registry/signing.ts. Of node's crypto, `create_public_key` reads a
-- PEM text or throws a message, `key_type` is the key's `asymmetricKeyType`, and `node_verify` checks
-- a signature or throws a message. The time of a change is an argument.
pub mod Revoked
use actjs.Prelude.{
  ℕ, zero, suc, ◌+◌, ◌-◌, ◌≤◌, ◌<◌, String, ◌≡◌, ◌≢◌, ◌&&◌, not, refl, ap, sym, ◌∙◌, Bool, true,
  false, Option, none, some, List, [], ◌∷◌, ◌++◌, map, length, leb, ltb, nat_beq, get_or, arith,
  if◌then◌else◌, Bool-cases, inl, inr,
}
use actjs.Prelude.Keys.{string_keyed, nat_keyed, ◌==◌}
use actjs.Prelude.Outcome.{Outcome, Attempt, ok, throw}
use actjs.Prelude.Map.{Map, get, set, has}
use Prim.Native.String.{◌++◌ as concat}
use actjs.Storage.Driver.{Driver}
use actjs.Audit.{Auditor, AuditWriteError, Audited, RecordInput, named}

pub data VerifyResult : Type 0 where
  verified : VerifyResult
  refused : String → VerifyResult

pub record SigningKeyVerifyInput : Type 0 where
  pub kid : String
  pub signature : List ℕ
  pub message : String

-- `not_a_key` is what `createPublicKey` throws.
pub data SigningKeyError (E : Type 0) : Type 0 where
  signing_key_exists signing_key_not_found unsupported_key_type not_a_key :
      String → SigningKeyError E
  audit_failed : AuditWriteError E → SigningKeyError E

pub record MemoryRow (Key : Type 0) : Type 0 where
  pub public_key : Key
  pub public_key_pem : String
  pub added_at : ℕ
  pub revoked_at : Option ℕ

pub record SigningKeyRecord : Type 0 where
  pub kid : String
  pub public_key_pem : String
  pub added_at : ℕ
  pub revoked_at : Option ℕ

-- The registry's rows, and the driver that its auditor writes to
pub record SigningKeys (Key V : Type 0) : Type 0 where
  pub rows : Map String (MemoryRow Key)
  pub driver : Driver V

module _ {Key : Type 0} where
  abbrev pub to_record : String → MemoryRow Key → SigningKeyRecord
  to_record kid row = record {
    kid = kid;
    public_key_pem = row.public_key_pem;
    added_at = row.added_at;
    revoked_at = row.revoked_at;
  }

module _ {Key V : Type 0} where
  unfoldable pub get_key : SigningKeys Key V → String → Option SigningKeyRecord
  get_key keys kid = elim (get keys.rows kid) [ none ↦ none | some row ↦ some (to_record kid row) ]

  unfoldable pub list_keys : SigningKeys Key V → List SigningKeyRecord
  list_keys keys = map (λ (r : String × MemoryRow Key). to_record r.0 r.1) keys.rows

module _ {Key E V : Type 0} where
  abbrev pub audited :
      SigningKeys Key V → Audited E V → Attempt (SigningKeyError E) × SigningKeys Key V
  audited keys a = (
    elim a.outcome [ ok _ ↦ ok tt | throw e ↦ throw (audit_failed e) ],
    record keys { driver = a.driver },
  )

  abbrev pub audit_change :
      Option (Auditor E V)
      → ℕ
      → RecordInput V
      → SigningKeys Key V
      → Attempt (SigningKeyError E) × SigningKeys Key V
  audit_change none n input keys = (ok tt, keys)
  audit_change (some auditor) n input keys = audited keys (auditor n input keys.driver)

  -- The second argument is the metadata of the audit entry.
  unfoldable pub revoke_key :
      Option (Auditor E V)
      → (ℕ → V)
      → ℕ
      → ℕ
      → String
      → String
      → SigningKeys Key V
      → Attempt (SigningKeyError E) × SigningKeys Key V
  revoke_key auditor meta n now kid revoked_by keys = elim (get keys.rows kid) [
    | none ↦ (throw (signing_key_not_found kid), keys)
    | some row ↦ elim row.revoked_at [
      | some t ↦ (ok tt, keys)
      | none ↦
          audit_change auditor n
            (record {
              action = "signing-key.revoked";
              target = kid;
              meta = some (meta now);
              principal = named revoked_by;
            })
            (record keys { rows = set keys.rows kid (record row { revoked_at = some now }) })
    ]
  ]

module _ {Key E V : Type 0} (create_public_key : String → Outcome String Key)
    (key_type : Key → String) where
  unfoldable pub add_key :
      Option (Auditor E V)
      → V
      → ℕ
      → ℕ
      → String
      → String
      → String
      → SigningKeys Key V
      → Attempt (SigningKeyError E) × SigningKeys Key V
  add_key auditor meta n now kid public_key_pem added_by keys =
      if has keys.rows kid
      then (throw (signing_key_exists kid), keys)
      else elim (create_public_key public_key_pem) [
        | throw e ↦ (throw (not_a_key e), keys)
        | ok public_key ↦
            if not (key_type public_key == "ed25519")
            then (throw (unsupported_key_type (key_type public_key)), keys)
            else audit_change auditor n
                (record {
                  action = "signing-key.added";
                  target = kid;
                  meta = some meta;
                  principal = named added_by;
                })
                (record keys {
                  rows = set keys.rows kid (record {
                    public_key = public_key;
                    public_key_pem = public_key_pem;
                    added_at = now;
                    revoked_at = none;
                  });
                })
      ]

abbrev pub checked : Outcome String Bool → VerifyResult
checked (ok true) = verified
checked (ok false) = refused "signature does not verify"
checked (throw e) = refused e

module _ {Key V : Type 0} (node_verify : String → Key → List ℕ → Outcome String Bool) where
  unfoldable pub verify_key : SigningKeys Key V → SigningKeyVerifyInput → VerifyResult
  verify_key keys input = elim (get keys.rows input.kid) [
    | none ↦ refused (concat "signing key " (concat input.kid " not found"))
    | some row ↦ elim row.revoked_at [
      | some t ↦ refused (concat "signing key " (concat input.kid " is revoked"))
      | none ↦ checked (node_verify input.message row.public_key input.signature)
    ]
  ]
