-- ===== src/Registry/Signing/Revoked.antt =====
-- A revoked key of src/registry/signing.ts.
use Prim.Native.String.{◌++◌ as concat}
use actjs.Registry.Signing.{
  concat, SigningKeys, MemoryRow, refused, add_key, revoke_key, verify_key, audit_change,
}
use actjs.Prelude.{
  Option-cases, ℕ, suc, String, ◌≡◌, not, refl, sym, ◌∙◌, Bool, true, false, Option, none, some,
  List, [], ◌∷◌, Bool-cases, inl, inr,
}
use actjs.Prelude.Keys.{string_keyed, nat_keyed, ◌==◌}
use actjs.Prelude.Outcome.{Outcome-cases, Outcome}
use actjs.Prelude.Map.{Map, get, set, has}
use actjs.Prelude.Map.Laws.{get-set, has-get, get-set_self}
use actjs.Audit.{Auditor, RecordInput}

-- A change of the keys: which key, its PEM text and the name of the principal
pub data Change : Type 0 where
  added : String → String → String → Change
  revoked : String → String → Change

module _ {Key : Type 0} where
  -- The rows have the key, as revoked.
  abbrev pub IsRevoked : Map String (MemoryRow Key) → String → Type 0
  IsRevoked rows kid =
      (row : MemoryRow Key) × ((t : ℕ) × ((get rows kid ≡ some row) × (row.revoked_at ≡ some t)))

  set-IsRevoked :
      (rows : Map String (MemoryRow Key)) (other kid : String) (new : MemoryRow Key)
      → (other == kid) ≡ false
      → IsRevoked rows kid
      → IsRevoked (set rows other new) kid
  set-IsRevoked rows other kid new differs h =
      (h.0, (h.1.0, (rw (get-set rows other kid new, differs) h.1.1.0, h.1.1.1)))

  -- A row that is missing or not revoked is another key's.
  other_key :
      (rows : Map String (MemoryRow Key)) (other kid : String)
      → IsRevoked rows kid
      → ((row : MemoryRow Key) → get rows other ≡ some row → row.revoked_at ≡ none)
      → (other == kid) ≡ false
  other_key rows other kid h live = elim (Bool-cases (other == kid)) [
    | inl same ↦
        (let eq : other ≡ kid = (string_keyed.same_key_iff other kid).0 same in
          let there : get rows other ≡ some h.0 = rw eq h.1.1.0 in
          let no : none ≡ some h.1.0 = sym (live h.0 there) ∙ h.1.1.1 in cc)
    | inr differs ↦ differs
  ]

module _ {Key E V : Type 0} where
  audit_change-rows :
      (auditor : Option (Auditor E V)) (n : ℕ) (input : RecordInput V) (keys : SigningKeys Key V)
      → (audit_change auditor n input keys).1.rows ≡ keys.rows
  audit_change-rows none n input keys = refl
  audit_change-rows (some auditor) n input keys = refl

  -- The rows that a revocation leaves
  revoke_key-rows :
      (auditor : Option (Auditor E V)) (meta : ℕ → V) (n now : ℕ) (kid by : String)
      (keys : SigningKeys Key V) (row : MemoryRow Key)
      → get keys.rows kid ≡ some row
      → row.revoked_at ≡ none
      → (revoke_key auditor meta n now kid by keys).1.rows
        ≡ set keys.rows kid (record row { revoked_at = some now })
  unfolding revoke_key
  revoke_key-rows auditor meta n now kid by keys row there live =
      rw (revoke_key, there, live) (audit_change-rows auditor n _ _)

  revoke_key-revokes :
      (auditor : Option (Auditor E V)) (meta : ℕ → V) (n now : ℕ) (kid by : String)
      (keys : SigningKeys Key V) (row : MemoryRow Key)
      → get keys.rows kid ≡ some row
      → IsRevoked (revoke_key auditor meta n now kid by keys).1.rows kid
  unfolding revoke_key
  revoke_key-revokes auditor meta n now kid by keys row there = elim (Option-cases row.revoked_at) [
    | inl live ↦
        let new : MemoryRow Key = record row { revoked_at = some now } in
        (
          new,
          (
            now,
            (
              rw (revoke_key-rows auditor meta n now kid by keys row there live)
                  (get-set_self keys.rows kid new),
              refl,
            ),
          ),
        )
    | inr (t, old) ↦
        let same : (revoke_key auditor meta n now kid by keys).1.rows ≡ keys.rows =
          rw (revoke_key, there, old) refl in
        (row, (t, (rw same there, old)))
  ]

  revoke_key-IsRevoked :
      (auditor : Option (Auditor E V)) (meta : ℕ → V) (n now : ℕ) (other by kid : String)
      (keys : SigningKeys Key V)
      → IsRevoked keys.rows kid
      → IsRevoked (revoke_key auditor meta n now other by keys).1.rows kid
  unfolding revoke_key
  revoke_key-IsRevoked auditor meta n now other by kid keys h =
      elim (Option-cases (get keys.rows other)) [
        | inl missing ↦ rw (revoke_key, missing) h
        | inr (row, there) ↦ elim (Option-cases row.revoked_at) [
          | inl live ↦ rw (revoke_key-rows auditor meta n now other by keys row there live) (
              set-IsRevoked keys.rows other kid (record row { revoked_at = some now })
                (other_key keys.rows other kid h
                  (λ r e. let same : row ≡ r = cc in rw (← same) live))
                h)
          | inr (t, old) ↦ rw (revoke_key, there, old) h
        ]
      ]

module _ {Key E V : Type 0} (create_public_key : String → Outcome String Key)
    (key_type : Key → String) where
  add_key-IsRevoked :
      (auditor : Option (Auditor E V)) (meta : V) (n now : ℕ) (other pem by kid : String)
      (keys : SigningKeys Key V)
      → IsRevoked keys.rows kid
      → IsRevoked
          (add_key create_public_key key_type auditor meta n now other pem by keys).1.rows
          kid
  unfolding add_key
  add_key-IsRevoked auditor meta n now other pem by kid keys h =
      elim (Bool-cases (has keys.rows other)) [
        | inl old ↦ rw (add_key, old) h
        | inr fresh ↦ elim (Outcome-cases (create_public_key pem)) [
          | inl (e, bad) ↦ rw (add_key, fresh, bad) h
          | inr (key, good) ↦ elim (Bool-cases (not (key_type key == "ed25519"))) [
            | inl wrong ↦ rw (add_key, fresh, good, wrong) h
            | inr right ↦
                let new : MemoryRow Key = record {
                  public_key = key;
                  public_key_pem = pem;
                  added_at = now;
                  revoked_at = none;
                } in
                let rows : (add_key create_public_key key_type auditor meta n now other pem by
                      keys).1.rows
                    ≡ set keys.rows other new =
                  rw (add_key, fresh, good, right) (audit_change-rows auditor n _ _) in
                rw rows (
                  set-IsRevoked keys.rows other kid new
                    (other_key keys.rows other kid h (λ r e.
                      let no : true ≡ false = sym (has-get keys.rows other ∙ rw e refl) ∙ fresh in
                      cc))
                    h)
          ]
        ]
      ]

  -- A run of changes from call `n` of the auditor on, the time given by the call
  unfoldable pub run :
      Option (Auditor E V)
      → V
      → (ℕ → V)
      → (ℕ → ℕ)
      → ℕ
      → List Change
      → SigningKeys Key V
      → SigningKeys Key V
  run auditor meta revoked_meta clock n [] keys = keys
  run auditor meta revoked_meta clock n (added kid pem by ∷ cs) keys =
      run auditor meta revoked_meta clock (suc n) cs
        (add_key create_public_key key_type auditor meta n (clock n) kid pem by keys).1
  run auditor meta revoked_meta clock n (revoked kid by ∷ cs) keys =
      run auditor meta revoked_meta clock (suc n) cs
        (revoke_key auditor revoked_meta n (clock n) kid by keys).1

  run-IsRevoked :
      (auditor : Option (Auditor E V)) (meta : V) (revoked_meta : ℕ → V) (clock : ℕ → ℕ) (n : ℕ)
      (cs : List Change) (keys : SigningKeys Key V) (kid : String)
      → IsRevoked keys.rows kid
      → IsRevoked (run auditor meta revoked_meta clock n cs keys).rows kid
  unfolding run
  run-IsRevoked auditor meta revoked_meta clock n [] keys kid h = h
  run-IsRevoked auditor meta revoked_meta clock n (added other pem by ∷ cs) keys kid h =
      run-IsRevoked auditor meta revoked_meta clock (suc n) cs _ kid
        (add_key-IsRevoked auditor meta n (clock n) other pem by kid keys h)
  run-IsRevoked auditor meta revoked_meta clock n (revoked other by ∷ cs) keys kid h =
      run-IsRevoked auditor meta revoked_meta clock (suc n) cs _ kid
        (revoke_key-IsRevoked auditor revoked_meta n (clock n) other by kid keys h)

  -- A key that is revoked verifies no signature any more, whatever keys are added and revoked after it, the same
  -- name included.
  pub verify_key-revoke_key :
      (node_verify : String → Key → List ℕ → Outcome String Bool) (auditor : Option (Auditor E V))
      (meta : V) (revoked_meta : ℕ → V) (clock : ℕ → ℕ) (n : ℕ) (cs : List Change)
      (keys : SigningKeys Key V) (kid by : String) (row : MemoryRow Key) (message : String)
      (signature : List ℕ)
      → get keys.rows kid ≡ some row
      → verify_key node_verify
          (run auditor meta revoked_meta clock n (revoked kid by ∷ cs) keys)
          (record { kid = kid; message = message; signature = signature })
        ≡ refused (concat "signing key " (concat kid " is revoked"))
  unfolding verify_key run
  verify_key-revoke_key node_verify auditor meta revoked_meta clock n cs keys kid by row message
        signature there =
      let h =
        run-IsRevoked auditor meta revoked_meta clock (suc n) cs
          (revoke_key auditor revoked_meta n (clock n) kid by keys).1 kid
          (revoke_key-revokes auditor revoked_meta n (clock n) kid by keys row there) in
      rw (verify_key, h.1.1.0, h.1.1.1) refl
