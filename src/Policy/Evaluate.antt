-- ===== src/Policy/Evaluate.antt =====
-- src/policy/evaluate.ts and src/policy/types.ts. `Action` is a `PolicyAction`, which only the class's
-- own policy looks at; that policy is a parameter, which returns a decision or throws a message.
use actjs.Prelude.{
  ◌⊎◌, ◌↔◌, String, ◌≡◌, not, refl, Bool, true, false, Option, none, some, inl, inr,
}
use Prim.Native.String.{◌++◌ as append}
use actjs.Prelude.Outcome.{Outcome, ok, throw}
use actjs.Policy.Principal.{Principal, is_anonymous}

pub data PolicyDecision : Type 0 where
  allow deny : PolicyDecision
  decided : Bool → Option String → PolicyDecision

pub record Verdict : Type 0 where
  pub allow : Bool
  pub reason : Option String

unfoldable pub is_authenticated : Principal → Bool
is_authenticated p = not (is_anonymous p)

unfoldable pub normalize_decision : PolicyDecision → Verdict
normalize_decision allow = record { allow = true; reason = none }
normalize_decision deny = record { allow = false; reason = none }
normalize_decision (decided b none) = record { allow = b; reason = none }
normalize_decision (decided b (some reason)) = record { allow = b; reason = some reason }

abbrev pub judged : Outcome String PolicyDecision → Verdict
judged (ok d) = normalize_decision d
judged (throw message) = record { allow = false; reason = some (append "policy threw: " message) }

judged-allow :
    (o : Outcome String PolicyDecision)
    → (judged o).allow ≡ true
    → (o ≡ ok allow) ⊎ ((r : Option String) × (o ≡ ok (decided true r)))
unfolding normalize_decision
judged-allow (ok allow) h = inl refl
judged-allow (ok deny) h = cc
judged-allow (ok (decided true r)) h = inr (r, refl)
judged-allow (ok (decided false none)) h = cc
judged-allow (ok (decided false (some r))) h = cc
judged-allow (throw m) h = cc

decided-allow : (r : Option String) → (normalize_decision (decided true r)).allow ≡ true
unfolding normalize_decision
decided-allow none = refl
decided-allow (some r) = refl

module _ {Action : Type 0} where
  unfoldable pub default_policy : Principal → Action → PolicyDecision
  default_policy p a = allow

  -- `fn` is the class's `static policy`, if that is a function.
  unfoldable pub evaluate_policy :
      Option (Principal → Action → Outcome String PolicyDecision) → Principal → Action → Verdict
  unfolding normalize_decision default_policy
  evaluate_policy none p a = normalize_decision (default_policy p a)
  evaluate_policy (some fn) p a = judged (fn p a)

  -- What a policy must be for a call to be allowed
  abbrev pub Allows :
      Option (Principal → Action → Outcome String PolicyDecision) → Principal → Action → Type 0
  Allows fn p a =
      (fn ≡ none)
      ⊎ ((f : Principal → Action → Outcome String PolicyDecision) × (fn ≡ some f)
          × ((f p a ≡ ok allow) ⊎ ((r : Option String) × (f p a ≡ ok (decided true r)))))

  evaluate_policy-allow_only :
      (fn : Option (Principal → Action → Outcome String PolicyDecision)) (p : Principal)
      (a : Action)
      → (evaluate_policy fn p a).allow ≡ true
      → Allows fn p a
  unfolding evaluate_policy
  evaluate_policy-allow_only none p a h = inl refl
  evaluate_policy-allow_only (some f) p a h = inr (f, refl, judged-allow (f p a) h)

  evaluate_policy-allow_if :
      (fn : Option (Principal → Action → Outcome String PolicyDecision)) (p : Principal)
      (a : Action)
      → Allows fn p a
      → (evaluate_policy fn p a).allow ≡ true
  unfolding evaluate_policy normalize_decision default_policy
  evaluate_policy-allow_if fn p a (inl e) = rw e refl
  evaluate_policy-allow_if fn p a (inr (f, e, inl go)) = rw (e, go) refl
  evaluate_policy-allow_if fn p a (inr (f, e, inr (r, go))) = rw (e, go) (decided-allow r)

  -- A call is allowed exactly if the class has no policy, or its policy returns, and returns
  -- 'allow' or a decision that allows.
  pub evaluate_policy-allow :
      (fn : Option (Principal → Action → Outcome String PolicyDecision)) (p : Principal)
      (a : Action)
      → ((evaluate_policy fn p a).allow ≡ true) ↔ Allows fn p a
  evaluate_policy-allow fn p a =
      (evaluate_policy-allow_only fn p a, evaluate_policy-allow_if fn p a)
