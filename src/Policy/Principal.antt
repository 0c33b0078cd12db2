-- ===== src/Policy/Principal.antt =====
-- `Principal` of src/types/principal.ts, with the claims as a record of JavaScript values.
use actjs.Runtime.Value.{Fields}
use actjs.Prelude.{String, Bool, false, Option, none, some, List, [], ◌∷◌}
use actjs.Prelude.Keys.{string_keyed, nat_keyed, ◌==◌}
use actjs.Prelude.Map.{contains}

pub record Principal : Type 0 where
  pub sub : String
  pub roles : Option (List String)
  pub tenant : Option String
  pub capabilities : Option (List String)
  pub claims : Option Fields

unfoldable pub anonymous_principal : Principal
anonymous_principal = record {
  sub = "anonymous";
  roles = some [];
  tenant = none;
  capabilities = none;
  claims = none;
}

unfoldable pub system_principal : Principal
system_principal = record {
  sub = "system";
  roles = some ("system" ∷ []);
  tenant = none;
  capabilities = none;
  claims = none;
}

abbrev pub is_anonymous : Principal → Bool
is_anonymous p = p.sub == "anonymous"

abbrev pub is_system : Principal → Bool
is_system p = p.sub == "system"

-- `list?.includes(name) ?? false`
abbrev pub includes : Option (List String) → String → Bool
includes none name = false
includes (some names) name = contains names name

abbrev pub roles_of : Option Principal → Option (List String)
roles_of none = none
roles_of (some p) = p.roles

abbrev pub capabilities_of : Option Principal → Option (List String)
capabilities_of none = none
capabilities_of (some p) = p.capabilities

unfoldable pub has_role : Option Principal → String → Bool
has_role p role = includes (roles_of p) role

unfoldable pub has_capability : Option Principal → String → Bool
has_capability p capability = includes (capabilities_of p) capability
