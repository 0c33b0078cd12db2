-- ===== src/Runtime/Value.antt =====
-- JavaScript values as the host sees them, and `normalizeEvent` of src/runtime/host.ts. Nothing that
-- is modelled computes with a number, so that a number is a natural number here.
use actjs.Prelude.{ℕ, String, Bool, Option, none, some, List, [], ◌∷◌, if◌then◌else◌}
use actjs.Prelude.Keys.{string_keyed, ◌==◌}
use actjs.Prelude.Outcome.{Outcome, ok, throw}
use actjs.Storage.Types.{EventWrite}

mutual
  pub data Value : Type 0 where
    undefined null : Value
    bool : Bool → Value
    num : ℕ → Value
    str : String → Value
    arr : Items → Value
    obj : Fields → Value

  pub data Items : Type 0 where
    no_item : Items
    item_then : Value → Items → Items

  pub data Fields : Type 0 where
    no_field : Fields
    with_field : String → Value → Fields → Fields

-- `rec[key]`, where `none` is a key that is not `in rec`
unfoldable pub get_field : Fields → String → Option Value
get_field no_field k = none
get_field (with_field j v fs) k = if j == k then some v else get_field fs k

-- `const { [key]: _, ...rest } = rec`
unfoldable pub without : Fields → String → Fields
without no_field k = no_field
without (with_field j v fs) k =
    let rest = without fs k in if j == k then rest else with_field j v rest

-- The elements, if `Array.isArray`
unfoldable pub elements : Items → List Value
elements no_item = []
elements (item_then v vs) = v ∷ elements vs

unfoldable pub as_array : Value → Option (List Value)
unfolding elements
as_array (arr vs) = some (elements vs)
as_array undefined = none
as_array null = none
as_array (bool b) = none
as_array (num n) = none
as_array (str s) = none
as_array (obj fs) = none

pub data EventError : Type 0 where
  not_an_object missing_type : EventError

abbrev pub event_write : String → Value → EventWrite Value
event_write type payload = record { type = type; payload = payload; causation_id = none }

-- `payload` if the record has one, and else the record without its `type`
abbrev pub payload_of : Fields → Option Value → Value
payload_of fs (some v) = v
payload_of fs none = obj (without fs "type")

abbrev typed_event : Fields → Option Value → Outcome EventError (EventWrite Value)
typed_event fs (some (str type)) = ok (event_write type (payload_of fs (get_field fs "payload")))
typed_event fs (some other) = throw missing_type
typed_event fs none = throw missing_type

unfoldable pub normalize_event : Value → Outcome EventError (EventWrite Value)
unfolding get_field without
normalize_event (obj fs) = typed_event fs (get_field fs "type")
normalize_event (arr vs) = throw missing_type
normalize_event undefined = throw not_an_object
normalize_event null = throw not_an_object
normalize_event (bool b) = throw not_an_object
normalize_event (num n) = throw not_an_object
normalize_event (str s) = throw not_an_object
