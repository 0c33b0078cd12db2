-- ===== src/Runtime/Directory.antt =====
-- src/runtime/directory.ts. A `resolve` that finds no host has two steps: it starts an activation
-- (`begin`), and ends when that has settled (`settled`); calls of other actors run in between. A host is
-- its actor's class name here, and what the activation does is a parameter of its end.
pub mod Counts
pub mod Race
use actjs.Prelude.{
  ℕ, suc, ◌-◌, String, not, Bool, true, false, Option, none, some, List, [], ◌∷◌, length, leb,
  get_or, if◌then◌else◌,
}
use actjs.Prelude.Keys.{string_keyed, nat_keyed, ◌==◌}
use actjs.Prelude.Map.{Map, get, set, delete}

pub record Directory : Type 0 where
  -- the class name of each host
  pub hosts : Map String String
  pub materializing : Map String String
  pub destroyed : Bool
  pub per_class_active : Map String ℕ
  pub classes : List String
  pub active_actor_cap_per_class : ℕ

-- What the first step of `resolve` finds or does
pub data Resolving : Type 0 where
  is_destroyed : Resolving
  cached : String → Resolving
  inflight : String → Resolving
  unknown_class : String → Resolving
  capacity_exhausted : String → ℕ → Resolving
  started : Resolving

unfoldable pub knows : List String → String → Bool
knows [] name = false
knows (c ∷ cs) name = if c == name then true else knows cs name

abbrev pub active_count : Directory → String → ℕ
active_count d name = get_or (get d.per_class_active name) 0

-- `checkActiveCap`: whether it throws
abbrev pub at_cap : Directory → String → Bool
at_cap d name =
    if leb d.active_actor_cap_per_class 0
    then false
    else leb d.active_actor_cap_per_class (active_count d name)

abbrev pub start_new : Directory → String → String → Resolving × Directory
start_new d id name =
    if not (knows d.classes name)
    then (unknown_class name, d)
    else if at_cap d name
    then (capacity_exhausted name d.active_actor_cap_per_class, d)
    else (started, record d { materializing = set d.materializing id name })

abbrev pub join : Directory → String → String → Option String → Resolving × Directory
join d id name (some pending) = (inflight pending, d)
join d id name none = start_new d id name

abbrev pub look_up : Directory → String → String → Option String → Resolving × Directory
look_up d id name (some host) = (cached host, d)
look_up d id name none = join d id name (get d.materializing id)

unfoldable pub begin : Directory → String → String → Resolving × Directory
unfolding knows
begin d id name = if d.destroyed then (is_destroyed, d) else look_up d id name (get d.hosts id)

-- `bumpActive(className, +1)`
unfoldable pub bump_up : Directory → String → Directory
bump_up d name = record d {
  per_class_active = set d.per_class_active name (suc (active_count d name));
}

-- `bumpActive(className, -1)`
unfoldable pub bump_down : Directory → String → Directory
bump_down d name =
    if leb (active_count d name) 1
    then record d { per_class_active = delete d.per_class_active name }
    else record d { per_class_active = set d.per_class_active name (active_count d name - 1) }

abbrev pub keep_host : Directory → String → String → Bool → Directory
keep_host d id name true = bump_up (record d { hosts = set d.hosts id name }) name
keep_host d id name false = d

-- The second step: whether `host.activate()` returned; the `finally` runs in either case.
unfoldable pub settled : Directory → String → String → Bool → Directory
unfolding bump_up
settled d id name activated =
    let d' = keep_host d id name activated in
    record d' { materializing = delete d'.materializing id }

abbrev pub drop_host : Directory → String → Option String → Directory
drop_host d id none = d
drop_host d id (some name) = let d' = bump_down d name in record d' { hosts = delete d'.hosts id }

unfoldable pub evict : Directory → String → Directory
unfolding bump_down
evict d id = drop_host d id (get d.hosts id)

unfoldable pub live_count : Directory → ℕ
live_count d = length d.hosts

unfoldable pub get_live : Directory → String → Option String
get_live d id = get d.hosts id

-- `shutdown` up to the destruction of the hosts that it returns, when no activation is in flight any
-- more
unfoldable pub shutdown : Directory → Map String String × Directory
shutdown d =
    if d.destroyed
    then ([], d)
    else (d.hosts, record d { destroyed = true; hosts = []; per_class_active = [] })
