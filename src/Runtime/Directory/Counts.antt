-- ===== src/Runtime/Directory/Counts.antt =====
-- The active-actor counts of src/runtime/directory.ts.
use actjs.Prelude.Map.Laws.{==-refl, IsMap, get-set, get-delete, IsMap-set, IsMap-delete}
use actjs.Runtime.Directory.{bump_down, bump_up, drop_host, active_count, Directory, settled, evict}
use actjs.Prelude.{
  ℕ, suc, ◌-◌, ◌≤◌, String, ◌≡◌, refl, Bool, true, false, Option, none, some, [], ◌∷◌, leb, arith,
  if◌then◌else◌, Bool-cases, inl, inr,
}
use actjs.Prelude.Keys.{string_keyed, nat_keyed, ◌==◌}
use actjs.Prelude.Map.{Map, get, set, delete}

-- The hosts of a class
unfoldable pub hosts_of : Map String String → String → ℕ
hosts_of [] name = 0
hosts_of ((id, c) ∷ m) name = let rest = hosts_of m name in if c == name then suc rest else rest

-- Each class is counted as often as it has hosts.
pub record IsCounted (d : Directory) : Type 0 where
  pub distinct : IsMap d.hosts
  pub counts : (name : String) → active_count d name ≡ hosts_of d.hosts name

hosts_of-set :
    (m : Map String String) (id c name : String)
    → get m id ≡ none
    → hosts_of (set m id c) name ≡ (if c == name then suc (hosts_of m name) else hosts_of m name)
unfolding hosts_of get set
hosts_of-set [] id c name fresh = refl
hosts_of-set ((j, k) ∷ m) id c name fresh = ground (arith, hosts_of-set m id c name)

hosts_of-delete_absent :
    (m : Map String String) (id name : String)
    → get m id ≡ none
    → hosts_of (delete m id) name ≡ hosts_of m name
unfolding hosts_of get delete
hosts_of-delete_absent [] id name h = refl
hosts_of-delete_absent ((j, k) ∷ m) id name h = ground (arith, hosts_of-delete_absent m id name)

hosts_of-delete :
    (m : Map String String) (id c name : String)
    → IsMap m
    → get m id ≡ some c
    → hosts_of m name
      ≡ (if c == name then suc (hosts_of (delete m id) name) else hosts_of (delete m id) name)
unfolding hosts_of get delete
hosts_of-delete [] id c name h there = cc
hosts_of-delete ((j, k) ∷ m) id c name h there = ground (
  arith,
  hosts_of-delete m id c name h.1,
  hosts_of-delete_absent m id name,
  string_keyed.same_key_iff j id,
  h.0,
)

hosts_of-get : (m : Map String String) (id c : String) → get m id ≡ some c → 1 ≤ hosts_of m c
unfolding hosts_of get
hosts_of-get [] id c there = cc
hosts_of-get ((j, k) ∷ m) id c there = ground (arith, hosts_of-get m id c, ==-refl c)

-- The end of an activation of an actor that has no host keeps the counts, whether it succeeded
-- or failed.
pub settled-IsCounted :
    (d : Directory) (id name : String) (activated : Bool)
    → IsCounted d
    → get d.hosts id ≡ none
    → IsCounted (settled d id name activated)
unfolding settled bump_up
settled-IsCounted d id name false h fresh = record { distinct = h.distinct; counts = h.counts }
settled-IsCounted d id name true h fresh = record {
  distinct = IsMap-set d.hosts id name h.distinct;
  counts = λ c. ground (
    arith,
    h.counts c,
    h.counts name,
    get-set d.per_class_active name c (suc (active_count d name)),
    hosts_of-set d.hosts id name c fresh,
    string_keyed.same_key_iff name c,
  );
}

evict_some-IsCounted :
    (d : Directory) (id name : String)
    → IsCounted d
    → get d.hosts id ≡ some name
    → IsCounted (drop_host d id (some name))
unfolding bump_down
evict_some-IsCounted d id name h there =
    let own = hosts_of-delete d.hosts id name in
    elim (Bool-cases (leb (active_count d name) 1)) [
      | inl last ↦ rw last (record {
        distinct = IsMap-delete d.hosts id h.distinct;
        counts = λ c. ground (
          arith,
          last,
          h.counts c,
          h.counts name,
          get-delete d.per_class_active name c,
          hosts_of-delete d.hosts id name c h.distinct there,
          string_keyed.same_key_iff name c,
          hosts_of-get d.hosts id name there,
        );
      })
      | inr others ↦ rw others (record {
        distinct = IsMap-delete d.hosts id h.distinct;
        counts = λ c. ground (
          arith,
          others,
          h.counts c,
          h.counts name,
          get-set d.per_class_active name c (active_count d name - 1),
          hosts_of-delete d.hosts id name c h.distinct there,
          string_keyed.same_key_iff name c,
        );
      })
    ]

evicted-IsCounted :
    (d : Directory) (id : String) (o : Option String)
    → IsCounted d
    → get d.hosts id ≡ o
    → IsCounted (drop_host d id o)
evicted-IsCounted d id none h e = h
evicted-IsCounted d id (some name) h e = evict_some-IsCounted d id name h e

-- An eviction keeps the counts, also of an actor that has no host.
pub evict-IsCounted : (d : Directory) (id : String) → IsCounted d → IsCounted (evict d id)
unfolding evict
evict-IsCounted d id h = evicted-IsCounted d id (get d.hosts id) h refl
