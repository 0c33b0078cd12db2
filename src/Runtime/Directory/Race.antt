-- ===== src/Runtime/Directory/Race.antt =====
-- The cap of src/runtime/directory.ts under two first touches at once.
use actjs.Prelude.Map.Laws.{get-set_self, get-set}
use actjs.Runtime.Directory.{
  at_cap, active_count, knows, Directory, begin, settled, bump_up, started,
}
use actjs.Prelude.{suc, String, ◌≡◌, refl, ap, ◌∙◌, true, false, none, get_or}
use actjs.Prelude.Keys.{string_keyed, nat_keyed, ◌==◌}
use actjs.Prelude.Map.{get, set}

-- A directory in which the actor is new and its class has room
pub record HasRoom (d : Directory) (id name : String) : Type 0 where
  pub live : d.destroyed ≡ false
  pub known : knows d.classes name ≡ true
  pub absent : get d.hosts id ≡ none
  pub idle : get d.materializing id ≡ none
  pub below : at_cap d name ≡ false

begin-started :
    (d : Directory) (id name : String)
    → HasRoom d id name
    → begin d id name ≡ (started, record d { materializing = set d.materializing id name })
unfolding begin
begin-started d id name h = rw (h.live, h.absent, h.idle, h.known, h.below) refl

settled_count :
    (d : Directory) (id name : String)
    → active_count (settled d id name true) name ≡ suc (active_count d name)
unfolding settled bump_up
settled_count d id name =
    ap (λ o. get_or o 0) (get-set_self d.per_class_active name (suc (active_count d name)))

both_counted :
    (d : Directory) (a b name : String)
    → active_count (settled (settled d a name true) b name true) name
      ≡ suc (suc (active_count d name))
both_counted d a b name =
    settled_count (settled d a name true) b name ∙ ap suc (settled_count d a name)

-- Two actors of one class that has room, both touched for the first time at once, both pass the
-- check of the cap, with the same count, and both are counted when their activations end: one
-- place that is left under the cap is given twice.
pub begin-begin-settled :
    (d : Directory) (a b name : String)
    → HasRoom d a name
    → HasRoom d b name
    → (a == b) ≡ false
    → let d1 = (begin d a name).1 in
      let d2 = (begin d1 b name).1 in
      let d3 = settled (settled d2 a name true) b name true in
      ((begin d a name).0 ≡ started)
      × ((begin d1 b name).0 ≡ started)
      × (active_count d3 name ≡ suc (suc (active_count d name)))
begin-begin-settled d a b name first second apart =
    let d1 : Directory = record d { materializing = set d.materializing a name } in
    let room : HasRoom d1 b name = record {
      live = second.live;
      known = second.known;
      absent = second.absent;
      idle = get-set d.materializing a b name ∙ rw apart second.idle;
      below = second.below;
    } in
    rw (begin-started d a name first, begin-started d1 b name room)
      (
        refl,
        refl,
        both_counted (record d1 { materializing = set d1.materializing b name }) a b name,
      )
