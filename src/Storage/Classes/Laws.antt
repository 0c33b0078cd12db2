-- ===== src/Storage/Classes/Laws.antt =====
-- Published classes of src/storage/memory.ts: what is immutable, and what the 64-bit content hash
-- cannot tell apart.
use actjs.Prelude.{◌∙◌, ℕ, String, ◌≡◌, ◌≢◌, refl, ap, some, arith, true, eq_iff}
use actjs.Prelude.Outcome.{ok, throw}
use actjs.Prelude.Map.{Map, get, set, has}
use actjs.Prelude.Map.Laws.{get-set_self, get-set, has-get}
use actjs.Prelude.Keys.{string_keyed}
use actjs.Storage.Types.{PublishClassInput, version_already_published, ClassVersionRecord}
use actjs.Storage.Driver.{Driver}
use actjs.Storage.Classes.{hash_buf, class_key, record_for, publish_class, get_class_source}

has-set :
    (m : Map String ClassVersionRecord) (k : String) (r : ClassVersionRecord)
    → has (set m k r) k ≡ true
has-set m k r = rw (has-get, get-set_self m k r) refl

module _ {V : Type 0} where
  publish_class-inv :
      (d : Driver V) (now : ℕ) (input : PublishClassInput) {d' : Driver V}
      → publish_class d now input ≡ ok d'
      → (d'.class_source ≡ set d.class_source (hash_buf input.source) input.source)
        × (d'.class_versions
            ≡ set d.class_versions (class_key input.name input.version) (record_for now input))
  unfolding publish_class
  publish_class-inv d now input h = ground arith

  get_class_source_found :
      (d : Driver V) (name version : String) (r : ClassVersionRecord)
      → get d.class_versions (class_key name version) ≡ some r
      → get_class_source d name version ≡ get d.class_source r.source_sha256
  unfolding get_class_source
  get_class_source_found d name version r e = rw (e, get_class_source) refl

  -- The source of a version that was published is what was published, and a second publish of
  -- the same version is refused, whatever it holds.
  pub get_class_source-publish_class :
      (d : Driver V) (now : ℕ) (input : PublishClassInput) {d' : Driver V} (later : ℕ)
      (again : PublishClassInput)
      → publish_class d now input ≡ ok d'
      → again.name ≡ input.name
      → again.version ≡ input.version
      → (get_class_source d' input.name input.version ≡ some input.source)
        × (publish_class d' later again
            ≡ throw (version_already_published again.name again.version))
  unfolding publish_class
  get_class_source-publish_class d now input {d'} later again done name version =
      let (source, versions) = publish_class-inv d now input done in
      let key = class_key input.name input.version in
      let r = record_for now input in
      (
        get_class_source_found d' input.name input.version r
              (ap (λ m. get m key) versions ∙ get-set_self d.class_versions key r)
            ∙ ap (λ m. get m r.source_sha256) source
            ∙ get-set_self d.class_source r.source_sha256 input.source,
        rw (name, version, versions, has-set d.class_versions key r) refl,
      )

  -- Two sources with one hash share one slot of the content-addressed store: publishing the
  -- second under another key makes the first read back as the second.
  pub colliding_source_replaced :
      (d : Driver V) (now : ℕ) (a b : PublishClassInput) {d' d'' : Driver V}
      → hash_buf a.source ≡ hash_buf b.source
      → class_key a.name a.version ≢ class_key b.name b.version
      → publish_class d now a ≡ ok d'
      → publish_class d' now b ≡ ok d''
      → get_class_source d'' a.name a.version ≡ some b.source
  colliding_source_replaced d now a b {d'} {d''} same ne first second =
      let (source, versions) = publish_class-inv d now a first in
      let (source', versions') = publish_class-inv d' now b second in
      let key = class_key a.name a.version in
      let r = record_for now a in
      get_class_source_found d'' a.name a.version r (
        ap (λ m. get m key) versions'
        ∙ ground (
          arith,
          get-set d'.class_versions (class_key b.name b.version) key (record_for now b),
          eq_iff (class_key b.name b.version) key,
          ap (λ m. get m key) versions,
          get-set_self d.class_versions key r,
        ))
      ∙ ap (λ m. get m r.source_sha256) source'
      ∙ rw same (get-set_self d'.class_source (hash_buf b.source) b.source)
