-- ===== src/Runtime/Loader/Cache.antt =====
-- The cache of src/runtime/loader.ts: what an insertion may drop.
use actjs.Prelude.{
  All, subst, ◌⊎◌, String, ◌≡◌, refl, ap, sym, ◌∙◌, true, false, Option, none, some, [], ◌∷◌,
  length, leb, ltb, arith, if◌then◌else◌, Bool-cases, inl, inr,
}
use actjs.Runtime.Loader.{
  drop_entry, is_kept, older, CacheEntry, ClassLoader, maybe_evict, oldest_of,
}
use actjs.Prelude.Map.Laws.{IsMap, get-delete}
use actjs.Prelude.Keys.{string_keyed, nat_keyed, ◌==◌}
use actjs.Prelude.Map.{Map, get}

module _ {Ctor : Type 0} where
  -- The entries of the cache: one for each sha, each under its own.
  abbrev pub IsCache : Map String (CacheEntry Ctor) → Type 0
  IsCache m = IsMap m × All (λ (r : String × CacheEntry Ctor). r.1.sha ≡ r.0) m

  older-cases :
      (o : Option (CacheEntry Ctor)) (e : CacheEntry Ctor) → (older o e ≡ o) ⊎ (older o e ≡ some e)
  older-cases none e = inr refl
  older-cases (some b) e = elim (Bool-cases (ltb e.last_used_at b.last_used_at)) [
    | inl new ↦ inr (rw new refl)
    | inr old ↦ inl (rw old refl)
  ]

  -- What an entry is that the loop of `maybeEvict` ends with
  abbrev pub IsVictim : String → Map String (CacheEntry Ctor) → CacheEntry Ctor → Type 0
  IsVictim sha m e = (get m e.sha ≡ some e) × (is_kept sha e ≡ false)

  next-IsVictim :
      (sha k : String) (f e : CacheEntry Ctor) (m : Map String (CacheEntry Ctor))
      → get m k ≡ none
      → IsVictim sha m e
      → IsVictim sha ((k, f) ∷ m) e
  unfolding get
  next-IsVictim sha k f e m fresh h =
      (ground (arith, h.0, fresh, string_keyed.same_key_iff k e.sha), h.1)

  head-IsVictim :
      (sha k : String) (e : CacheEntry Ctor) (m : Map String (CacheEntry Ctor))
      → e.sha ≡ k
      → is_kept sha e ≡ false
      → IsVictim sha ((k, e) ∷ m) e
  unfolding get
  head-IsVictim sha k e m own free = (ground (arith, own, string_keyed.same_key_iff k e.sha), free)

  oldest_of-IsVictim :
      (sha : String) (best : Option (CacheEntry Ctor)) (m : Map String (CacheEntry Ctor))
      (e : CacheEntry Ctor)
      → IsCache m
      → oldest_of sha best m ≡ some e
      → (best ≡ some e) ⊎ IsVictim sha m e
  unfolding oldest_of
  oldest_of-IsVictim sha best [] e h found = inl found
  oldest_of-IsVictim sha best ((k, f) ∷ m) e h found =
      let rest =
        oldest_of-IsVictim sha (if is_kept sha f then best else older best f) m e (h.0.1, h.1.1)
          found in
      elim rest [
        | inr victim ↦ inr (next-IsVictim sha k f e m h.0.0 victim)
        | inl best' ↦ elim (Bool-cases (is_kept sha f)) [
          | inl kept ↦ inl (let same : best ≡ some e = rw kept at best' in same)
          | inr free ↦
              (let same : older best f ≡ some e = rw free at best' in
                elim (older-cases best f) [
                  | inl stays ↦ inl (sym stays ∙ same)
                  | inr taken ↦
                      let eq : f ≡ e = (let both : some f ≡ some e = sym taken ∙ same in cc) in
                      inr (
                        subst (λ x. IsVictim sha ((k, f) ∷ m) x) eq
                          (head-IsVictim sha k f m h.1.0 free))
                ])
        ]
      ]

  drop_entry-keeps :
      (l : ClassLoader Ctor) (sha k : String) (e : CacheEntry Ctor) (o : Option (CacheEntry Ctor))
      → ((v : CacheEntry Ctor) → o ≡ some v → IsVictim sha l.by_sha v)
      → get l.by_sha k ≡ some e
      → is_kept sha e ≡ true
      → get (drop_entry l o).by_sha k ≡ some e
  drop_entry-keeps l sha k e none victim there kept = there
  drop_entry-keeps l sha k e (some v) victim there kept =
      let (at, free) = victim v refl in
      elim (Bool-cases (v.sha == k)) [
        | inl same ↦
            let eq : v.sha ≡ k = (string_keyed.same_key_iff v.sha k).0 same in
            let both : some v ≡ some e = sym at ∙ ap (get l.by_sha) eq ∙ there in
            let one : v ≡ e = cc in
            let no : true ≡ false = sym kept ∙ sym (ap (is_kept sha) one) ∙ free in cc
        | inr other ↦ get-delete l.by_sha v.sha k ∙ rw other there
      ]

  -- An eviction drops neither an entry that a live host refers to nor the entry that was just added.
  pub maybe_evict-keeps :
      (l : ClassLoader Ctor) (sha k : String) (e : CacheEntry Ctor)
      → IsCache l.by_sha
      → get l.by_sha k ≡ some e
      → is_kept sha e ≡ true
      → get (maybe_evict l sha).by_sha k ≡ some e
  unfolding maybe_evict
  maybe_evict-keeps l sha k e h there kept =
      elim (Bool-cases (leb (length l.by_sha) l.max_entries)) [
        | inl room ↦ rw room there
        | inr full ↦ rw full (
            drop_entry-keeps l sha k e (oldest_of sha none l.by_sha)
              (λ v found. elim (oldest_of-IsVictim sha none l.by_sha v h found) [
                | inl nothing ↦ cc
                | inr victim ↦ victim
              ])
              there kept)
      ]
