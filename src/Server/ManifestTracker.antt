-- ===== src/Server/ManifestTracker.antt =====
-- `ManifestUsageTracker` of src/server/manifest-tracker.ts. The time is an argument. The gauge of the
-- metrics registry is left out.
pub mod Counts
use actjs.Prelude.{
  ℕ, zero, suc, ◌+◌, ◌-◌, ◌≤◌, ◌<◌, String, ◌≡◌, ◌≢◌, ◌&&◌, not, refl, ap, sym, ◌∙◌, Bool, true,
  false, Option, none, some, List, [], ◌∷◌, ◌++◌, map, length, leb, ltb, nat_beq, get_or, arith,
  if◌then◌else◌, Bool-cases, inl, inr,
}
use actjs.Prelude.Keys.{string_keyed, nat_keyed, ◌==◌}
use actjs.Prelude.Map.{Map, get, set}
use actjs.Prelude.Sort.{sort}

pub record Entry : Type 0 where
  pub count : ℕ
  pub last_seen : ℕ
  pub resolved : Option (Map String String)

pub record Tracker : Type 0 where
  pub entries : Map String Entry
  pub max_shas : ℕ
  pub other_count : ℕ
  pub other_last_seen : ℕ

pub record ManifestUsageEntry : Type 0 where
  pub sha : String
  pub count : ℕ
  pub last_seen : ℕ
  pub resolved : Option (Map String String)

pub record ManifestUsageReport : Type 0 where
  pub entries : List ManifestUsageEntry
  pub other_count : ℕ
  pub other_last_seen : ℕ

abbrev pub new_tracker : Option ℕ → Tracker
new_tracker max_shas = record {
  entries = [];
  max_shas = get_or max_shas 128;
  other_count = 0;
  other_last_seen = 0;
}

unfoldable pub record_sha : Tracker → ℕ → String → Option (Map String String) → Tracker
record_sha t now sha resolved = elim (get t.entries sha) [
  | some existing ↦ record t {
    entries = set t.entries sha (record existing { count = suc existing.count; last_seen = now });
  }
  | none ↦
      if leb t.max_shas (length t.entries)
      then record t { other_count = suc t.other_count; other_last_seen = now }
      else record t {
        entries = set t.entries sha (record { count = 1; last_seen = now; resolved = resolved });
      }
]

abbrev pub usage_entry : String × Entry → ManifestUsageEntry
usage_entry e = record {
  sha = e.0;
  count = e.1.count;
  last_seen = e.1.last_seen;
  resolved = e.1.resolved;
}

-- The comparator of `report`: the first entry does not come behind the second.
abbrev pub reported_before : ManifestUsageEntry → ManifestUsageEntry → Bool
reported_before a b =
    if nat_beq b.count a.count then leb b.last_seen a.last_seen else ltb b.count a.count

unfoldable pub report : Tracker → ManifestUsageReport
unfolding sort
report t = record {
  entries = sort reported_before (map usage_entry t.entries);
  other_count = t.other_count;
  other_last_seen = t.other_last_seen;
}
