-- ===== src/Fingerprints.antt =====
-- scripts/semantic-fingerprints.py: `compare` of two indices, and the records that `load_sidecar`
-- accepts. `compare` takes the entries of both runs and Python's `==` on decoded values as arguments.
pub mod Compare
pub mod Sidecar
pub mod Components
pub mod Calls
pub mod Digest
use air2lean.Base.{
  ℕ, String, Option, none, some, Bool, true, false, ◌&&◌, ◌||◌, not, List, [], ◌∷◌, ◌++◌, map,
  str_eq, if◌then◌else◌,
}
use air2lean.Json.{
  Json, Items, Fields, null, str, arr, obj, nil, cons, end, field, get, has, listed, keys_among,
  strings_of,
}
use air2lean.Base.Result.{Result, ok, err, ◌>>=◌, ◌>>◌, refuse_if}
use air2lean.Closure.{value_of}
use air2lean.Closure.Names.{sorted_set}

-- What `fingerprints` says of one source.
pub record Entry : Type 0 where
  pub definition : Json
  pub proof_api : Json
  pub fingerprint : String

-- A document: its namespace, its revisions, and its entries by source.
pub record Document : Type 0 where
  pub namespace : Json
  pub translator : String
  pub runtime : String
  pub entries : List (String × Entry)

pub data Change : Type 0 where
  unaffected invalidated renamed added removed : Change

pub record Comparison : Type 0 where
  pub unaffected_sources : List String
  pub invalidated_sources : List String
  pub renamed_sources : List String
  pub added_sources : List String
  pub removed_sources : List String
  pub translator_changed : Bool
  pub runtime_changed : Bool

-- `report[key]`
unfoldable pub part : Change → Comparison → List String
part unaffected r = r.unaffected_sources
part invalidated r = r.invalidated_sources
part renamed r = r.renamed_sources
part added r = r.added_sources
part removed r = r.removed_sources

-- `report[key].append(source)`
unfoldable pub record_change : Change → String → Comparison → Comparison
record_change unaffected s r = record r { unaffected_sources = r.unaffected_sources ++ s ∷ [] }
record_change invalidated s r = record r { invalidated_sources = r.invalidated_sources ++ s ∷ [] }
record_change renamed s r = record r { renamed_sources = r.renamed_sources ++ s ∷ [] }
record_change added s r = record r { added_sources = r.added_sources ++ s ∷ [] }
record_change removed s r = record r { removed_sources = r.removed_sources ++ s ∷ [] }

-- The report before the loop.
abbrev pub blank : Document → Document → Comparison
blank old new = record {
  unaffected_sources = [];
  invalidated_sources = [];
  renamed_sources = [];
  added_sources = [];
  removed_sources = [];
  translator_changed = not (str_eq old.translator new.translator);
  runtime_changed = not (str_eq old.runtime new.runtime);
}

module _ (equal : Json → Json → Bool) where
  -- `interface(old, before) == interface(new, after)`
  unfoldable pub same_interface : Document → Entry → Document → Entry → Bool
  same_interface old before new after =
      equal old.namespace new.namespace
      && equal before.definition after.definition
      && equal before.proof_api after.proof_api

  unfoldable pub change_of_entries : Document → Document → Option Entry → Option Entry → Change
  unfolding same_interface
  change_of_entries old new before none = removed
  change_of_entries old new none (some after) = added
  change_of_entries old new (some before) (some after) =
      if not (str_eq before.fingerprint after.fingerprint)
      then invalidated
      else if not (same_interface old before new after)
      then renamed
      else unaffected

  unfoldable pub change_of : Document → Document → String → Change
  unfolding change_of_entries value_of
  change_of old new source =
      change_of_entries old new (value_of source old.entries) (value_of source new.entries)

  unfoldable pub compare_all : Document → Document → List String → Comparison → Comparison
  unfolding record_change change_of
  compare_all old new [] r = r
  compare_all old new (source ∷ sources) r =
      compare_all old new sources (record_change (change_of old new source) source r)

  -- `sorted(set(before) | set(after))`
  unfoldable pub sources_of : Document → Document → List String
  unfolding sorted_set
  sources_of old new = sorted_set (map (λ e. e.0) old.entries ++ map (λ e. e.0) new.entries)

  unfoldable pub compare : Document → Document → Comparison
  unfolding compare_all sources_of
  compare old new = compare_all old new (sources_of old new) (blank old new)
