-- ===== src/Diff/Run/Written.antt =====
-- The dict that `compare_summary` of scripts/diff-report.py writes as its summary. The proof sources,
-- and the entries for the schedules, the violations and the digests, are arguments.
pub mod Tallied
pub mod Accepted
use air2lean.Base.{ℕ, String, Option, none, some, Bool, true, false, List, [], ◌∷◌, map}
use air2lean.Base.Int.{ℤ, pos}
use air2lean.Base.Sort.{text_le, sorted}
use air2lean.Json.{Json, Items, Fields, bool, int, str, arr, obj, nil, cons, end, field}
use air2lean.Accounting.{status_name}
use air2lean.Diff.{Status}
use air2lean.Diff.Classify.{Bucket}
use air2lean.Diff.Run.{Statuses, Buckets}
use air2lean.Diff.Run.Summary.{Summary}

-- The names of `legacy_bucket`
unfoldable bucket_name : Bucket → String
bucket_name Bucket.ok = "ok"
bucket_name Bucket.fail_match = "fail_match"
bucket_name Bucket.unspecified = "unspecified"
bucket_name Bucket.capped = "capped"
bucket_name Bucket.host = "host"
bucket_name Bucket.mismatch = "mismatch"
bucket_name Bucket.ub_excluded = "ub_excluded"

abbrev pub number : ℕ → Json
number n = int (pos n)

unfoldable pub fields_of_counts : List (String × ℕ) → Fields
fields_of_counts [] = end
fields_of_counts ((k, n) ∷ counts) = field k (number n) (fields_of_counts counts)

-- The entries of a counter, by name, in the order of `sort_keys`.
unfoldable pub count_fields {ℓ} : {A : Type ℓ} → (A → String) → List (A × ℕ) → Fields
unfolding fields_of_counts
count_fields name counts =
    fields_of_counts (sorted (λ a b. text_le a.0 b.0) (map (λ e. (name e.0, e.1)) counts))

unfoldable pub build_fields : Option (String × String) → Fields
build_fields none = end
build_fields (some (mode, backend)) =
    field "optimize" (str mode) (field "backend" (str backend) end)

unfoldable pub exclusion_items : (String → Json) → List String → Items
exclusion_items sources [] = nil
exclusion_items sources (ex ∷ examples) =
    cons
      (obj (
        field "example" (str ex) (
          field "reason" (str "proof_applicability_not_evaluated")
            (field "sources" (sources ex) end))))
      (exclusion_items sources examples)

unfoldable pub seed_fields : Option String → Fields → Fields
seed_fields none rest = rest
seed_fields (some seed) rest = field "fresh_input_seed" (str seed) rest

-- The keys that the other scripts read by name; the order of the entries of this dict is not used.
unfoldable pub written : (String → Json) → Fields → Summary → Fields
unfolding count_fields build_fields exclusion_items seed_fields bucket_name
written sources rest s = field "schema" (number 1) (
    field "complete" (bool true) (
      field "qualified" (bool false) (
        field "profile"
          (obj (
            field "zig_version" (str s.version) (field "host" (str s.host) (build_fields s.build))))
          (field "case_count" (number s.case_count) (
            field "skipped_examples" (number s.skipped_examples) (
              field "skipped_functions" (number s.skipped_functions) (
                field "exact_matches" (number s.exact_matches) (
                  field "proof_applicability" (str "not_evaluated_by_differential_runner") (
                    field "proof_exclusions" (arr (exclusion_items sources s.proof_exclusions)) (
                      field "counts" (obj (count_fields status_name s.counts)) (
                        field "legacy_counts" (obj (count_fields bucket_name s.legacy_counts)) (
                          field "mutation_eligible" (number s.mutation_eligible) (
                            field "setup_failures" (number s.setup_failures)
                              (seed_fields s.fresh_input_seed rest))))))))))))))
