-- ===== src/Tests/Accounting.antt =====
-- The accounting of scripts/accounting.py at a concrete summary.
use air2lean.Base.{◌≡◌, refl, Option, none, some, Bool, true, false, String, List, [], ◌∷◌}
use air2lean.Base.Int.{pos}
use air2lean.Base.Result.{ok}
use air2lean.Json.{Json, Fields, bool, int, str, arr, obj, nil, cons, end, field}
use air2lean.Accounting.{
  Row, add_to, Column, Cells, cases, exact_matches, mismatches, skipped_examples, skipped_functions,
  proof_exclusions,
}
use air2lean.Accounting.Summary.{finished, no_cells, row_of}
use air2lean.Accounting.Summary.Partition.{Accounts, row_of-Accounts}
use air2lean.Accounting.Table.{Table, table_of, publish, invariants}
use air2lean.Accounting.Table.Sound.{publish-invariants}

abbrev summary : Fields
summary = field "schema" (int (pos 1)) (
    field "complete" (bool true) (
      field "qualified" (bool false) (
        field "profile"
          (obj (field "zig_version" (str "0.15.2") (field "host" (str "x86_64-linux") end)))
          (field "counts"
            (obj (
              field "value_match" (int (pos 3))
                (field "trap_match" (int (pos 1)) (field "mismatch" (int (pos 2)) end))))
            (field "case_count" (int (pos 6)) (
              field "exact_matches" (int (pos 4)) (
                field "setup_failures" (int (pos 0)) (
                  field "skipped_examples" (int (pos 0)) (
                    field "skipped_functions" (int (pos 5)) (
                      field "proof_applicability" (str "not_evaluated_by_differential_runner") (
                        field "proof_exclusions"
                          (arr (
                            cons
                              (obj (
                                field "example" (str "atomics")
                                  (field "reason" (str "proof_applicability_not_evaluated") end)))
                              nil))
                          end)))))))))))

abbrev row : Row
row = record {
  version = "0.15.2";
  target = "x86_64-linux";
  summary_sha256 = "digest";
  cells = finished 6 0 5 1 (
      add_to (some mismatches) 2
        (add_to (some exact_matches) 1 (add_to (some exact_matches) 3 no_cells)));
  selected_examples = "atomics" ∷ [];
}

row_of-Accounts_example : Accounts summary row
unfolding row_of air2lean.Json.get air2lean.Accounting.tally air2lean.Accounting.known_status
    air2lean.Accounting.count_of air2lean.Json.natural_of add_to
    air2lean.Outcomes.Admits.has_duplicates air2lean.Base.Sort.sorted
row_of-Accounts_example = row_of-Accounts "digest" summary row refl

abbrev decoded_summary : String → Option Json
decoded_summary raw = some (obj summary)

abbrev digest_of : String → String
digest_of raw = "digest"

publish-invariants_example : invariants (table_of (row ∷ [])) ≡ []
unfolding publish air2lean.Base.Result.traverse air2lean.Accounting.Summary.summary_row
    air2lean.Json.get air2lean.Accounting.tally air2lean.Accounting.known_status
    air2lean.Accounting.count_of air2lean.Json.natural_of add_to
    air2lean.Outcomes.Admits.has_duplicates air2lean.Base.Sort.sorted
    air2lean.Accounting.Table.distinct_keys
publish-invariants_example =
    publish-invariants decoded_summary digest_of ("summary.json" ∷ []) (table_of (row ∷ [])) refl
