-- ===== src/Accounting/Summary.antt =====
-- `summary_row` of scripts/accounting.py: one row from the summary of a complete run. `json.loads`
-- and the digest of the file are parameters.
pub mod Partition
use air2lean.Base.{
  ℕ, ◌+◌, String, Option, none, some, Bool, true, false, ◌&&◌, ◌||◌, not, List, [], ◌∷◌, str_eq,
  ◌==◌, if◌then◌else◌, sum_of, length, is_empty,
}
use air2lean.Base.Int.{ℤ, pos, int_eq}
use air2lean.Base.Result.{Result, ok, err, ◌>>=◌, ◌>>◌, refuse_if}
use air2lean.Base.Sort.{text_le, sorted}
use air2lean.Json.{
  Json, Items, Fields, null, bool, int, float, str, arr, obj, nil, cons, end, field, get, listed,
}
use air2lean.Outcomes.Admits.{has_duplicates}
use air2lean.Accounting.{
  Column, cases, exact_matches, setup_failures, skipped_examples, skipped_functions,
  proof_exclusions, partition, column_eq, Problem, not_json, unsupported_schema, incomplete_run,
  not_unqualified, lacks_profile, counts_missing, wrong_cases, wrong_exact_matches,
  wrong_setup_failures, unsupported_applicability, malformed_exclusions, repeated_exclusions, Cells,
  count_of, tally, Row,
}

-- `v == 1`, which `True` and 1.0 also are
unfoldable equals_one : Option Json → Bool
equals_one (some (int n)) = int_eq n (pos 1)
equals_one (some (bool b)) = b
equals_one (some (float s n)) = not s && n == 4607182418800017408
equals_one _ = false

abbrev is_bool : Bool → Option Json → Bool
is_bool true (some (bool true)) = true
is_bool false (some (bool false)) = true
is_bool _ _ = false

abbrev is_text : String → Option Json → Bool
is_text s (some (str t)) = str_eq t s
is_text s _ = false

-- A string that is not empty.
abbrev named_text : Option Json → Option String
named_text (some (str s)) = if str_eq s "" then none else some s
named_text _ = none

abbrev fields_of : Option Json → Option Fields
fields_of (some (obj fs)) = some fs
fields_of _ = none

profile_of : Option Json → Result Problem (String × String)
profile_of v = elim (fields_of v) [
  | none ↦ err lacks_profile
  | some fs ↦ elim (named_text (get "zig_version" fs)) [
    | none ↦ err lacks_profile
    | some z ↦ elim (named_text (get "host" fs)) [ none ↦ err lacks_profile | some h ↦ ok (z, h) ]
  ]
]

unfoldable pub counts_of : Option Json → Result Problem Fields
counts_of v = elim (fields_of v) [ none ↦ err counts_missing | some fs ↦ ok fs ]

-- The `example` of an exclusion with the expected `reason`.
exclusion_of : Json → Option String
exclusion_of (obj fs) =
    if is_text "proof_applicability_not_evaluated" (get "reason" fs)
    then elim (get "example" fs) [ some (str s) ↦ some s | _ ↦ none ]
    else none
exclusion_of _ = none

unfoldable pub exclusions_of : Items → Result Problem (List String)
unfolding exclusion_of
exclusions_of nil = ok []
exclusions_of (cons x xs) = elim (exclusion_of x) [
  | none ↦ err malformed_exclusions
  | some s ↦ exclusions_of xs >>= λ ss. ok (s ∷ ss)
]

selected_of : Option Json → Result Problem (List String)
unfolding exclusions_of
selected_of (some (arr xs)) = exclusions_of xs
selected_of _ = err malformed_exclusions

-- A row with three columns set.
unfoldable pub finished : ℕ → ℕ → ℕ → ℕ → Cells → Cells
finished n examples functions exclusions row cases = n
finished n examples functions exclusions row skipped_examples = examples
finished n examples functions exclusions row skipped_functions = functions
finished n examples functions exclusions row proof_exclusions = exclusions
finished n examples functions exclusions row c = row c

abbrev pub no_cells : Cells
no_cells c = 0

-- The checks of a decoded summary, in their order: what it is, the cases that it counts, and what
-- was left out of the run.
unfoldable pub header_of : Fields → Result Problem (String × String)
unfolding equals_one profile_of
header_of summary = do
  refuse_if (not (equals_one (get "schema" summary))) unsupported_schema
  refuse_if (not (is_bool true (get "complete" summary))) incomplete_run
  refuse_if (not (is_bool false (get "qualified" summary))) not_unqualified
  profile_of (get "profile" summary)

unfoldable pub equal_count : Option Json → ℕ → Problem → Result Problem (Unit {0})
equal_count v expected problem = do n ← count_of v; refuse_if (not (n == expected)) problem

unfoldable pub cases_of : Fields → Cells → Result Problem ℕ
unfolding equal_count
cases_of summary row = do
  n ← count_of (get "case_count" summary)
  refuse_if (not (sum_of row partition == n)) wrong_cases
  equal_count (get "exact_matches" summary) (row exact_matches) wrong_exact_matches
  equal_count (get "setup_failures" summary) (row setup_failures) wrong_setup_failures
  ok n

pub record Excluded : Type 0 where
  pub examples : ℕ
  pub functions : ℕ
  pub selected : List String

unfoldable pub excluded_of : Fields → Result Problem Excluded
unfolding selected_of
excluded_of summary = do
  n ← count_of (get "skipped_examples" summary)
  m ← count_of (get "skipped_functions" summary)
  refuse_if
      (not (is_text "not_evaluated_by_differential_runner" (get "proof_applicability" summary)))
      unsupported_applicability
  names ← selected_of (get "proof_exclusions" summary)
  refuse_if (is_empty names || has_duplicates names) repeated_exclusions
  ok (record { examples = n; functions = m; selected = names })

unfoldable pub row_from : String → String × String → Cells → ℕ → Excluded → Row
unfolding finished
row_from digest profile row n e = record {
  version = profile.0;
  target = profile.1;
  summary_sha256 = digest;
  cells = finished n e.examples e.functions (length e.selected) row;
  selected_examples = sorted text_le e.selected;
}

unfoldable pub row_of : String → Fields → Result Problem Row
unfolding counts_of header_of cases_of excluded_of row_from
row_of digest summary = do
  profile ← header_of summary
  counts ← counts_of (get "counts" summary)
  row ← tally counts no_cells
  n ← cases_of summary row
  e ← excluded_of summary
  ok (row_from digest profile row n e)

module _ (decode : String → Option Json) (sha256 : String → String) where
  unfoldable pub summary_row : String → Result Problem Row
  unfolding row_of
  summary_row raw = elim (decode raw) [
    | none ↦ err not_json
    | some (obj summary) ↦ row_of (sha256 raw) summary
    | some _ ↦ err unsupported_schema
  ]
