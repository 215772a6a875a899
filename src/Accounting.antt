-- ===== src/Accounting.antt =====
-- scripts/accounting.py: a summary of a comparison becomes one row whose columns partition its
-- cases, and rows become the published table. `Row` and `Table` are the dicts of the source with
-- their fixed keys; a column holds its number by name. The text of a problem is left out.
pub mod Summary
pub mod Table
pub mod Claims
use air2lean.Base.{
  ℕ, ◌+◌, String, Option, none, some, Bool, true, false, ◌&&◌, ◌||◌, not, List, [], ◌∷◌, str_eq,
  ◌==◌, if◌then◌else◌, sum_of, length, is_empty, map,
}
use air2lean.Base.Int.{ℤ, pos, int_eq}
use air2lean.Base.Result.{Result, ok, err, ◌>>=◌, ◌>>◌, refuse_if}
use air2lean.Base.Sort.{text_le, sorted}
use air2lean.Json.{
  Json, Items, Fields, bool, int, float, str, arr, obj, nil, cons, end, field, get, listed,
  natural_of,
}
use air2lean.Diff.{
  Status, value_match, error_return_match, panic_match, trap_match, illegal, unspecified,
  unspecified_timer, stack_overflow, search_cap, bounded_no_result, mismatch, input_failure,
  native_harness_failure, skipped, ub_excluded,
}

-- The keys of `NUMERIC`: `cases`, the partition, and the columns outside of it.
pub data Column : Type 0 where
  cases exact_matches host_differences illegal_cases unspecified_cases unspecified_timers : Column
  capped_searches bounded_no_results mismatches setup_failures : Column
  skipped_examples skipped_functions proof_exclusions : Column

abbrev pub column_index : Column → ℕ
column_index cases = 0
column_index exact_matches = 1
column_index host_differences = 2
column_index illegal_cases = 3
column_index unspecified_cases = 4
column_index unspecified_timers = 5
column_index capped_searches = 6
column_index bounded_no_results = 7
column_index mismatches = 8
column_index setup_failures = 9
column_index skipped_examples = 10
column_index skipped_functions = 11
column_index proof_exclusions = 12

abbrev pub column_eq : Column → Column → Bool
column_eq a b = column_index a == column_index b

-- `PARTITION`
abbrev pub partition : List Column
partition =
    exact_matches ∷ host_differences ∷ illegal_cases ∷ unspecified_cases ∷ unspecified_timers
    ∷ capped_searches ∷ bounded_no_results ∷ mismatches ∷ setup_failures ∷ []

-- `NUMERIC`
abbrev pub numeric : List Column
numeric =
    cases ∷ exact_matches ∷ host_differences ∷ illegal_cases ∷ unspecified_cases
    ∷ unspecified_timers ∷ capped_searches ∷ bounded_no_results ∷ mismatches ∷ setup_failures
    ∷ skipped_examples ∷ skipped_functions ∷ proof_exclusions ∷ []

-- `COLUMN`, which has no column for a skipped row
unfoldable pub column : Status → Option Column
column Status.value_match = some exact_matches
column Status.error_return_match = some exact_matches
column Status.panic_match = some exact_matches
column Status.trap_match = some exact_matches
column Status.host = some host_differences
column Status.illegal = some illegal_cases
column Status.ub_excluded = some illegal_cases
column Status.stack_overflow = some illegal_cases
column Status.unspecified = some unspecified_cases
column Status.unspecified_timer = some unspecified_timers
column Status.search_cap = some capped_searches
column Status.bounded_no_result = some bounded_no_results
column Status.mismatch = some mismatches
column Status.input_failure = some setup_failures
column Status.native_harness_failure = some setup_failures
column Status.skipped = none

-- `status.value`
abbrev pub status_name : Status → String
status_name Status.value_match = "value_match"
status_name Status.error_return_match = "error_return_match"
status_name Status.panic_match = "panic_match"
status_name Status.trap_match = "trap_match"
status_name Status.illegal = "illegal_exclusion"
status_name Status.unspecified = "unspecified_exclusion"
status_name Status.unspecified_timer = "unspecified_timer_exclusion"
status_name Status.stack_overflow = "stack_overflow_exclusion"
status_name Status.search_cap = "search_cap"
status_name Status.bounded_no_result = "bounded_no_result"
status_name Status.host = "host_difference"
status_name Status.mismatch = "mismatch"
status_name Status.input_failure = "input_failure"
status_name Status.native_harness_failure = "native_harness_failure"
status_name Status.skipped = "skipped"
status_name Status.ub_excluded = "ub_excluded"

abbrev pub all_statuses : List Status
all_statuses =
    Status.value_match ∷ Status.error_return_match ∷ Status.panic_match ∷ Status.trap_match
    ∷ Status.illegal ∷ Status.unspecified ∷ Status.unspecified_timer ∷ Status.stack_overflow
    ∷ Status.search_cap ∷ Status.bounded_no_result ∷ Status.host ∷ Status.mismatch
    ∷ Status.input_failure ∷ Status.native_harness_failure ∷ Status.skipped ∷ Status.ub_excluded
    ∷ []

-- `{status.value: status for status in COLUMN}`
unfoldable pub find_status : String → List Status → Option Status
unfolding column
find_status s [] = none
find_status s (t ∷ ts) =
    let rest = find_status s ts in
    if str_eq (status_name t) s then elim (column t) [ none ↦ rest | some c ↦ some t ] else rest

unfoldable pub known_status : String → Option Status
unfolding find_status
known_status s = find_status s all_statuses

pub data Problem : Type 0 where
  not_json unsupported_schema incomplete_run not_unqualified lacks_profile counts_missing : Problem
  unknown_status : String → Problem
  not_natural wrong_cases wrong_exact_matches wrong_setup_failures : Problem
  unsupported_applicability malformed_exclusions repeated_exclusions : Problem
  no_summaries : Problem
  two_summaries : String → String → Problem

abbrev pub Cells : Type 0
Cells = Column → ℕ

-- `row[c] += n`
unfoldable pub add_to : Option Column → ℕ → Cells → Cells
add_to none n row d = row d
add_to (some c) n row d = if column_eq c d then row d + n else row d

-- `count(value, what)`
unfoldable pub count_of : Option Json → Result Problem ℕ
count_of v = elim (natural_of v) [ none ↦ err not_natural | some n ↦ ok n ]

-- The loop over `counts.items()`.
unfoldable pub tally : Fields → Cells → Result Problem Cells
tally end row = ok row
tally (field s v fs) row = elim (known_status s) [
  | none ↦ err (unknown_status s)
  | some t ↦ count_of (some v) >>= λ n. tally fs (add_to (column t) n row)
]

pub record Row : Type 0 where
  pub version : String
  pub target : String
  pub summary_sha256 : String
  pub cells : Cells
  pub selected_examples : List String
