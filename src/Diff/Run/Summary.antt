-- ===== src/Diff/Run/Summary.antt =====
-- The body of `compare_summary` in scripts/diff-report.py: the receipts, the
-- examples, the summary and the exit code. The receipts are those that `schedule_receipt` accepted.
use air2lean.Base.{
  ℕ, ◌+◌, String, Option, none, some, Bool, false, ◌&&◌, ◌||◌, not, List, [], ◌∷◌, map, str_eq,
  ◌==◌, ltb, if◌then◌else◌, all, is_empty, length, sum_of,
}
use air2lean.Base.Result.{Result, ok, err, ◌>>=◌, ◌>>◌, refuse_if}
use air2lean.Base.Text.{is_ident}
use air2lean.Json.{Json, listed}
use air2lean.Outcomes.Admits.{has_duplicates}
use air2lean.Diff.{Status, status_eq, Policy, Failure, invalid, max_cases}
use air2lean.Diff.Classify.{Bucket}
use air2lean.Diff.Exploration.{Exploration, Receipt, add_receipt, unexplored}
use air2lean.Diff.Config.{pins, pin_file, host_allowances}
use air2lean.Diff.Run.{counted, bucket_eq, is_some, Statuses, Buckets, Violation, State, Row}
use air2lean.Diff.Run.Selection.{Directory, Skipped, selection}
use air2lean.Diff.Run.Functions.{Function, Config, compare_functions}

-- The files of an example. A list of functions is missing where the directory of inputs is.
pub record Example : Type 0 where
  pub functions : Option (List Function)
  pub host_file : Option (List String)
  pub own_unspecified : Option (List String)
  pub shared_unspecified : Option (List String)
  pub own_capped : Option (List String)
  pub shared_capped : Option (List String)

-- A receipt that was accepted: the path as it was given, the path resolved, and the digest.
pub record Loaded : Type 0 where
  pub given : String
  pub resolved : String
  pub digest : String
  pub receipt : Receipt

-- What the call of the comparison names.
pub record Call : Type 0 where
  pub examples : List String
  pub version : String
  pub host : String
  pub build : Option (String × String)
  pub fresh_seed : Option String

unfoldable pub exclude_ub : Option (String × String) → Bool
exclude_ub none = false
exclude_ub (some (mode, backend)) = str_eq mode "ReleaseFast" || str_eq mode "ReleaseSmall"

-- No receipt, by its path or by its digest, is given twice.
unfoldable pub add_receipts :
    List Loaded → List String → List String → Exploration → Result Failure Exploration
unfolding listed add_receipt
add_receipts [] paths digests x = ok x
add_receipts (r ∷ rs) paths digests x = do
  refuse_if (listed r.resolved paths || listed r.digest digests) invalid
  add_receipts rs (r.resolved ∷ paths) (r.digest ∷ digests) (add_receipt r.receipt x)

abbrev pub started : Exploration → State
started x = record {
  totals = [];
  legacy_totals = [];
  violations = [];
  eligible = 0;
  case_count = 0;
  exploration = x;
  rows = [];
}

-- The summary of a comparison, less the digests and the lists of files.
pub record Summary : Type 0 where
  pub version : String
  pub host : String
  pub build : Option (String × String)
  pub case_count : ℕ
  pub skipped_examples : ℕ
  pub skipped_functions : ℕ
  pub exact_matches : ℕ
  pub proof_exclusions : List String
  pub counts : Statuses
  pub legacy_counts : Buckets
  pub exploration : Exploration
  pub pin_violations : List Violation
  pub mutation_eligible : ℕ
  pub fresh_input_seed : Option String
  pub setup_failures : ℕ

unfoldable pub setup_failures : Statuses → ℕ
unfolding counted
setup_failures totals =
    counted status_eq Status.input_failure totals
    + counted status_eq Status.native_harness_failure totals

-- `sum(totals[s.value] for s in MATCHES)`
unfoldable pub exact_matches : Statuses → ℕ
unfolding counted
exact_matches totals =
    sum_of (λ t. counted status_eq t totals)
      (Status.value_match ∷ Status.error_return_match ∷ Status.panic_match ∷ Status.trap_match ∷ [])

unfoldable pub summary_of : Call → List Skipped → State → Summary
unfolding setup_failures exact_matches
summary_of call skipped s = record {
  version = call.version;
  host = call.host;
  build = call.build;
  case_count = s.case_count;
  skipped_examples = length skipped;
  skipped_functions = sum_of (λ row. length row.functions) skipped;
  exact_matches = exact_matches s.totals;
  proof_exclusions = call.examples;
  counts = s.totals;
  legacy_counts = s.legacy_totals;
  exploration = s.exploration;
  pin_violations = s.violations;
  mutation_eligible = if setup_failures s.totals == 0 then s.eligible else 0;
  fresh_input_seed = call.fresh_seed;
  setup_failures = setup_failures s.totals;
}

unfoldable pub exit_code : State → ℕ
unfolding setup_failures counted
exit_code s =
    if not (setup_failures s.totals == 0)
      || not (counted status_eq Status.mismatch s.totals == 0)
      || not (counted bucket_eq Bucket.mismatch s.legacy_totals == 0)
      || not (is_empty s.violations)
    then 1
    else 0

-- What a comparison returns, and the rows of its report.
pub record Outcome : Type 0 where
  pub exit_code : ℕ
  pub summary : Summary
  pub skipped : List Skipped
  pub rows : List Row

unfoldable pub outcome : Call → List Skipped → State → Outcome
unfolding exit_code summary_of
outcome call skipped s = record {
  exit_code = exit_code s;
  summary = summary_of call skipped s;
  skipped = skipped;
  rows = s.rows;
}

unfoldable pub is_valid_call : Call → Bool
unfolding has_duplicates
is_valid_call call =
    not (is_empty call.examples) && not (has_duplicates call.examples) && all is_ident call.examples

module _ (is_space : ℕ → Bool) (decode : String → Option Json) (sha256 : String → String)
    (panics : Policy) where
  unfoldable pub config_of : Call → Example → Result Failure Config
  unfolding pins pin_file host_allowances exclude_ub
  config_of call e = do
    allowances ← host_allowances is_space e.host_file
    unspecified_pins ← pins is_space (pin_file e.own_unspecified e.shared_unspecified)
    capped_pins ← pins is_space (pin_file e.own_capped e.shared_capped)
    ok (record {
      allowed_host = if str_eq call.host "Linux-x86_64" then [] else allowances;
      unspecified_pins = unspecified_pins;
      capped_pins = capped_pins;
      exclude_ub = exclude_ub call.build;
      is_fresh = is_some call.fresh_seed;
    })

  unfoldable pub compare_functions_of :
      Config → String → Option (List Function) → State → Result Failure State
  unfolding compare_functions
  compare_functions_of config example none s = err invalid
  compare_functions_of config example (some fs) s = do
    refuse_if (is_empty fs) invalid
    compare_functions decode sha256 panics config example fs s

  unfoldable pub compare_examples :
      Call → (String → Example) → List String → State → Result Failure State
  unfolding config_of compare_functions_of
  compare_examples call files [] s = ok s
  compare_examples call files (example ∷ examples) s = do
    refuse_if (not (is_some (files example).functions)) invalid
    config ← config_of call (files example)
    done ← compare_functions_of config example (files example).functions s
    compare_examples call files examples done

  unfoldable pub compare_summary :
      Call → List Directory → (String → Example) → List Loaded → Result Failure Outcome
  unfolding is_valid_call has_duplicates add_receipts selection compare_examples summary_of
      exit_code
  compare_summary call directories files receipts = do
    refuse_if (not (is_valid_call call)) invalid
    refuse_if (ltb max_cases (length receipts) || has_duplicates (map (λ r. r.given) receipts))
        invalid
    x ← add_receipts receipts [] [] unexplored
    skipped ← selection call.examples call.host call.version directories
    done ← compare_examples call files call.examples (started x)
    ok (outcome call skipped done)
