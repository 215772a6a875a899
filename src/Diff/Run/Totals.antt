-- ===== src/Diff/Run/Totals.antt =====
-- What the numbers in the summary of `compare_summary` in scripts/diff-report.py count.
use air2lean.Base.{
  ℕ, ◌+◌, ◌≤◌, ◌==◌, true, ◌≡◌, refl, ◌≢◌, String, Option, Bool, ◌||◌, List, [], ◌∷◌, as_count,
  arith, length, subst,
}
use air2lean.Base.Result.{ok}
use air2lean.Json.{Json}
use air2lean.Diff.{Status, status_eq, Policy, matches}
use air2lean.Diff.Run.{counted, Row, State}
use air2lean.Diff.Run.Selection.{Directory, Skipped}
use air2lean.Diff.Run.Summary.{
  Call, Example, Loaded, Outcome, outcome, setup_failures, exact_matches, summary_of,
  compare_summary,
}
use air2lean.Diff.Run.Counts.{rows_with, unspecified_violations, IsCounted}
use air2lean.Diff.Run.Report.{rows_with-add, compare_summary-Ended}

-- What the numbers of a summary count.
pub record Counts (o : Outcome) : Type 0 where
  pub cases : o.summary.case_count ≡ length o.rows
  pub statuses :
      (t : Status)
      → counted status_eq t o.summary.counts ≡ rows_with (λ r. status_eq r.case.status t) o.rows
  pub exact : o.summary.exact_matches ≡ rows_with (λ r. matches r.case.status) o.rows
  pub setup :
      o.summary.setup_failures
      ≡ rows_with
          (λ r.
            status_eq r.case.status Status.input_failure
            || status_eq r.case.status Status.native_harness_failure)
          o.rows
  pub eligible_is :
      (o.summary.setup_failures == 0) ≡ true
      → (rows_with (λ r. status_eq r.case.status Status.mismatch) o.rows
          ≤ o.summary.mutation_eligible)
        × (o.summary.mutation_eligible
            ≤ rows_with (λ r. status_eq r.case.status Status.mismatch) o.rows
              + unspecified_violations o.summary.pin_violations)
  pub none_eligible : o.summary.setup_failures ≢ 0 → o.summary.mutation_eligible ≡ 0

abbrev has : Status → Row → Bool
has t r = status_eq r.case.status t

matches-four :
    (t : Status)
    → as_count (matches t)
      ≡ as_count (status_eq t Status.value_match)
        + (as_count (status_eq t Status.error_return_match)
            + (as_count (status_eq t Status.panic_match)
                + (as_count (status_eq t Status.trap_match) + 0)))
unfolding matches
matches-four Status.value_match = refl
matches-four _ = refl

rows_with-matches :
    (rows : List Row)
    → rows_with (λ r. matches r.case.status) rows
      ≡ rows_with (has Status.value_match) rows
        + (rows_with (has Status.error_return_match) rows
            + (rows_with (has Status.panic_match) rows
                + (rows_with (has Status.trap_match) rows + 0)))
unfolding rows_with
rows_with-matches [] = refl
rows_with-matches (r ∷ rows) = omega (arith, rows_with-matches rows, matches-four r.case.status)

either-failure :
    (r : Row)
    → as_count (has Status.input_failure r || has Status.native_harness_failure r)
      ≡ as_count (has Status.input_failure r) + as_count (has Status.native_harness_failure r)
either-failure r = ground arith

pub outcome-Counts :
    (call : Call) (skipped : List Skipped) (s : State)
    → IsCounted s
    → Counts (outcome call skipped s)
unfolding outcome summary_of setup_failures exact_matches
outcome-Counts call skipped s h = record {
  cases = h.size_is;
  statuses = h.counts_are;
  exact = omega (
    arith,
    h.counts_are Status.value_match,
    h.counts_are Status.error_return_match,
    h.counts_are Status.panic_match,
    h.counts_are Status.trap_match,
    rows_with-matches s.rows,
  );
  setup = omega (
    arith,
    h.counts_are Status.input_failure,
    h.counts_are Status.native_harness_failure,
    rows_with-add (λ r. has Status.input_failure r || has Status.native_harness_failure r)
        (has Status.input_failure) (has Status.native_harness_failure) s.rows either-failure,
  );
  eligible_is = λ e. (ground (arith, e, h.eligible_is.0), ground (arith, e, h.eligible_is.1));
  none_eligible = λ e. ground arith;
}

module _ (is_space : ℕ → Bool) (decode : String → Option Json) (sha256 : String → String)
    (panics : Policy) (call : Call) (directories : List Directory) (files : String → Example)
    (receipts : List Loaded) (o : Outcome) where
  -- The summary of a comparison counts the rows of its report: the cases, those of each status, the
  -- matches and the setup failures; after a setup failure no case is eligible for a mutation.
  pub compare_summary-Counts :
      compare_summary is_space decode sha256 panics call directories files receipts ≡ ok o
      → Counts o
  compare_summary-Counts h =
      let ended =
        compare_summary-Ended is_space decode sha256 panics call directories files receipts o h in
      subst Counts ended.is_outcome (outcome-Counts call ended.skipped ended.done ended.is_counted)
