-- ===== src/Diff/Run/Report.antt =====
-- What the exit code and the summary of `compare_summary` in scripts/diff-report.py say of the rows
-- of the report.
use air2lean.Base.{
  ℕ, ◌+◌, ◌≡◌, refl, ◌↔◌, String, Option, Bool, true, false, ◌||◌, not, List, [], ◌∷◌, map, ltb,
  as_count, arith, All, length, is_empty→eq, subst, not-false,
}
use air2lean.Base.Result.{ok, >>=-eq-ok, refuse_if-eq-ok, ok-injective}
use air2lean.Json.{Json}
use air2lean.Outcomes.Admits.{has_duplicates}
use air2lean.Diff.{Status, status_eq, Policy, invalid, max_cases}
use air2lean.Diff.Classify.{Bucket}
use air2lean.Diff.Exploration.{Exploration, unexplored}
use air2lean.Diff.Run.{counted, bucket_eq, Row, State}
use air2lean.Diff.Run.Selection.{Directory, Skipped, selection}
use air2lean.Diff.Run.Summary.{
  Call, Example, Loaded, started, add_receipts, Outcome, outcome, exit_code, setup_failures,
  summary_of, is_valid_call, compare_examples, compare_summary,
}
use air2lean.Diff.Run.Counters.{total_in}
use air2lean.Diff.Run.Counts.{
  rows_with, unspecified_violations, IsCounted, compare_examples-IsCounted,
}

-- How a comparison that returned ended: with counters that count its rows.
pub record Ended (is_space : ℕ → Bool) (decode : String → Option Json) (sha256 : String → String)
    (panics : Policy) (call : Call) (files : String → Example) (receipts : List Loaded)
    (o : Outcome) : Type 0 where
  pub explored : Exploration
  pub skipped : List Skipped
  pub done : State
  pub valid : is_valid_call call ≡ true
  pub receipts_are : add_receipts receipts [] [] unexplored ≡ ok explored
  pub ran :
      compare_examples is_space decode sha256 panics call files call.examples (started explored)
      ≡ ok done
  pub is_counted : IsCounted done
  pub is_outcome : outcome call skipped done ≡ o

started-IsCounted : (x : Exploration) → IsCounted (started x)
unfolding rows_with counted total_in unspecified_violations
started-IsCounted x = record {
  totals_are = λ p. refl;
  counts_are = λ t. refl;
  legacy_are = λ b. refl;
  size_is = refl;
  columns_are = tt;
  eligible_is = (omega arith, omega arith);
}

rows_with-zero_iff :
    (p : Row → Bool) (rows : List Row) → (rows_with p rows ≡ 0) ↔ All (λ r. p r ≡ false) rows
unfolding rows_with
rows_with-zero_iff p [] = ground arith
rows_with-zero_iff p (r ∷ rows) = ground (arith, rows_with-zero_iff p rows)

pub rows_with-add :
    (p q r : Row → Bool) (rows : List Row)
    → ((x : Row) → as_count (p x) ≡ as_count (q x) + as_count (r x))
    → rows_with p rows ≡ rows_with q rows + rows_with r rows
unfolding rows_with
rows_with-add p q r [] h = refl
rows_with-add p q r (x ∷ rows) h = omega (arith, h x, rows_with-add p q r rows h)

-- A row that fails the comparison.
abbrev pub is_failing : Row → Bool
is_failing r =
    status_eq r.case.status Status.input_failure
    || status_eq r.case.status Status.native_harness_failure
    || status_eq r.case.status Status.mismatch
    || bucket_eq r.bucket Bucket.mismatch

All-failing :
    (rows : List Row)
    → All (λ r. is_failing r ≡ false) rows ↔ (
        All (λ r. status_eq r.case.status Status.input_failure ≡ false) rows
        × All (λ r. status_eq r.case.status Status.native_harness_failure ≡ false) rows
        × All (λ r. status_eq r.case.status Status.mismatch ≡ false) rows
        × All (λ r. bucket_eq r.bucket Bucket.mismatch ≡ false) rows)
All-failing [] = ground arith
All-failing (r ∷ rows) = ground (arith, All-failing rows)

exit_code-zero_iff :
    (s : State)
    → IsCounted s
    → (exit_code s ≡ 0) ↔ (All (λ r. is_failing r ≡ false) s.rows × (s.violations ≡ []))
unfolding exit_code setup_failures
exit_code-zero_iff s h =
    let input = rows_with-zero_iff (λ r. status_eq r.case.status Status.input_failure) s.rows in
    let harness =
      rows_with-zero_iff (λ r. status_eq r.case.status Status.native_harness_failure) s.rows in
    let mismatch = rows_with-zero_iff (λ r. status_eq r.case.status Status.mismatch) s.rows in
    let legacy = rows_with-zero_iff (λ r. bucket_eq r.bucket Bucket.mismatch) s.rows in
    ground (
      arith,
      input,
      harness,
      mismatch,
      legacy,
      h.counts_are Status.input_failure,
      h.counts_are Status.native_harness_failure,
      h.counts_are Status.mismatch,
      h.legacy_are Bucket.mismatch,
      All-failing s.rows,
      is_empty→eq s.violations,
    )

module _ (is_space : ℕ → Bool) (decode : String → Option Json) (sha256 : String → String)
    (panics : Policy) (call : Call) (directories : List Directory) (files : String → Example)
    (receipts : List Loaded) (o : Outcome) where
  pub compare_summary-Ended :
      compare_summary is_space decode sha256 panics call directories files receipts ≡ ok o
      → Ended is_space decode sha256 panics call files receipts o
  unfolding compare_summary
  compare_summary-Ended h =
      let (valid, h1) = refuse_if-eq-ok (not (is_valid_call call)) invalid _ h in
      let (_, h2) =
        refuse_if-eq-ok
          (ltb max_cases (length receipts) || has_duplicates (map (λ r. r.given) receipts)) invalid
          _ h1 in
      let (x, rs, h3) = >>=-eq-ok (add_receipts receipts [] [] unexplored) _ h2 in
      let (skipped, _, h4) =
        >>=-eq-ok (selection call.examples call.host call.version directories) _ h3 in
      let (done, e, h5) =
        >>=-eq-ok
          (compare_examples is_space decode sha256 panics call files call.examples (started x)) _
          h4 in
      record {
        explored = x;
        skipped = skipped;
        done = done;
        valid = not-false _ valid;
        receipts_are = rs;
        ran = e;
        is_counted =
            compare_examples-IsCounted is_space decode sha256 panics call files call.examples
              (started x) done e (started-IsCounted x);
        is_outcome = ok-injective h5;
      }

  -- A comparison that returned exits with 0 exactly when no row of its report is a mismatch, typed or
  -- in the legacy counters, an input failure or a harness failure, and no pin is violated.
  pub compare_summary-exit_iff :
      compare_summary is_space decode sha256 panics call directories files receipts ≡ ok o
      → (o.exit_code ≡ 0)
        ↔ (All (λ r. is_failing r ≡ false) o.rows × (o.summary.pin_violations ≡ []))
  unfolding outcome summary_of
  compare_summary-exit_iff h =
      let ended = compare_summary-Ended h in
      subst
        (λ (p : Outcome).
          (p.exit_code ≡ 0)
          ↔ (All (λ r. is_failing r ≡ false) p.rows × (p.summary.pin_violations ≡ [])))
        ended.is_outcome (exit_code-zero_iff ended.done ended.is_counted)
