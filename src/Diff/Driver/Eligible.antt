-- ===== src/Diff/Driver/Eligible.antt =====
-- What the exit code of scripts/diff-report.py and its count of eligible cases stand for.
use air2lean.Base.{
  ℕ, ◌+◌, ◌≤◌, ◌≡◌, refl, ap, ◌∙◌, ◌↔◌, String, Option, Bool, ◌||◌, List, ◌==◌, if◌then◌else◌,
  arith, Bool-cases, inl, inr,
}
use air2lean.Base.Result.{Result, ok, err, ok-injective}
use air2lean.Json.{Json, Fields, get, obj, natural_of}
use air2lean.Diff.{Failure, invalid, Status, status_eq, Policy}
use air2lean.Diff.Run.{Row}
use air2lean.Diff.Run.Selection.{Directory}
use air2lean.Diff.Run.Summary.{Summary, Outcome, Call, Example, Loaded, compare_summary}
use air2lean.Diff.Run.Counts.{rows_with, unspecified_violations}
use air2lean.Diff.Run.Totals.{compare_summary-Counts}
use air2lean.Diff.Run.Written.{written}
use air2lean.Diff.Driver.{FailedInput, compare, eligible, main}

-- The eligible cases of a written summary are read exactly when it counts no setup failure.
eligible_of :
    (sources : String → Json) (rest : Fields) (s : Summary)
    → eligible (obj (written sources rest s))
      ≡ (if s.setup_failures == 0 then ok s.mutation_eligible else err invalid)
unfolding eligible written get natural_of
eligible_of sources rest s = ground arith

-- A row whose input or whose harness failed.
abbrev pub is_setup_failure : Row → Bool
is_setup_failure r =
    status_eq r.case.status Status.input_failure
    || status_eq r.case.status Status.native_harness_failure

-- What `eligible` says of the summary of a comparison: it refuses where a row is a setup failure. Else
-- it has a number, of the mismatches and of violations of the pins of unspecified results.
pub data Detected (o : Outcome) (printed : Result Failure ℕ) : Type 0 where
  refused : 1 ≤ rows_with is_setup_failure o.rows → printed ≡ err invalid → Detected o printed
  detected :
      (n : ℕ)
      → rows_with is_setup_failure o.rows ≡ 0
      → printed ≡ ok n
      → rows_with (λ r. status_eq r.case.status Status.mismatch) o.rows ≤ n
      → n
        ≤ rows_with (λ r. status_eq r.case.status Status.mismatch) o.rows
          + unspecified_violations o.summary.pin_violations
      → Detected o printed

-- Of the summary that a comparison which returned writes, `eligible` refuses to print a number exactly
-- where a row of the report is an input or a harness failure; else the number is at least that of the
-- mismatches in the report, and exceeds it by at most the violations of pins of unspecified results.
pub eligible-Detected :
    (is_space : ℕ → Bool) (decode : String → Option Json) (sha256 : String → String)
    (panics : Policy) (call : Call) (directories : List Directory) (files : String → Example)
    (receipts : List Loaded) (o : Outcome) (sources : String → Json) (rest : Fields)
    → compare_summary is_space decode sha256 panics call directories files receipts ≡ ok o
    → Detected o (eligible (obj (written sources rest o.summary)))
eligible-Detected is_space decode sha256 panics call directories files receipts o sources rest h =
    let counts =
      compare_summary-Counts is_space decode sha256 panics call directories files receipts o h in
    let printed = eligible_of sources rest o.summary in
    elim (Bool-cases (o.summary.setup_failures == 0)) [
      | inr e ↦ refused (ground (arith, counts.setup, e)) (ground (arith, printed, e))
      | inl e ↦
          (let (least, most) = counts.eligible_is e in
            detected o.summary.mutation_eligible (ground (arith, counts.setup, e))
              (ground (arith, printed, e)) least most)
    ]

-- A run that compares exits with 0 exactly when the comparison returned with the exit code 0.
pub main-exit_iff :
    (examples : List String) (existing : Option Json) (observed : Result Failure (List FailedInput))
    (comparison : Result Failure Outcome)
    → ((main compare examples existing observed comparison).exit_code ≡ 0)
      ↔ ((o : Outcome) × (comparison ≡ ok o) × (o.exit_code ≡ 0))
unfolding main
main-exit_iff examples existing observed (ok o) =
    (λ h. (o, refl, h), λ h. ap (λ (p : Outcome). p.exit_code) (ok-injective h.1) ∙ h.2)
main-exit_iff examples existing observed (err f) =
    (λ h. absurd (grind (arith, h)), λ h. absurd (never f h.0 h.1))
  where
    never : (f : Failure) (o : Outcome) → ◌≡◌ {A = Result Failure Outcome} (err f) (ok o) → ⊥
    never f o e = absurd (cc)
