-- ===== src/Diff/Run/Counts.antt =====
-- What the counters of `compare_summary` in scripts/diff-report.py count: the rows of the report.
use air2lean.Base.{
  ℕ, ◌+◌, ◌≤◌, ◌≡◌, String, Option, Bool, true, List, [], ◌∷◌, ◌++◌, if-both, as_count, arith, All,
  length, length-append, sum_of, sum_of-append, subst,
}
use air2lean.Base.Result.{ok, ◌>>=◌, >>=-eq-ok, ok-injective}
use air2lean.Json.{Json}
use air2lean.Accounting.{column}
use air2lean.Diff.{Kind, Status, status_eq, Search, Policy, matches}
use air2lean.Diff.Wire.{Wire, wire}
use air2lean.Diff.Kinds.{native, model}
use air2lean.Diff.Observe.{observation}
use air2lean.Diff.Classify.{Bucket, Flags, differing, classify_observed, classify}
use air2lean.Diff.Run.{
  Lines, Compared, Setting, decoded_line, judged, compare_case, bump, counted, bucket_of, bucket_eq,
  Row, row, State, count_case, is_some, Statuses, Violation,
}
use air2lean.Diff.Run.Functions.{is_unspecified, violate}
use air2lean.Diff.Run.Summary.{Call, Example, compare_examples}
use air2lean.Diff.Run.Counters.{total_in, counted-bump, total_in-bump, status_eq→eq, bucket_eq→eq}
use air2lean.Diff.Run.Keeps.{compare_examples-keeps}

-- How many rows of the report have the property.
unfoldable pub rows_with : (Row → Bool) → List Row → ℕ
rows_with p rows = sum_of (λ r. as_count (p r)) rows

-- The status has a column in the accounting: it is not the one of a skipped example.
abbrev pub HasColumn : Status → Type 0
HasColumn t = is_some (column t) ≡ true

-- The violations of the pins of unspecified results.
unfoldable pub unspecified_violations : List Violation → ℕ
unspecified_violations vs = sum_of (λ v. as_count (is_unspecified v.counter)) vs

pub record IsCounted (s : State) : Type 0 where
  pub totals_are :
      (p : Status → Bool) → total_in p s.totals ≡ rows_with (λ r. p r.case.status) s.rows
  pub counts_are :
      (t : Status)
      → counted status_eq t s.totals ≡ rows_with (λ r. status_eq r.case.status t) s.rows
  pub legacy_are :
      (b : Bucket)
      → counted bucket_eq b s.legacy_totals ≡ rows_with (λ r. bucket_eq r.bucket b) s.rows
  pub size_is : s.case_count ≡ length s.rows
  pub columns_are : All (λ e. HasColumn e.0) s.totals
  pub eligible_is :
      (rows_with (λ r. status_eq r.case.status Status.mismatch) s.rows ≤ s.eligible)
      × (s.eligible
          ≤ rows_with (λ r. status_eq r.case.status Status.mismatch) s.rows
            + unspecified_violations s.violations)

rows_with-append :
    (p : Row → Bool) (rows : List Row) (r : Row)
    → rows_with p (rows ++ r ∷ []) ≡ rows_with p rows + as_count (p r)
unfolding rows_with
rows_with-append p rows r = omega (arith, sum_of-append (λ (q : Row). as_count (p q)) rows (r ∷ []))

module _ (panics : Policy) (n m : Wire) (nkind mkind : Kind) (found : Option Search)
    (flags : Flags) where
  differing-HasColumn : HasColumn (differing panics n m nkind mkind found flags)
  unfolding differing column
  differing-HasColumn = ground arith

  classify-HasColumn :
      (match : Option Bool) → HasColumn (classify panics n m nkind mkind found flags match)
  unfolding classify classify_observed column matches
  classify-HasColumn match = ground (arith, differing-HasColumn)

module _ (decode : String → Option Json) (sha256 : String → String) (panics : Policy) where
  compare_case-HasColumn :
      (at : Setting) (lines : Lines) (c : Compared)
      → compare_case decode sha256 panics at lines ≡ ok c
      → HasColumn c.status
  unfolding compare_case judged
  compare_case-HasColumn at lines c h =
      let (_, _, h1) = >>=-eq-ok (decoded_line decode sha256 panics lines.raw) _ h in
      let (n, _, h2) =
        >>=-eq-ok (decoded_line decode sha256 panics lines.native_line >>= wire) _ h1 in
      let (m, _, h3) =
        >>=-eq-ok (decoded_line decode sha256 panics lines.model_line >>= wire) _ h2 in
      let (nr, _, h4) = >>=-eq-ok (decoded_line decode sha256 panics lines.native_meta) _ h3 in
      let (seen, _, h5) = >>=-eq-ok (observation decode nr n native) _ h4 in
      let (mr, _, h6) = >>=-eq-ok (decoded_line decode sha256 panics lines.model_meta) _ h5 in
      let (found, _, h7) = >>=-eq-ok (observation decode mr m model) _ h6 in
      subst (λ (d : Compared). HasColumn d.status) (ok-injective h7)
        (classify-HasColumn panics n m seen.0 found.0 found.1 _ _)

bump-columns :
    (t : Status) (counts : Statuses)
    → HasColumn t
    → All (λ e. HasColumn e.0) counts
    → All (λ e. HasColumn e.0) (bump status_eq t counts)
unfolding bump
bump-columns t [] c h = (c, tt)
bump-columns t ((u, n) ∷ counts) c (k, h) =
    if-both (All (λ e. HasColumn e.0)) (status_eq u t) {x = (u, n + 1) ∷ counts}
      {y = (u, n) ∷ bump status_eq t counts} (λ _. (k, h)) (λ _. (k, bump-columns t counts c h))

count_case-IsCounted :
    (example fn : String) (index : ℕ) (c : Compared) (s : State)
    → HasColumn c.status
    → IsCounted s
    → IsCounted (count_case example fn index c s)
unfolding count_case row
count_case-IsCounted example fn index c s k h =
    let r = row example fn index c in
    record {
      totals_are = λ p. omega (
        arith,
        total_in-bump status_eq status_eq→eq p c.status s.totals,
        h.totals_are p,
        rows_with-append (λ (q : Row). p q.case.status) s.rows r,
      );
      counts_are = λ t. omega (
        arith,
        counted-bump status_eq status_eq→eq t c.status s.totals,
        h.counts_are t,
        rows_with-append (λ (q : Row). status_eq q.case.status t) s.rows r,
      );
      legacy_are = λ b. omega (
        arith,
        counted-bump bucket_eq bucket_eq→eq b (bucket_of c) s.legacy_totals,
        h.legacy_are b,
        rows_with-append (λ (q : Row). bucket_eq q.bucket b) s.rows r,
      );
      size_is = omega (arith, h.size_is, length-append s.rows (r ∷ []));
      columns_are = bump-columns c.status s.totals k h.columns_are;
      eligible_is =
          (let one =
              rows_with-append (λ (q : Row). status_eq q.case.status Status.mismatch) s.rows r in
            (omega (arith, one, h.eligible_is.0), omega (arith, one, h.eligible_is.1)));
    }

violate-IsCounted : (o : Bool) (v : Violation) (s : State) → IsCounted s → IsCounted (violate o v s)
unfolding violate unspecified_violations
violate-IsCounted o v s h = record {
  eligible_is =
      (let one =
          sum_of-append (λ (w : Violation). as_count (is_unspecified w.counter)) s.violations
            (v ∷ []) in
        (ground (arith, h.eligible_is.0), ground (arith, one, h.eligible_is.1)));
  totals_are = h.totals_are;
  counts_are = h.counts_are;
  legacy_are = h.legacy_are;
  size_is = h.size_is;
  columns_are = h.columns_are;
}

module _ (is_space : ℕ → Bool) (decode : String → Option Json) (sha256 : String → String)
    (panics : Policy) where
  -- After the examples, from no case, the counters count the rows.
  pub compare_examples-IsCounted :
      (call : Call) (files : String → Example) (examples : List String) (s done : State)
      → compare_examples is_space decode sha256 panics call files examples s ≡ ok done
      → IsCounted s
      → IsCounted done
  compare_examples-IsCounted =
      compare_examples-keeps IsCounted violate-IsCounted is_space decode sha256 panics
        (λ at lines c example fn index s e h.
          count_case-IsCounted example fn index c s
            (compare_case-HasColumn decode sha256 panics at lines c e) h)
