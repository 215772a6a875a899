-- ===== src/Diff/Run/Written/Accepted.antt =====
-- What scripts/diff-report.py writes, scripts/accounting.py reads: `summary_row` on the dict that
-- `compare_summary` writes.
use air2lean.Base.{
  ℕ, ◌≡◌, refl, ap, ◌∙◌, sym, String, Option, Bool, true, false, ◌||◌, List, [], ◌∷◌, ==_iff,
  str_eq, arith, All, All-every, as_count, length, sum_of, is_empty, subst,
}
use air2lean.Base.Sort.{text_le, sorted}
use air2lean.Base.Result.{Result, ok, ◌>>=◌}
use air2lean.Json.{Json, Fields, get, natural_of}
use air2lean.Outcomes.Admits.{has_duplicates}
use air2lean.Accounting.{
  Column, cases, exact_matches, setup_failures, partition, status_name, count_of, tally, Cells,
}
use air2lean.Accounting as Accounting
use air2lean.Accounting.Summary.{
  no_cells, counts_of, header_of, cases_of, equal_count, excluded_of, exclusions_of, finished,
  row_from, row_of,
}
use air2lean.Diff.{Status, status_eq, Policy, matches}
use air2lean.Diff.Run.{State, Row}
use air2lean.Diff.Run.Selection.{Directory, Skipped}
use air2lean.Diff.Run.Summary.{
  Call, Example, Loaded, Outcome, outcome, Summary, summary_of, is_valid_call, compare_summary,
}
use air2lean.Diff.Run.Counters.{total_in}
use air2lean.Diff.Run.Counts.{rows_with, IsCounted}
use air2lean.Diff.Run.Totals.{outcome-Counts}
use air2lean.Diff.Run.Report.{compare_summary-Ended}
use air2lean.Diff.Run.Written.{written, exclusion_items, count_fields}
use air2lean.Diff.Run.Written.Tallied.{
  in_column, in_column-exact, in_column-setup, tally-counts, partition-total,
}

exclusions_of-items :
    (sources : String → Json) (examples : List String)
    → exclusions_of (exclusion_items sources examples) ≡ ok examples
unfolding exclusions_of exclusion_items get
exclusions_of-items sources [] = refl
exclusions_of-items sources (ex ∷ examples) =
    ap (λ r. r >>= λ ss. ok (ex ∷ ss)) (exclusions_of-items sources examples)

>>=-ok :
    {E A B : Type 0} (first : Result E A) (next : A → Result E B) (a : A)
    → first ≡ ok a
    → (first >>= next) ≡ next a
>>=-ok first next a e = ap (λ r. r >>= next) e

-- The row agrees with the report: its columns count the rows of the report by status.
pub record Reads (call : Call) (o : Outcome) (row : Accounting.Row) : Type 0 where
  pub cases_are : row.cells cases ≡ length o.rows
  pub columns_are :
      All (λ c. row.cells c ≡ rows_with (λ r. in_column c r.case.status) o.rows) partition
  pub version_is : row.version ≡ call.version
  pub target_is : row.target ≡ call.host
  pub examples_are : row.selected_examples ≡ sorted text_le call.examples

module _ (sources : String → Json) (rest : Fields) (s : Summary) where
  header_of-written :
      str_eq s.version "" ≡ false
      → str_eq s.host "" ≡ false
      → header_of (written sources rest s) ≡ ok (s.version, s.host)
  unfolding header_of written get
  header_of-written v h = ground (arith, v, h)

  excluded_of-written :
      is_empty s.proof_exclusions ≡ false
      → has_duplicates s.proof_exclusions ≡ false
      → excluded_of (written sources rest s)
        ≡ ok (record {
          examples = s.skipped_examples;
          functions = s.skipped_functions;
          selected = s.proof_exclusions;
        })
  unfolding excluded_of written get count_of natural_of
  excluded_of-written e d = ground (arith, exclusions_of-items sources s.proof_exclusions, e, d)

  cases_of-written :
      (row : Cells)
      → sum_of row partition ≡ s.case_count
      → row exact_matches ≡ s.exact_matches
      → row setup_failures ≡ s.setup_failures
      → cases_of (written sources rest s) row ≡ ok s.case_count
  unfolding cases_of written get count_of natural_of equal_count
  cases_of-written row total exact setup = ground (
    arith,
    (==_iff (sum_of row partition) s.case_count).1 total,
    (==_iff s.exact_matches (row exact_matches)).1 (sym exact),
    (==_iff s.setup_failures (row setup_failures)).1 (sym setup),
  )

  row_of-written :
      (digest : String) (row : Cells)
      → str_eq s.version "" ≡ false
      → str_eq s.host "" ≡ false
      → is_empty s.proof_exclusions ≡ false
      → has_duplicates s.proof_exclusions ≡ false
      → tally (count_fields status_name s.counts) no_cells ≡ ok row
      → sum_of row partition ≡ s.case_count
      → row exact_matches ≡ s.exact_matches
      → row setup_failures ≡ s.setup_failures
      → row_of digest (written sources rest s)
        ≡ ok (
            row_from digest
              (s.version, s.host)
              row
              s.case_count
              (record {
                examples = s.skipped_examples;
                functions = s.skipped_functions;
                selected = s.proof_exclusions;
              }))
  unfolding row_of counts_of written get
  row_of-written digest row v h e d t total exact setup =
      >>=-ok (header_of (written sources rest s)) _ (s.version, s.host) (header_of-written v h)
      ∙ >>=-ok (tally (count_fields status_name s.counts) no_cells) _ row t
      ∙ >>=-ok (cases_of (written sources rest s) row) _ s.case_count
          (cases_of-written row total exact setup)
      ∙ >>=-ok (excluded_of (written sources rest s)) _ _ (excluded_of-written e d)

rows_with-same :
    (p q : Row → Bool) (rows : List Row)
    → ((r : Row) → p r ≡ q r)
    → rows_with p rows ≡ rows_with q rows
unfolding rows_with
rows_with-same p q [] h = refl
rows_with-same p q (r ∷ rows) h = omega (arith, rows_with-same p q rows h, ap as_count (h r))

rows_with-every : (rows : List Row) → rows_with (λ r. true) rows ≡ length rows
unfolding rows_with
rows_with-every [] = refl
rows_with-every (r ∷ rows) = omega (arith, rows_with-every rows)

valid_parts :
    (call : Call)
    → is_valid_call call ≡ true
    → (is_empty call.examples ≡ false) × (has_duplicates call.examples ≡ false)
unfolding is_valid_call
valid_parts call h = ground arith

same_sums :
    (f g : Column → ℕ) (cs : List Column) → ((c : Column) → f c ≡ g c) → sum_of f cs ≡ sum_of g cs
same_sums f g [] h = refl
same_sums f g (c ∷ cs) h = omega (arith, h c, same_sums f g cs h)

-- The row that is read from the summary of a state whose counters count its rows.
outcome-Reads :
    (sources : String → Json) (rest : Fields) (digest : String) (call : Call)
    (skipped : List Skipped) (s : State)
    → IsCounted s
    → is_valid_call call ≡ true
    → str_eq call.version "" ≡ false
    → str_eq call.host "" ≡ false
    → (row : Accounting.Row) × (row_of digest
          (written sources rest (outcome call skipped s).summary)
        ≡ ok row)
      × Reads call (outcome call skipped s) row
unfolding outcome summary_of row_from finished
outcome-Reads sources rest digest call skipped s h valid v host =
    let (cells, t, each) = tally-counts s.totals no_cells h.columns_are in
    let plain : (c : Column) → cells c ≡ total_in (in_column c) s.totals =
      λ c. omega (arith, each c) in
    let column : (c : Column) → cells c ≡ rows_with (λ r. in_column c r.case.status) s.rows =
      λ c. plain c ∙ h.totals_are (in_column c) in
    let counts = outcome-Counts call skipped s h in
    let exact =
      rows_with-same (λ r. in_column exact_matches r.case.status) (λ r. matches r.case.status)
        s.rows (λ r. in_column-exact r.case.status) in
    let setup =
      rows_with-same (λ r. in_column setup_failures r.case.status)
        (λ r.
          status_eq r.case.status Status.input_failure
          || status_eq r.case.status Status.native_harness_failure)
        s.rows (λ r. in_column-setup r.case.status) in
    let total : sum_of cells partition ≡ s.case_count = omega (
      arith,
      same_sums cells (λ c. total_in (in_column c) s.totals) partition plain,
      partition-total s.totals h.columns_are,
      h.totals_are (λ x. true),
      rows_with-every s.rows,
      h.size_is,
    ) in
    let (some_example, distinct) = valid_parts call valid in
    (
      _,
      row_of-written sources rest (summary_of call skipped s) digest cells v host some_example
          distinct t total (column exact_matches ∙ exact ∙ sym counts.exact)
          (column setup_failures ∙ setup ∙ sym counts.setup),
      record {
        cases_are = h.size_is;
        columns_are = All-every column partition;
        version_is = refl;
        target_is = refl;
        examples_are = refl;
      },
    )

module _ (is_space : ℕ → Bool) (decode : String → Option Json) (sha256 : String → String)
    (panics : Policy) (call : Call) (directories : List Directory) (files : String → Example)
    (receipts : List Loaded) (o : Outcome) where
  -- The summary of a comparison that returned, with a version and a host that are not empty, is read
  -- by the accounting as a row, whose cases are the rows of the report, whose columns count the rows
  -- of their statuses, and whose examples are the selected ones, sorted.
  pub compare_summary-Reads :
      (sources : String → Json) (rest : Fields) (digest : String)
      → compare_summary is_space decode sha256 panics call directories files receipts ≡ ok o
      → str_eq call.version "" ≡ false
      → str_eq call.host "" ≡ false
      → (row : Accounting.Row) × (row_of digest (written sources rest o.summary) ≡ ok row)
        × Reads call o row
  compare_summary-Reads sources rest digest h v host =
      let ended =
        compare_summary-Ended is_space decode sha256 panics call directories files receipts o h in
      subst
        (λ (p : Outcome).
          (row : Accounting.Row) × (row_of digest (written sources rest p.summary) ≡ ok row)
          × Reads call p row)
        ended.is_outcome
        (outcome-Reads sources rest digest call ended.skipped ended.done ended.is_counted
          ended.valid v host)
