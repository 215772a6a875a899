-- ===== src/Accounting/Summary/Partition.antt =====
-- What the row of a summary counts: `summary_row` of scripts/accounting.py.
use mathlib.Core.Path.{subst}
use air2lean.Base.{
  ℕ, ◌+◌, ◌≡◌, ap, ◌∙◌, String, Option, none, some, true, not, ◌==◌, ==_iff, not-false,
  if◌then◌else◌, sum_of, arith, Option-cases, Bool-cases, str_eq, eq_iff, List, [], ◌∷◌, sym, refl,
  inl, inr, All, All-every,
}
use air2lean.Base.Result.{ok, ◌>>=◌, refuse_if, >>=-eq-ok, refuse_if-eq-ok, ok-injective}
use air2lean.Json.{Json, Fields, end, field, obj, get, natural_of}
use air2lean.Closure.{value_of}
use air2lean.Diff.{Status}
use air2lean.Accounting.{
  Column, cases, exact_matches, host_differences, illegal_cases, unspecified_cases,
  unspecified_timers, capped_searches, bounded_no_results, mismatches, setup_failures, partition,
  status_name, all_statuses, find_status, column, column_eq, known_status, Problem,
  wrong_exact_matches, wrong_setup_failures, Cells, count_of, add_to, tally, Row,
}
use air2lean.Accounting.Summary.{
  equal_count, cases_of, header_of, excluded_of, row_from, row_of, no_cells, finished, counts_of,
}

-- The column of each status, by their names in the summary. A trap that both sides met is an exact match
-- here, and a run past the stack or under `ub_excluded` is illegal, which DEFINITION and
-- docs/host-accounting.md leave out.
abbrev pub named_columns : List (String × Column)
named_columns =
    ("value_match", exact_matches)
    ∷ ("error_return_match", exact_matches)
    ∷ ("panic_match", exact_matches)
    ∷ ("trap_match", exact_matches)
    ∷ ("host_difference", host_differences)
    ∷ ("illegal_exclusion", illegal_cases)
    ∷ ("ub_excluded", illegal_cases)
    ∷ ("stack_overflow_exclusion", illegal_cases)
    ∷ ("unspecified_exclusion", unspecified_cases)
    ∷ ("unspecified_timer_exclusion", unspecified_timers)
    ∷ ("search_cap", capped_searches)
    ∷ ("bounded_no_result", bounded_no_results)
    ∷ ("mismatch", mismatches)
    ∷ ("input_failure", setup_failures)
    ∷ ("native_harness_failure", setup_failures)
    ∷ []

-- The count of one entry of `counts`, where its name is one of the column's.
unfoldable pub named_in : Column → String → ℕ → ℕ
unfolding value_of
named_in c s n = elim (value_of s named_columns) [
  | none ↦ 0
  | some d ↦ if column_eq d c then n else 0
]

-- The same by the status.
abbrev counted_in : Column → Option Status → ℕ → ℕ
counted_in c none n = 0
counted_in c (some s) n = elim (column s) [ none ↦ 0 | some d ↦ if column_eq d c then n else 0 ]

abbrev pub number_of : Option ℕ → ℕ
number_of none = 0
number_of (some n) = n

-- The cases of the summary whose status belongs in the column.
unfoldable pub column_total : Column → Fields → ℕ
unfolding named_in
column_total c end = 0
column_total c (field s v fs) = named_in c s (number_of (natural_of (some v))) + column_total c fs

-- A status that is known has that name.
find_status-name :
    (s : String) (ts : List Status) (t : Status) → find_status s ts ≡ some t → status_name t ≡ s
unfolding find_status
find_status-name s [] t h = cc
find_status-name s (u ∷ ts) t h = elim (Bool-cases (str_eq (status_name u) s)) [
  | inr e ↦ find_status-name s ts t (ground (arith, e, h))
  | inl e ↦ elim (Option-cases (column u)) [
    | inl gone ↦ find_status-name s ts t (ground (arith, e, gone, h))
    | inr (c, there) ↦
        (let same : u ≡ t = ground (arith, e, there, h) in
          ap status_name (sym same) ∙ (eq_iff (status_name u) s).0 e)
  ]
]

-- The columns by name are those of the statuses.
name-column : (t : Status) → value_of (status_name t) named_columns ≡ column t
unfolding value_of column
name-column Status.value_match = refl
name-column Status.error_return_match = refl
name-column Status.panic_match = refl
name-column Status.trap_match = refl
name-column Status.host = refl
name-column Status.illegal = refl
name-column Status.ub_excluded = refl
name-column Status.stack_overflow = refl
name-column Status.unspecified = refl
name-column Status.unspecified_timer = refl
name-column Status.search_cap = refl
name-column Status.bounded_no_result = refl
name-column Status.mismatch = refl
name-column Status.input_failure = refl
name-column Status.native_harness_failure = refl
name-column Status.skipped = refl

named_in-counted :
    (c : Column) (s : String) (t : Status) (n : ℕ)
    → known_status s ≡ some t
    → named_in c s n ≡ counted_in c (some t) n
unfolding named_in known_status
named_in-counted c s t n h =
    (let name = find_status-name s all_statuses t h in
      let at : value_of s named_columns ≡ column t =
        sym (ap (λ z. value_of z named_columns) name) ∙ name-column t in
      ap (λ (o : Option Column). elim o [ none ↦ 0 | some d ↦ if column_eq d c then n else 0 ]) at)

count_of-eq-ok : (v : Option Json) (n : ℕ) → count_of v ≡ ok n → natural_of v ≡ some n
unfolding count_of
count_of-eq-ok v n h = ground arith

add_to-counted_in :
    (c : Column) (d : Option Column) (n : ℕ) (row : Cells)
    → add_to d n row c ≡ row c + (elim d [ none ↦ 0 | some e ↦ if column_eq e c then n else 0 ])
unfolding add_to
add_to-counted_in c none n row = omega arith
add_to-counted_in c (some d) n row = ground arith

tally-column_total :
    (fs : Fields) (row done : Cells) (c : Column)
    → tally fs row ≡ ok done
    → done c ≡ row c + column_total c fs
unfolding tally column_total
tally-column_total end row done c h =
    (let whole : row ≡ done = ok-injective h in
      let at : row c ≡ done c = ap (λ (f : Cells). f c) whole in omega (arith, at))
tally-column_total (field s v fs) row done c h = elim (Option-cases (known_status s)) [
  | inl e ↦ ground arith
  | inr (t, e) ↦
      (let rest : (count_of (some v) >>= λ n. tally fs (add_to (column t) n row)) ≡ ok done =
          ground arith in
        let (n, q, r) =
          >>=-eq-ok (count_of (some v)) (λ n. tally fs (add_to (column t) n row)) rest in
        let ih = tally-column_total fs (add_to (column t) n row) done c r in
        let here : add_to (column t) n row c ≡ row c + counted_in c (some t) n =
          add_to-counted_in c (column t) n row in
        let entry : named_in c s (number_of (natural_of (some v))) ≡ counted_in c (some t) n =
          named_in-counted c s t (number_of (natural_of (some v))) e
          ∙ ap (λ o. counted_in c (some t) (number_of o)) (count_of-eq-ok (some v) n q) in
        omega (arith, ih, here, entry))
]

counts_of-eq-ok : (v : Option Json) (fs : Fields) → counts_of v ≡ ok fs → v ≡ some (obj fs)
unfolding counts_of
counts_of-eq-ok v fs h = ground arith

-- A row accounts for the cases of a summary: each column of the partition is the sum of the counts
-- of its statuses, the columns of the partition sum to the cases, and the numbers of the summary
-- for the cases, the exact matches and the setup failures are those of the row.
pub data Accounts (summary : Fields) (row : Row) : Type 0 where
  accounts :
      {counts : Fields}
      → get "counts" summary ≡ some (obj counts)
      → All (λ c. row.cells c ≡ column_total c counts) partition
      → sum_of row.cells partition ≡ row.cells cases
      → natural_of (get "case_count" summary) ≡ some (row.cells cases)
      → natural_of (get "exact_matches" summary) ≡ some (row.cells exact_matches)
      → natural_of (get "setup_failures" summary) ≡ some (row.cells setup_failures)
      → Accounts summary row

equal_count-eq-ok :
    (v : Option Json) (n : ℕ) (p : Problem) (u : Unit {0})
    → equal_count v n p ≡ ok u
    → natural_of v ≡ some n
unfolding equal_count
equal_count-eq-ok v n p u h =
    (let (m, q, r) = >>=-eq-ok (count_of v) (λ m. refuse_if (not (m == n)) p) h in
      let found = count_of-eq-ok v m q in ground arith)

-- What the checks of the cases give.
abbrev Counted : Fields → Cells → ℕ → Type 0
Counted summary row n =
    (natural_of (get "case_count" summary) ≡ some n)
    × (sum_of row partition ≡ n)
    × (natural_of (get "exact_matches" summary) ≡ some (row exact_matches))
    × (natural_of (get "setup_failures" summary) ≡ some (row setup_failures))

cases_of-Counted :
    (summary : Fields) (row : Cells) (n : ℕ) → cases_of summary row ≡ ok n → Counted summary row n
unfolding cases_of
cases_of-Counted summary row n h =
    (let (m, q, h1) = >>=-eq-ok (count_of (get "case_count" summary)) _ h in
      let (total, h2) = refuse_if-eq-ok (not (sum_of row partition == m)) _ _ h1 in
      let (u, exact, h3) =
        >>=-eq-ok
          (equal_count (get "exact_matches" summary) (row exact_matches) wrong_exact_matches) _
          h2 in
      let (w, setup, h4) =
        >>=-eq-ok
          (equal_count (get "setup_failures" summary) (row setup_failures) wrong_setup_failures) _
          h3 in
      let m_n : m ≡ n = ok-injective h4 in
      (
        count_of-eq-ok _ m q ∙ ap (λ k. some k) m_n,
        (let t : (sum_of row partition == m) ≡ true = not-false _ total in
            (==_iff (sum_of row partition) m).0 t ∙ m_n),
        equal_count-eq-ok _ _ _ u exact,
        equal_count-eq-ok _ _ _ w setup,
      ))

from_nothing :
    (fs : Fields) (done : Cells) (c : Column)
    → tally fs no_cells ≡ ok done
    → done c ≡ column_total c fs
from_nothing fs done c h = omega (arith, tally-column_total fs no_cells done c h)

-- Every row that is read from a summary accounts for its cases: each column of the partition is the
-- sum of the counts under the names of the statuses that COLUMN gives it, these columns sum to the cases, and
-- the numbers of the summary for the cases, the exact matches and the setup failures are those of the row.
pub row_of-Accounts :
    (digest : String) (summary : Fields) (row : Row)
    → row_of digest summary ≡ ok row
    → Accounts summary row
unfolding row_of row_from finished
row_of-Accounts digest summary row h =
    (let (profile, _, h1) = >>=-eq-ok (header_of summary) _ h in
      let (counts, c, h2) = >>=-eq-ok (counts_of (get "counts" summary)) _ h1 in
      let (done, t, h3) = >>=-eq-ok (tally counts no_cells) _ h2 in
      let (n, cs, h4) = >>=-eq-ok (cases_of summary done) _ h3 in
      let (e, _, h5) = >>=-eq-ok (excluded_of summary) _ h4 in
      let whole : row_from digest profile done n e ≡ row = ok-injective h5 in
      let (n_eq, total, exact, setup) = cases_of-Counted summary done n cs in
      let each = λ (d : Column). from_nothing counts done d t in
      subst (Accounts summary) whole
        (accounts (counts_of-eq-ok _ counts c) (All-every each partition) total n_eq exact setup))
