-- ===== src/Accounting/Table.antt =====
-- `publish` and `invariants` of scripts/accounting.py. A cell of a published table is an integer or
-- is missing, as is the whole table's qualification.
pub mod Sound
use air2lean.Base.{
  ℕ, String, Option, none, some, Bool, true, false, ◌&&◌, ◌||◌, not, List, [], ◌∷◌, ◌++◌, str_eq,
  ◌==◌, if◌then◌else◌, sum_of, map,
}
use air2lean.Base.Int.{ℤ, pos, negsuc, int_eq, ◌+ℤ◌}
use air2lean.Base.Result.{Result, ok, err, ◌>>=◌, ◌>>◌, refuse_if, traverse}
use air2lean.Base.Sort.{text_le, sorted}
use air2lean.Json.{Json}
use air2lean.Accounting.{
  Column, cases, exact_matches, skipped_examples, skipped_functions, proof_exclusions, partition,
  numeric, column_eq, column_index, Problem, no_summaries, two_summaries, Cells, Row,
}
use air2lean.Accounting.Summary.{summary_row}

-- The columns of a row by name, where present.
abbrev pub Entry : Type 0
Entry = Column → Option ℤ

pub record Table : Type 0 where
  pub qualified : Option Bool
  pub columns : List Column
  pub parts : List Column
  pub outside : List Column
  pub headline : Option ℤ
  pub rows : List Entry
  pub totals : Entry

-- `OUTSIDE`
abbrev pub outside_columns : List Column
outside_columns = skipped_examples ∷ skipped_functions ∷ proof_exclusions ∷ []

-- The key `(version, target)` in the order of tuples.
unfoldable pub row_le : Row → Row → Bool
row_le a b =
    if str_eq a.version b.version then text_le a.target b.target else text_le a.version b.version

abbrev pub same_key : Row → Row → Bool
same_key a b = str_eq a.version b.version && str_eq a.target b.target

-- The check of neighbouring rows.
unfoldable pub distinct_keys : List Row → Result Problem (Unit {0})
distinct_keys [] = ok tt
distinct_keys (a ∷ []) = ok tt
distinct_keys (a ∷ b ∷ rows) = do
  refuse_if (same_key a b) (two_summaries a.version a.target)
  distinct_keys (b ∷ rows)

abbrev pub entry_of : Row → Entry
entry_of r c = some (pos (r.cells c))

unfoldable pub table_of : List Row → Table
table_of rows =
    let total = λ (c : Column). sum_of (λ r. r.cells c) rows in
    record {
      qualified = some false;
      columns = numeric;
      parts = partition;
      outside = outside_columns;
      headline = some (pos (total exact_matches));
      rows = map entry_of rows;
      totals = λ c. some (pos (total c));
    }

abbrev pub no_rows : List Row → Bool
no_rows [] = true
no_rows _ = false

module _ (decode : String → Option Json) (sha256 : String → String) where
  unfoldable pub publish : List String → Result Problem Table
  unfolding table_of
  publish paths = do
    read ← traverse (summary_row decode sha256) paths
    let rows = sorted row_le read
    refuse_if (no_rows rows) no_summaries
    distinct_keys rows
    ok (table_of rows)

pub data Trouble : Type 0 where
  table_qualified other_columns no_rows_given unpartitioned_total wrong_headline : Trouble
  not_natural_cell : Column → Trouble
  unpartitioned_row : Trouble
  wrong_total : Column → Trouble

abbrev report_if : Bool → Trouble → List Trouble
report_if bad t = if bad then t ∷ [] else []

unfoldable pub columns_eq : List Column → List Column → Bool
columns_eq [] [] = true
columns_eq (a ∷ cs) (b ∷ ds) = column_eq a b && columns_eq cs ds
columns_eq _ _ = false

-- `count(row.get(c), ...)` of the columns in order: the first that is refused.
unfoldable pub refused_cell : Entry → List Column → Option Column
refused_cell row [] = none
refused_cell row (c ∷ cs) = elim (row c) [ some (pos n) ↦ refused_cell row cs | _ ↦ some c ]

-- `.get(c, 0)`
unfoldable pub cell : Entry → Column → ℤ
cell row c = elim (row c) [ none ↦ pos 0 | some n ↦ n ]

abbrev pub cell_eq : Option ℤ → Option ℤ → Bool
cell_eq none none = true
cell_eq (some a) (some b) = int_eq a b
cell_eq _ _ = false

unfoldable pub sum_cells : Entry → List Column → ℤ
unfolding cell
sum_cells row [] = pos 0
sum_cells row (c ∷ cs) = cell row c +ℤ sum_cells row cs

unfoldable pub sum_column : Column → List Entry → ℤ
unfolding cell
sum_column c [] = pos 0
sum_column c (r ∷ rs) = cell r c +ℤ sum_column c rs

unfoldable pub row_troubles : Entry → List Trouble
unfolding refused_cell sum_cells cell
row_troubles row = elim (refused_cell row numeric) [
  | some c ↦ not_natural_cell c ∷ []
  | none ↦ report_if (not (int_eq (sum_cells row partition) (cell row cases))) unpartitioned_row
]

unfoldable pub all_row_troubles : List Entry → List Trouble
unfolding row_troubles
all_row_troubles [] = []
all_row_troubles (r ∷ rs) = row_troubles r ++ all_row_troubles rs

unfoldable pub total_troubles : Table → List Column → List Trouble
unfolding sum_column
total_troubles t [] = []
total_troubles t (c ∷ cs) =
    report_if (not (cell_eq (t.totals c) (some (sum_column c t.rows)))) (wrong_total c)
    ++ total_troubles t cs

unfoldable pub cases_trouble : Entry → List Trouble
unfolding sum_cells
cases_trouble totals = elim (totals cases) [
  | none ↦ []
  | some n ↦ report_if (not (int_eq (sum_cells totals partition) n)) unpartitioned_total
]

abbrev not_unqualified_table : Option Bool → Bool
not_unqualified_table (some false) = false
not_unqualified_table _ = true

abbrev no_entries : List Entry → Bool
no_entries [] = true
no_entries _ = false

unfoldable pub invariants : Table → List Trouble
unfolding columns_eq all_row_troubles total_troubles cases_trouble
invariants t =
    report_if (not_unqualified_table t.qualified) table_qualified
    ++ report_if
        (not (
          columns_eq t.columns numeric
          && columns_eq t.parts partition
          && columns_eq t.outside outside_columns))
        other_columns
    ++ report_if (no_entries t.rows) no_rows_given
    ++ all_row_troubles t.rows
    ++ total_troubles t numeric
    ++ cases_trouble t.totals
    ++ report_if (not (cell_eq t.headline (t.totals exact_matches))) wrong_headline
