-- ===== src/Accounting/Table/Sound.antt =====
-- The published table of scripts/accounting.py passes the script's own check.
use mathlib.Core.Path.{subst}
use air2lean.Base.{
  ℕ, ◌≡◌, refl, ap, ◌∙◌, String, Option, false, not, List, [], ◌∷◌, ◌++◌, ◌==◌, sum_of, arith, All,
  map, Option-cases, inl, inr,
}
use air2lean.Base.Int.{pos, int_eq, ◌+ℤ◌}
use air2lean.Base.Result.{ok, traverse, traverse-All, >>=-eq-ok, refuse_if-eq-ok, ok-injective}
use air2lean.Base.Sort.{sorted, sorted-All}
use air2lean.Json.{Json, obj}
use air2lean.Accounting.{Column, cases, exact_matches, partition, numeric, Row}
use air2lean.Accounting.Summary.{summary_row}
use air2lean.Accounting.Summary.Partition.{Accounts, accounts, row_of-Accounts}
use air2lean.Accounting.Table.{
  Table, Trouble, wrong_total, unpartitioned_total, wrong_headline, entry_of, table_of, no_rows,
  row_le, distinct_keys, publish, invariants, refused_cell, cell, sum_cells, sum_column,
  row_troubles, all_row_troubles, total_troubles, report_if,
}

-- The columns of the partition sum to the cases of the row.
abbrev pub Balanced : Row → Type 0
Balanced row = sum_of row.cells partition ≡ row.cells cases

Accounts-Balanced : (summary : _) (row : Row) → Accounts summary row → Balanced row
Accounts-Balanced summary row (accounts a b c d e f) = c

report_if-equal : (a b : ℕ) (t : Trouble) → a ≡ b → report_if (not (a == b)) t ≡ []
report_if-equal a b t h = ground arith

append_none : (xs ys : List Trouble) → xs ≡ [] → ys ≡ [] → xs ++ ys ≡ []
append_none xs ys h k = ap (λ zs. zs ++ ys) h ∙ k

row_troubles-none : (row : Row) → Balanced row → row_troubles (entry_of row) ≡ []
unfolding row_troubles refused_cell sum_cells cell
row_troubles-none row h = report_if-equal _ _ _ h

all_row_troubles-none :
    (rows : List Row) → All Balanced rows → all_row_troubles (map entry_of rows) ≡ []
unfolding all_row_troubles
all_row_troubles-none [] tt = refl
all_row_troubles-none (r ∷ rs) (b, bs) =
    append_none _ _ (row_troubles-none r b) (all_row_troubles-none rs bs)

sum_column-total :
    (c : Column) (rows : List Row)
    → sum_column c (map entry_of rows) ≡ pos (sum_of (λ r. r.cells c) rows)
unfolding sum_column cell
sum_column-total c [] = refl
sum_column-total c (r ∷ rs) = ap (λ n. pos (r.cells c) +ℤ n) (sum_column-total c rs)

total_troubles-none : (rows : List Row) (cs : List Column) → total_troubles (table_of rows) cs ≡ []
unfolding total_troubles table_of
total_troubles-none rows [] = refl
total_troubles-none rows (c ∷ cs) =
    append_none _ _
      (ap (λ n. report_if (not (int_eq (pos (sum_of (λ r. r.cells c) rows)) n)) (wrong_total c))
          (sum_column-total c rows)
        ∙ report_if-equal (sum_of (λ r. r.cells c) rows) _ (wrong_total c) refl)
      (total_troubles-none rows cs)

totals_balance :
    (rows : List Row)
    → All Balanced rows
    → sum_of (λ c. sum_of (λ r. r.cells c) rows) partition ≡ sum_of (λ r. r.cells cases) rows
totals_balance [] tt = refl
totals_balance (r ∷ rs) (b, bs) = omega (arith, b, totals_balance rs bs)

table_of_sound :
    (rows : List Row) → no_rows rows ≡ false → All Balanced rows → invariants (table_of rows) ≡ []
unfolding invariants table_of
table_of_sound [] h balanced = cc
table_of_sound (r ∷ rs) h balanced =
    append_none _ _
      (append_none _ _
        (append_none _ _ (all_row_troubles-none (r ∷ rs) balanced)
          (total_troubles-none (r ∷ rs) numeric))
        (report_if-equal _ _ unpartitioned_total (totals_balance (r ∷ rs) balanced)))
      (report_if-equal (sum_of (λ x. x.cells exact_matches) (r ∷ rs)) _ wrong_headline refl)

module _ (decode : String → Option Json) (sha256 : String → String) where
  summary_row-Balanced :
      (raw : String) (row : Row) → summary_row decode sha256 raw ≡ ok row → Balanced row
  unfolding summary_row
  summary_row-Balanced raw row h = elim (Option-cases (decode raw)) [
    | inl e ↦ ground arith
    | inr (obj fs, e) ↦
        Accounts-Balanced fs row (row_of-Accounts (sha256 raw) fs row (ground arith))
    | inr (_, e) ↦ ground arith
  ]

  -- Whenever `publish` succeeds, the check of published tables finds no problem in its table.
  pub publish-invariants :
      (raws : List String) (table : Table)
      → publish decode sha256 raws ≡ ok table
      → invariants table ≡ []
  unfolding publish
  publish-invariants raws table h =
      (let (read, t, h1) = >>=-eq-ok (traverse (summary_row decode sha256) raws) _ h in
        let (some_row, h2) = refuse_if-eq-ok (no_rows (sorted row_le read)) _ _ h1 in
        let (u, _, h3) = >>=-eq-ok (distinct_keys (sorted row_le read)) _ h2 in
        let whole : table_of (sorted row_le read) ≡ table = ok-injective h3 in
        subst (λ t. invariants t ≡ []) whole
          (table_of_sound _ some_row (
            sorted-All row_le Balanced read (
              traverse-All (summary_row decode sha256) Balanced summary_row-Balanced raws read t))))
