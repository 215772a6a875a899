-- ===== src/Diff/Run/Written/Tallied.antt =====
-- The counts of a written summary, as `summary_row` of scripts/accounting.py tallies them.
use air2lean.Base.{
  ℕ, ◌+◌, ◌≡◌, refl, ap, ◌∙◌, sym, String, none, some, Bool, true, false, ◌||◌, List, [], ◌∷◌, map,
  if◌then◌else◌, if-both, arith, All, sum_of,
}
use air2lean.Base.Sort.{text_le, insert, sorted, sorted-All}
use air2lean.Base.Result.{ok}
use air2lean.Json.{Fields, end, field, natural_of}
use air2lean.Accounting.{
  Column, exact_matches, setup_failures, partition, column, column_eq, status_name, known_status,
  Cells, count_of, add_to, tally,
}
use air2lean.Diff.{Status, status_eq, matches}
use air2lean.Diff.Run.{Statuses}
use air2lean.Diff.Run.Counters.{total_in}
use air2lean.Diff.Run.Counts.{HasColumn}
use air2lean.Diff.Run.Written.{number, fields_of_counts, count_fields}

unfoldable pub in_column : Column → Status → Bool
in_column c t = elim (column t) [ none ↦ false | some d ↦ column_eq d c ]

pub known_name : (t : Status) → HasColumn t → known_status (status_name t) ≡ some t
unfolding column known_status
known_name Status.value_match h = refl
known_name Status.skipped h = cc
known_name _ h = refl

-- Every column of the partition that is the status's own is counted once.
column_once :
    (t : Status) (n : ℕ) → HasColumn t → sum_of (λ c. if in_column c t then n else 0) partition ≡ n
unfolding column in_column
column_once Status.skipped n h = cc
column_once Status.value_match n h = omega arith
column_once _ n h = omega arith

pub in_column-exact : (t : Status) → in_column exact_matches t ≡ matches t
unfolding in_column column matches
in_column-exact Status.value_match = refl
in_column-exact _ = refl

pub in_column-setup :
    (t : Status)
    → in_column setup_failures t
      ≡ (status_eq t Status.input_failure || status_eq t Status.native_harness_failure)
unfolding in_column column
in_column-setup Status.value_match = refl
in_column-setup _ = refl

tally_end : (row : Cells) → tally end row ≡ ok row
unfolding tally
tally_end row = refl

-- An entry of `counts`: the name and the count of a status with a column.
abbrev Named : String × ℕ → Type 0
Named e = (t : Status) × (status_name t ≡ e.0) × HasColumn t

name_in : Column → String → Bool
name_in c s = elim (known_status s) [ none ↦ false | some t ↦ in_column c t ]

add_to-in_column :
    (c : Column) (t : Status) (n : ℕ) (row : Cells)
    → add_to (column t) n row c ≡ row c + (if in_column c t then n else 0)
unfolding add_to in_column column
add_to-in_column c Status.value_match n row = ground arith
add_to-in_column c _ n row = ground arith

name_in-known :
    (c : Column) (s : String) (t : Status) → known_status s ≡ some t → name_in c s ≡ in_column c t
unfolding name_in
name_in-known c s t e = ground (arith, e)

tally-known :
    (s : String) (n : ℕ) (fs : Fields) (t : Status) (row : Cells)
    → known_status s ≡ some t
    → tally (field s (number n) fs) row ≡ tally fs (add_to (column t) n row)
unfolding tally count_of natural_of
tally-known s n fs t row e = ground (arith, e)

tally-Named :
    (counts : List (String × ℕ)) (row : Cells)
    → All Named counts
    → (done : Cells) × (tally (fields_of_counts counts) row ≡ ok done)
      × ((c : Column) → done c ≡ row c + total_in (name_in c) counts)
unfolding fields_of_counts total_in
tally-Named [] row h = (row, tally_end row, λ c. omega arith)
tally-Named ((s, n) ∷ counts) row ((t, is_name, k), h) =
    let (done, e, each) = tally-Named counts (add_to (column t) n row) h in
    let known : known_status s ≡ some t = ap known_status (sym is_name) ∙ known_name t k in
    (
      done,
      tally-known s n (fields_of_counts counts) t row known ∙ e,
      λ c. ground (arith, each c, add_to-in_column c t n row, name_in-known c s t known),
    )

total_in-insert :
    (p : String → Bool) (le : String × ℕ → String × ℕ → Bool) (e : String × ℕ)
    (counts : List (String × ℕ))
    → total_in p (insert le e counts) ≡ total_in p (e ∷ counts)
unfolding total_in insert
total_in-insert p le e [] = refl
total_in-insert p le e (f ∷ counts) =
    if-both (λ (l : List (String × ℕ)). total_in p l ≡ total_in p (e ∷ f ∷ counts)) (le e f)
      (λ _. refl) (λ _. omega (arith, total_in-insert p le e counts))

total_in-sorted :
    (p : String → Bool) (le : String × ℕ → String × ℕ → Bool) (counts : List (String × ℕ))
    → total_in p (sorted le counts) ≡ total_in p counts
unfolding total_in sorted
total_in-sorted p le [] = refl
total_in-sorted p le (e ∷ counts) =
    omega (arith, total_in-insert p le e (sorted le counts), total_in-sorted p le counts)

abbrev by_name : Status × ℕ → String × ℕ
by_name e = (status_name e.0, e.1)

by_name-Named :
    (counts : Statuses) → All (λ e. HasColumn e.0) counts → All Named (map by_name counts)
by_name-Named [] h = tt
by_name-Named ((t, n) ∷ counts) (k, h) = ((t, refl, k), by_name-Named counts h)

total_in-by_name :
    (c : Column) (counts : Statuses)
    → All (λ e. HasColumn e.0) counts
    → total_in (name_in c) (map by_name counts) ≡ total_in (in_column c) counts
unfolding total_in
total_in-by_name c [] h = refl
total_in-by_name c ((t, n) ∷ counts) (k, h) =
    ground (arith, total_in-by_name c counts h, name_in-known c (status_name t) t (known_name t k))

-- The tally of written counts gives each column the counts of its statuses.
pub tally-counts :
    (counts : Statuses) (row : Cells)
    → All (λ e. HasColumn e.0) counts
    → (done : Cells) × (tally (count_fields status_name counts) row ≡ ok done)
      × ((c : Column) → done c ≡ row c + total_in (in_column c) counts)
unfolding count_fields
tally-counts counts row h =
    let le = λ (a b : String × ℕ). text_le a.0 b.0 in
    let (done, e, each) =
      tally-Named (sorted le (map by_name counts)) row
        (sorted-All le Named (map by_name counts) (by_name-Named counts h)) in
    (
      done,
      e,
      λ c. omega (
        arith,
        each c,
        total_in-sorted (name_in c) le (map by_name counts),
        total_in-by_name c counts h,
      ),
    )

-- The columns of the partition together have all counts.
pub partition-total :
    (counts : Statuses)
    → All (λ e. HasColumn e.0) counts
    → sum_of (λ c. total_in (in_column c) counts) partition ≡ total_in (λ t. true) counts
unfolding total_in
partition-total [] h = refl
partition-total ((t, n) ∷ counts) (k, h) =
    omega (arith, column_once t n k, partition-total counts h)
