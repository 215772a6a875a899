-- ===== src/Diff/Run/Added.antt =====
-- What the loop of `compare_summary` in scripts/diff-report.py over the cases of a function adds: rows,
-- and the counts of their inputs.
use air2lean.Base.{
  ℕ, ◌+◌, ◌≡◌, refl, ap, ◌∙◌, String, Option, none, some, Bool, true, ◌&&◌, List, [], ◌∷◌, ◌++◌,
  str_eq, eq_iff, ltb, as_count, arith, subst,
}
use air2lean.Base.Result.{ok, >>=-eq-ok, refuse_if-eq-ok, ok-injective}
use air2lean.Json.{Json}
use air2lean.Diff.{Policy, invalid, max_cases}
use air2lean.Diff.Classify.{Bucket}
use air2lean.Diff.Run.{
  Lines, Compared, Setting, compare_case, counted, bucket_eq, Row, row, Pinned, unspecified, capped,
  State, Local, count_local, count_input, count_case,
}
use air2lean.Diff.Run.Counters.{counted-bump}
use air2lean.Diff.Run.Counts.{rows_with}
use air2lean.Diff.Run.Functions.{compare_cases}

-- The rows with the input whose observed bucket is the pinned one.
abbrev pub bucket_for : Pinned → Bucket
bucket_for unspecified = Bucket.unspecified
bucket_for capped = Bucket.capped

abbrev pub observed_at : Pinned → String → Row → Bool
observed_at counter sha r =
    bucket_eq r.case.observed (bucket_for counter) && str_eq r.case.input_sha sha

abbrev pub inputs_for : Pinned → Local → List (String × ℕ)
inputs_for unspecified here = here.unspecified_inputs
inputs_for capped here = here.capped_inputs

str_eq→eq : (a b : String) → str_eq a b ≡ true → a ≡ b
str_eq→eq a b h = (eq_iff a b).0 h

counted-input :
    (counter : Pinned) (sha : String) (c : Compared) (here : Local)
    → counted str_eq sha (inputs_for counter (count_local c here))
      ≡ counted str_eq sha (inputs_for counter here)
        + as_count (bucket_eq c.observed (bucket_for counter) && str_eq c.input_sha sha)
unfolding count_local count_input
counted-input unspecified sha c here =
    ground (arith, counted-bump str_eq str_eq→eq sha c.input_sha here.unspecified_inputs)
counted-input capped sha c here =
    ground (arith, counted-bump str_eq str_eq→eq sha c.input_sha here.capped_inputs)

-- The rows that the loop over the cases adds, and what it counts by input.
pub record Added (s done : State) (here there : Local) : Type 0 where
  pub rows : List Row
  pub rows_are : done.rows ≡ s.rows ++ rows
  pub violations_are : done.violations ≡ s.violations
  pub inputs_are :
      (counter : Pinned) (sha : String)
      → counted str_eq sha (inputs_for counter there)
        ≡ counted str_eq sha (inputs_for counter here) + rows_with (observed_at counter sha) rows

append-nil : (rows : List Row) → rows ≡ rows ++ []
append-nil [] = refl
append-nil (r ∷ rows) = ap (◌∷◌ r) (append-nil rows)

append_assoc : (a b c : List Row) → (a ++ b) ++ c ≡ a ++ (b ++ c)
append_assoc [] b c = refl
append_assoc (r ∷ a) b c = ap (◌∷◌ r) (append_assoc a b c)

Added-none : (s : State) (here : Local) → Added s s here here
unfolding rows_with
Added-none s here = record {
  rows = [];
  rows_are = append-nil s.rows;
  violations_are = refl;
  inputs_are = λ counter sha. omega arith;
}

Added-case :
    (example fn : String) (index : ℕ) (c : Compared) (s done : State) (here there : Local)
    → Added (count_case example fn index c s) done (count_local c here) there
    → Added s done here there
unfolding rows_with count_case row
Added-case example fn index c s done here there a = record {
  rows = row example fn index c ∷ a.rows;
  rows_are = a.rows_are ∙ append_assoc s.rows (row example fn index c ∷ []) a.rows;
  violations_are = a.violations_are;
  inputs_are =
      λ counter sha. omega (arith, a.inputs_are counter sha, counted-input counter sha c here);
}

module _ (decode : String → Option Json) (sha256 : String → String) (panics : Policy) where
  pub compare_cases-Added :
      (at : Setting) (example fn : String) (cases : List (Option Lines)) (here : Local) (s : State)
      (done : Local × State)
      → compare_cases decode sha256 panics at example fn cases here s ≡ ok done
      → Added s done.1 here done.0
  unfolding compare_cases
  compare_cases-Added at example fn [] here s done h =
      subst (λ (d : Local × State). Added s d.1 here d.0) (ok-injective h) (Added-none s here)
  compare_cases-Added at example fn (none ∷ cases) here s done h = absurd (cc)
  compare_cases-Added at example fn (some lines ∷ cases) here s done h =
      let (c, _, h1) = >>=-eq-ok (compare_case decode sha256 panics at lines) _ h in
      let (_, rest) = refuse_if-eq-ok (ltb max_cases (s.case_count + 1)) invalid _ h1 in
      Added-case example fn (here.count + 1) c s done.1 here done.0
        (compare_cases-Added at example fn cases (count_local c here) _ done rest)
