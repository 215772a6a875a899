-- ===== src/Accounting/Claims/Agree.antt =====
-- What `claims` of scripts/accounting.py has checked of the rows of the version table when it finds no
-- problem, and what it checks altogether.
use air2lean.Base.{
  ℕ, ◌+◌, ◌≡◌, refl, ap, ◌∙◌, ◌⊎◌, inl, inr, String, some, Bool, true, false, ◌&&◌, ◌||◌, not, List,
  [], ◌∷◌, ◌++◌, map, str_eq, eq_iff, is_empty, length, arith, All, Bool-cases, and-eq-true,
  not-false,
}
use air2lean.Base.Sort.{text_le, sorted}
use air2lean.Json.{listed}
use air2lean.Closure.Names.{sorted_set}
use air2lean.Diff.Wire.{strings_equal}
use air2lean.Accounting.{skipped_examples, Row}
use air2lean.Accounting.Claims.{
  contains, Job, full_jobs, restricted_jobs, Claim, Headline, Readme, Disagreement, report_if,
  is_full, is_restricted, claims_diff, other_job_examples, row_problems, rows_problems,
  versions_where, claim_of, expected_examples, unrecognized, other_jobs, no_full_job,
  other_examples,
}

strings_equal→eq : (xs ys : List String) → strings_equal xs ys ≡ true → xs ≡ ys
unfolding strings_equal
strings_equal→eq [] [] h = refl
strings_equal→eq (x ∷ xs) (y ∷ ys) h =
    let (head, tail) = and-eq-true (str_eq x y) (strings_equal xs ys) h in
    ap (λ z. z ∷ xs) ((eq_iff x y).0 head) ∙ ap (◌∷◌ y) (strings_equal→eq xs ys tail)
strings_equal→eq [] (y ∷ ys) h = cc
strings_equal→eq (x ∷ xs) [] h = cc

pub append-none : (xs ys : List Disagreement) → xs ++ ys ≡ [] → (xs ≡ []) × (ys ≡ [])
append-none [] ys h = (refl, h)
append-none (x ∷ xs) ys h = absurd (cc)

pub report_if-none : (bad : Bool) (d : Disagreement) → report_if bad d ≡ [] → bad ≡ false
report_if-none false d h = refl
report_if-none true d h = cc

pub report_if-equal :
    (xs ys : List String) (d : Disagreement)
    → report_if (not (strings_equal xs ys)) d ≡ []
    → xs ≡ ys
report_if-equal xs ys d h =
    strings_equal→eq xs ys (not-false (strings_equal xs ys) (report_if-none _ d h))

-- A claim of the README agrees with the jobs of the CI: a full one has a full job; a restricted one has
-- restricted jobs only, each of which runs the examples of the claim.
abbrev pub Agrees : List Job → Claim → Type 0
Agrees jobs c =
    ((is_full c ≡ true) × (is_empty (full_jobs c.version jobs) ≡ false))
    ⊎ ((is_restricted c ≡ true)
        × (full_jobs c.version jobs ≡ [])
        × (is_empty (restricted_jobs c.version jobs) ≡ false)
        × All (λ j. j.examples ≡ c.examples) (restricted_jobs c.version jobs))

-- A published row is of a version whose claim has the diff test, ran the examples of the claim that its
-- target has, and skipped all others.
abbrev pub Published : ℕ → List Claim → Row → Type 0
Published every rows r =
    (c : Claim) × (claim_of r.version rows ≡ some c)
    × (listed r.version (versions_where claims_diff rows) ≡ true)
    × (r.selected_examples ≡ expected_examples c r.target)
    × (r.cells skipped_examples + length r.selected_examples ≡ every)

pub record Holds (readme : Readme) (jobs : List Job) (every : ℕ) (rows : List Row) : Type 0 where
  pub supported_versions : sorted text_le readme.supported ≡ sorted_set (map (λ j. j.zig) jobs)
  pub claimed_versions :
      sorted text_le (map (λ c. c.version) readme.rows) ≡ sorted text_le readme.supported
  pub claims_agree : All (Agrees jobs) readme.rows
  pub headline :
      (h : Headline) × (readme.headline ≡ some h) × (h.exact + h.illegal + h.unspecified ≡ h.cases)
  pub rows_published : All (Published every readme.rows) rows

is_empty→nil : (js : List Job) → is_empty js ≡ true → js ≡ []
is_empty→nil [] h = refl
is_empty→nil (j ∷ js) h = cc

other_job_examples-none :
    (c : Claim) (js : List Job)
    → other_job_examples c js ≡ []
    → All (λ j. j.examples ≡ c.examples) js
unfolding other_job_examples
other_job_examples-none c [] h = tt
other_job_examples-none c (j ∷ js) h =
    let (head, tail) = append-none _ (other_job_examples c js) h in
    (
      report_if-equal j.examples c.examples (other_examples c.version) head,
      other_job_examples-none c js tail,
    )

restricted_none :
    (jobs : List Job) (c : Claim)
    → is_full c ≡ false
    → is_restricted c ≡ true
    → row_problems jobs c ≡ []
    → Agrees jobs c
unfolding row_problems
restricted_none jobs c f r h =
    let full = full_jobs c.version jobs in
    let restricted = restricted_jobs c.version jobs in
    let parts : report_if (not (contains "diff test" c.ci) && not (contains "no diff harness" c.ci))
            (unrecognized c.version)
          ++ report_if (not (is_empty full) || is_empty restricted) (other_jobs c.version)
          ++ other_job_examples c restricted
        ≡ [] =
      ground (arith, f, r, h) in
    let (first, examples) = append-none _ (other_job_examples c restricted) parts in
    let (_, jobs_fit) = append-none _ (report_if _ (other_jobs c.version)) first in
    let fit = report_if-none (not (is_empty full) || is_empty restricted) _ jobs_fit in
    inr (
      r,
      is_empty→nil full (ground (arith, fit)),
      ground (arith, fit),
      other_job_examples-none c restricted examples,
    )

full_none :
    (jobs : List Job) (c : Claim)
    → is_full c ≡ true
    → row_problems jobs c ≡ []
    → is_empty (full_jobs c.version jobs) ≡ false
unfolding row_problems
full_none jobs c f h =
    let some_job : report_if (is_empty (full_jobs c.version jobs)) (no_full_job c.version) ≡ [] =
      ground (arith, f, h) in
    report_if-none _ _ some_job

pub unknown :
    (jobs : List Job) (c : Claim)
    → is_full c ≡ false
    → is_restricted c ≡ false
    → row_problems jobs c ≡ []
    → ⊥
unfolding row_problems
unknown jobs c f r h = ground (arith, f, r, h)

row_problems-none : (jobs : List Job) (c : Claim) → row_problems jobs c ≡ [] → Agrees jobs c
row_problems-none jobs c h = elim (Bool-cases (is_full c)) [
  | inl f ↦ inl (f, full_none jobs c f h)
  | inr f ↦ elim (Bool-cases (is_restricted c)) [
    | inl r ↦ restricted_none jobs c f r h
    | inr r ↦ absurd (unknown jobs c f r h)
  ]
]

pub rows_problems-none :
    (jobs : List Job) (cs : List Claim) → rows_problems jobs cs ≡ [] → All (Agrees jobs) cs
unfolding rows_problems
rows_problems-none jobs [] h = tt
rows_problems-none jobs (c ∷ cs) h =
    let (head, tail) = append-none (row_problems jobs c) (rows_problems jobs cs) h in
    (row_problems-none jobs c head, rows_problems-none jobs cs tail)
