-- ===== src/Accounting/Claims/Hold.antt =====
-- What `claims` of scripts/accounting.py has checked when it finds no problem.
use air2lean.Base.{
  ℕ, ◌+◌, ◌≡◌, refl, inl, inr, Option, none, some, not, List, [], ◌∷◌, ◌++◌, map, ◌==◌, ==_iff,
  length, arith, All, Bool-cases, Option-cases, not-false,
}
use air2lean.Json.{listed}
use air2lean.Diff.Wire.{strings_equal}
use air2lean.Accounting.{skipped_examples, Row}
use air2lean.Accounting.Claims.{
  Job, Claim, Headline, Readme, report_if, is_full, claims_diff, rows_problems, versions_where,
  headline_problems, claim_of, expected_examples, published_problems, table_problems, claims,
  wrong_headline, other_versions, other_rows, prose_problems, other_selection, other_skipped,
}
use air2lean.Accounting.Claims.Agree.{
  append-none, report_if-none, report_if-equal, Published, Holds, rows_problems-none,
}

headline_problems-none :
    (o : Option Headline)
    → headline_problems o ≡ []
    → (h : Headline) × (o ≡ some h) × (h.exact + h.illegal + h.unspecified ≡ h.cases)
unfolding headline_problems
headline_problems-none none e = absurd (cc)
headline_problems-none (some h) e =
    let balanced = not-false _ (report_if-none _ wrong_headline e) in
    (h, refl, (==_iff (h.exact + h.illegal + h.unspecified) h.cases).0 balanced)

-- The problems of a row whose version has a claim.
claimed_none :
    (every : ℕ) (rows : List Claim) (c : Claim) (r : Row)
    → claim_of r.version rows ≡ some c
    → published_problems every rows (versions_where claims_diff rows) r ≡ []
    → Published every rows r
unfolding published_problems
claimed_none every rows c r found h =
    elim (Bool-cases (listed r.version (versions_where claims_diff rows))) [
      | inr e ↦ absurd (ground (arith, found, e, h))
      | inl e ↦
          let parts : report_if
                  (not (strings_equal r.selected_examples (expected_examples c r.target)))
                  (other_selection r.version r.target)
                ++ report_if (not (r.cells skipped_examples + length r.selected_examples == every))
                    (other_skipped r.version r.target)
              ≡ [] =
            ground (arith, found, e, h) in
          let (selected, skipped) =
            append-none _ (report_if _ (other_skipped r.version r.target)) parts in
          let balanced =
            not-false _ (report_if-none _ (other_skipped r.version r.target) skipped) in
          (
            c,
            found,
            e,
            report_if-equal r.selected_examples (expected_examples c r.target) _ selected,
            (==_iff (r.cells skipped_examples + length r.selected_examples) every).0 balanced,
          )
    ]

unclaimed :
    (every : ℕ) (rows : List Claim) (r : Row)
    → claim_of r.version rows ≡ none
    → published_problems every rows (versions_where claims_diff rows) r ≡ []
    → ⊥
unfolding published_problems
unclaimed every rows r missing h = ground (arith, missing, h)

table_problems-none :
    (every : ℕ) (rows : List Claim) (rs : List Row)
    → table_problems every rows (versions_where claims_diff rows) rs ≡ []
    → All (Published every rows) rs
unfolding table_problems
table_problems-none every rows [] h = tt
table_problems-none every rows (r ∷ rs) h =
    let (head, tail) =
      append-none (published_problems every rows (versions_where claims_diff rows) r) _ h in
    (
      elim (Option-cases (claim_of r.version rows)) [
        | inl missing ↦ absurd (unclaimed every rows r missing head)
        | inr (c, found) ↦ claimed_none every rows c r found head
      ],
      table_problems-none every rows rs tail,
    )

-- When `claims` finds no problem, the supported versions are those of the CI and those of the rows of
-- the version table; each row agrees with the jobs of its version; the headline is there and its exact
-- matches, illegal and unspecified cases sum to its cases; and each published row is of a version that
-- claims the diff test, ran the examples of that claim for its target, and skipped all others.
pub claims-Holds :
    (readme : Readme) (jobs : List Job) (every : ℕ) (rows : List Row)
    → claims readme jobs every rows ≡ []
    → Holds readme jobs every rows
unfolding claims
claims-Holds readme jobs every rows h =
    let diff_claims = versions_where claims_diff readme.rows in
    let (h1, published) = append-none _ (table_problems every readme.rows diff_claims rows) h in
    let (h2, sums) = append-none _ (headline_problems readme.headline) h1 in
    let (h3, _) =
      append-none _
        (prose_problems (versions_where is_full readme.rows) (map (λ c. c.version) readme.rows)
          readme.skipping)
        h2 in
    let (h4, agree) = append-none _ (rows_problems jobs readme.rows) h3 in
    let (versions, claimed) =
      append-none (report_if _ other_versions) (report_if _ other_rows) h4 in
    record {
      supported_versions = report_if-equal _ _ other_versions versions;
      claimed_versions = report_if-equal _ _ other_rows claimed;
      claims_agree = rows_problems-none jobs readme.rows agree;
      headline = headline_problems-none readme.headline sums;
      rows_published = table_problems-none every readme.rows rows published;
    }
