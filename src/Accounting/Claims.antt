-- ===== src/Accounting/Claims.antt =====
-- `claims` and `main` of scripts/accounting.py, and `ci_jobs` of scripts/support-matrix.py. What the
-- regular expressions find in README.md, the rows of the CI matrix and the names of the examples are
-- arguments; a text of a problem is its constructor.
pub mod Agree
pub mod Hold
use air2lean.Base.{
  ℕ, ◌+◌, String, Option, none, some, Bool, true, false, ◌&&◌, ◌||◌, not, List, [], ◌∷◌, ◌++◌, map,
  str_eq, ◌==◌, leb, if◌then◌else◌, is_empty, length,
}
use air2lean.Base.Result.{Result, ok, err}
use air2lean.Base.Sort.{text_le, sorted}
use air2lean.Json.{listed}
use air2lean.Closure.Names.{begins_with, sorted_set, keep_if}
use air2lean.Diff.Wire.{strings_equal}
use air2lean.Diff.Run.Selection.{ends_with}
use air2lean.Accounting.{skipped_examples, Row}

-- `text in s`
unfoldable pub contains : String → String → Bool
unfolding begins_with
contains text String.[] = begins_with text ""
contains text (String.◌∷◌ c s) = begins_with text (String.◌∷◌ c s) || contains text s

-- A row of the CI matrix, with its flags read and its examples split and sorted.
pub record Job : Type 0 where
  pub zig : String
  pub mutate : Bool
  pub full : Bool
  pub examples : List String

-- `ci_jobs`: the full jobs and the restricted ones of a version.
unfoldable pub full_jobs : String → List Job → List Job
full_jobs version [] = []
full_jobs version (j ∷ js) =
    let rest = full_jobs version js in
    if str_eq j.zig version && not j.mutate && j.full then j ∷ rest else rest

unfoldable pub restricted_jobs : String → List Job → List Job
restricted_jobs version [] = []
restricted_jobs version (j ∷ js) =
    let rest = restricted_jobs version js in
    if str_eq j.zig version && not j.mutate && not j.full then j ∷ rest else rest

-- A row of the version table: the version, its CI claim, and its examples.
pub record Claim : Type 0 where
  pub version : String
  pub ci : String
  pub examples : List String

pub record Headline : Type 0 where
  pub cases : ℕ
  pub exact : ℕ
  pub illegal : ℕ
  pub unspecified : ℕ

-- What README.md claims: the supported versions, the rows, the versions that the prose says to skip the
-- differential harness, and the numbers of the headline, where its sentence is there.
pub record Readme : Type 0 where
  pub supported : List String
  pub rows : List Claim
  pub skipping : List String
  pub headline : Option Headline

pub data Disagreement : Type 0 where
  other_versions other_rows : Disagreement
  no_full_job unrecognized other_jobs : String → Disagreement
  other_examples : String → Disagreement
  skips_harness : String → Disagreement
  no_headline wrong_headline : Disagreement
  unsupported_row unclaimed_row other_selection other_skipped : String → String → Disagreement

abbrev pub report_if : Bool → Disagreement → List Disagreement
report_if bad d = if bad then d ∷ [] else []

abbrev pub is_full : Claim → Bool
is_full c = begins_with "full job" c.ci && contains "diff test" c.ci

abbrev pub is_restricted : Claim → Bool
is_restricted c = not (is_full c) && begins_with "restricted job" c.ci

-- A claim of a version whose summary counts.
unfoldable pub claims_diff : Claim → Bool
unfolding begins_with contains
claims_diff c = is_full c || is_restricted c && contains "diff test" c.ci

unfoldable pub other_job_examples : Claim → List Job → List Disagreement
unfolding strings_equal
other_job_examples c [] = []
other_job_examples c (j ∷ js) =
    report_if (not (strings_equal j.examples c.examples)) (other_examples c.version)
    ++ other_job_examples c js

-- The problems of one row of the version table.
unfoldable pub row_problems : List Job → Claim → List Disagreement
unfolding begins_with contains full_jobs restricted_jobs other_job_examples
row_problems jobs c =
    let full = full_jobs c.version jobs in
    let restricted = restricted_jobs c.version jobs in
    if is_full c
    then report_if (is_empty full) (no_full_job c.version)
    else if is_restricted c
    then report_if (not (contains "diff test" c.ci) && not (contains "no diff harness" c.ci))
        (unrecognized c.version)
      ++ report_if (not (is_empty full) || is_empty restricted) (other_jobs c.version)
      ++ other_job_examples c restricted
    else unrecognized c.version ∷ []

unfoldable pub rows_problems : List Job → List Claim → List Disagreement
unfolding row_problems
rows_problems jobs [] = []
rows_problems jobs (c ∷ cs) = row_problems jobs c ++ rows_problems jobs cs

-- `full_claims` and `diff_claims`
unfoldable pub versions_where : (Claim → Bool) → List Claim → List String
versions_where p [] = []
versions_where p (c ∷ cs) = let rest = versions_where p cs in if p c then c.version ∷ rest else rest

unfoldable pub prose_problems : List String → List String → List String → List Disagreement
unfolding listed
prose_problems full_claims versions [] = []
prose_problems full_claims versions (v ∷ vs) =
    report_if (listed v full_claims || not (listed v versions)) (skips_harness v)
    ++ prose_problems full_claims versions vs

unfoldable pub headline_problems : Option Headline → List Disagreement
headline_problems none = no_headline ∷ []
headline_problems (some h) =
    report_if (not (h.exact + h.illegal + h.unspecified == h.cases)) wrong_headline

-- `rows.get(version)`
unfoldable pub claim_of : String → List Claim → Option Claim
claim_of version [] = none
claim_of version (c ∷ cs) = if str_eq c.version version then some c else claim_of version cs

unfoldable pub expected_examples : Claim → String → List String
unfolding keep_if ends_with
expected_examples c target =
    keep_if (λ e. not (str_eq e "asm") || ends_with "-x86_64" target) c.examples

-- The problems of a published row; `every` is the number of examples, which the source's difference of
-- integers compares with the skipped and the selected ones.
unfoldable pub published_problems : ℕ → List Claim → List String → Row → List Disagreement
unfolding claim_of listed strings_equal expected_examples
published_problems every rows diff_claims r = elim (claim_of r.version rows) [
  | none ↦ unsupported_row r.version r.target ∷ []
  | some c ↦
      if not (listed r.version diff_claims)
      then unclaimed_row r.version r.target ∷ []
      else report_if (not (strings_equal r.selected_examples (expected_examples c r.target)))
          (other_selection r.version r.target)
        ++ report_if (not (r.cells skipped_examples + length r.selected_examples == every))
            (other_skipped r.version r.target)
]

unfoldable pub table_problems : ℕ → List Claim → List String → List Row → List Disagreement
unfolding published_problems
table_problems every rows diff_claims [] = []
table_problems every rows diff_claims (r ∷ rs) =
    published_problems every rows diff_claims r ++ table_problems every rows diff_claims rs

-- `claims`: the problems. The rows are those of the table, or none where there is no table.
unfoldable pub claims : Readme → List Job → ℕ → List Row → List Disagreement
unfolding strings_equal sorted_set rows_problems versions_where prose_problems headline_problems
    table_problems claims_diff
claims readme jobs every rows =
    let versions = map (λ c. c.version) readme.rows in
    let full_claims = versions_where is_full readme.rows in
    let diff_claims = versions_where claims_diff readme.rows in
    report_if
      (not (strings_equal (sorted text_le readme.supported) (sorted_set (map (λ j. j.zig) jobs))))
      other_versions
    ++ report_if (not (strings_equal (sorted text_le versions) (sorted text_le readme.supported)))
        other_rows
    ++ rows_problems jobs readme.rows
    ++ prose_problems full_claims versions readme.skipping
    ++ headline_problems readme.headline
    ++ table_problems every readme.rows diff_claims rows

-- The full-diff versions of the README without a summary, for `--require-full-versions`.
unfoldable pub missing_versions : Readme → List Row → List String
unfolding keep_if listed sorted_set versions_where
missing_versions readme rows =
    let have = map (λ (r : Row). r.version) rows in
    sorted_set (keep_if (λ v. not (listed v have)) (versions_where is_full readme.rows))
