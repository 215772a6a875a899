-- ===== src/Diff/Run.antt =====
-- `compare_summary` of scripts/diff-report.py, the run of a comparison: this file has one case and
-- the counters of a function, the children the functions, examples and the summary. A file is the
-- list of lines that `lines` gives. `json.loads`, SHA-256 and `str.isspace` are parameters; the
-- messages and the writing of the report, with its bound of bytes, are left out, and `rows` holds
-- the rows that the report has.
pub mod Functions
pub mod Selection
pub mod Summary
pub mod Counters
pub mod Keeps
pub mod Counts
pub mod Report
pub mod Totals
pub mod Written
pub mod Explored
pub mod Added
pub mod Ranges
pub mod Pins
use air2lean.Base.{
  ℕ, ◌+◌, String, Option, none, some, Bool, true, false, ◌||◌, not, List, [], ◌∷◌, ◌++◌, str_eq,
  ◌==◌, if◌then◌else◌, ltb, as_count,
}
use air2lean.Base.Result.{Result, ok, err, ◌>>=◌, ◌>>◌, refuse_if}
use air2lean.Json.{Json}
use air2lean.Diff.{Kind, Status, status_eq, Search, Policy, Failure, invalid, max_cases}
use air2lean.Diff.Wire.{Wire, wire, same_value}
use air2lean.Diff.Kinds.{native, model}
use air2lean.Diff.Observe.{observation}
use air2lean.Diff.Floats.{HostKind}
use air2lean.Diff.Host.{host_difference}
use air2lean.Diff.Classify.{Bucket, Flags, classify, legacy_bucket}
use air2lean.Diff.Exploration.{Exploration, add_case}
use air2lean.Diff.Config.{FunctionPins, has_key}

-- The lines of one case: the input, the results and their metadata.
pub record Lines : Type 0 where
  pub raw : String
  pub native_line : String
  pub model_line : String
  pub native_meta : String
  pub model_meta : String

-- What the loop computes of a case before it counts it.
pub record Compared : Type 0 where
  pub native_kind : Kind
  pub model_kind : Kind
  pub search : Option Search
  pub input_sha : String
  pub host_kinds : Option (List HostKind)
  pub status : Status
  pub observed : Bucket

-- What holds for all cases of a function: the host kinds that it is allowed, its pins of unspecified
-- results, the build without safety checks, and whether the inputs are fresh.
pub record Setting : Type 0 where
  pub allowed : List HostKind
  pub excluded : FunctionPins
  pub exclude_ub : Bool
  pub is_fresh : Bool

abbrev pub is_some {ℓ} : {A : Type ℓ} → Option A → Bool
is_some none = false
is_some (some a) = true

abbrev pub unless {ℓ} : {A : Type ℓ} → Bool → Option A → Option A
unless true o = none
unless false o = o

module _ (decode : String → Option Json) (sha256 : String → String) (panics : Policy) where
  unfoldable pub decoded_line : String → Result Failure Json
  decoded_line line = elim (decode line) [ none ↦ err invalid | some v ↦ ok v ]

  -- The status and the bucket of the decoded case.
  unfoldable pub judged : Setting → String → Wire → Wire → Kind → Kind → Option Search → Compared
  unfolding same_value host_difference classify legacy_bucket has_key
  judged at sha n m nkind mkind found =
      let match = same_value n m in
      let host_kinds = unless match (host_difference n m at.allowed) in
      let flags : Flags = record {
        host = is_some host_kinds;
        exclude_ub = at.exclude_ub;
        pinned = at.is_fresh || has_key sha at.excluded;
      } in
      record {
        native_kind = nkind;
        model_kind = mkind;
        search = found;
        input_sha = sha;
        host_kinds = host_kinds;
        status = classify panics n m nkind mkind found flags (some match);
        observed = legacy_bucket panics n m (is_some host_kinds) (some match) found at.exclude_ub;
      }

  unfoldable pub compare_case : Setting → Lines → Result Failure Compared
  unfolding wire observation decoded_line judged
  compare_case at case = do
    input ← decoded_line case.raw
    n ← decoded_line case.native_line >>= wire
    m ← decoded_line case.model_line >>= wire
    native_record ← decoded_line case.native_meta
    seen ← observation decode native_record n native
    model_record ← decoded_line case.model_meta
    found ← observation decode model_record m model
    ok (judged at (sha256 case.raw) n m seen.0 found.0 found.1)

-- The counter of a bucket; the typed mismatch is never an agreement.
unfoldable pub bucket_of : Compared → Bucket
bucket_of c = if status_eq c.status Status.mismatch then Bucket.mismatch else c.observed

abbrev pub bucket_index : Bucket → ℕ
bucket_index Bucket.ok = 0
bucket_index Bucket.fail_match = 1
bucket_index Bucket.unspecified = 2
bucket_index Bucket.capped = 3
bucket_index Bucket.host = 4
bucket_index Bucket.mismatch = 5
bucket_index Bucket.ub_excluded = 6

abbrev pub bucket_eq : Bucket → Bucket → Bool
bucket_eq a b = bucket_index a == bucket_index b

-- `counter[key] += 1`: a counter keeps the order in which its keys came.
unfoldable pub bump {ℓ} : {A : Type ℓ} → (A → A → Bool) → A → List (A × ℕ) → List (A × ℕ)
bump same a [] = (a, 1) ∷ []
bump same a ((b, n) ∷ counts) =
    if same b a then (b, n + 1) ∷ counts else (b, n) ∷ bump same a counts

-- `counter[key]`, which is 0 for a missing key
unfoldable pub counted {ℓ} : {A : Type ℓ} → (A → A → Bool) → A → List (A × ℕ) → ℕ
counted same a [] = 0
counted same a ((b, n) ∷ counts) = if same b a then n else counted same a counts

abbrev pub Statuses : Type 0
Statuses = List (Status × ℕ)

abbrev pub Buckets : Type 0
Buckets = List (Bucket × ℕ)

-- The buckets that have pins.
pub data Pinned : Type 0 where
  unspecified capped : Pinned

-- A number of cases out of the range of its pin.
pub record Violation : Type 0 where
  pub example : String
  pub function : String
  pub counter : Pinned
  pub sha : String
  pub actual : ℕ
  pub lo : ℕ
  pub hi : ℕ

-- A row of the report: its example, function and index, and what was computed.
pub record Row : Type 0 where
  pub example : String
  pub function : String
  pub input_index : ℕ
  pub case : Compared
  pub bucket : Bucket

-- The state of the whole run.
pub record State : Type 0 where
  pub totals : Statuses
  pub legacy_totals : Buckets
  pub violations : List Violation
  pub eligible : ℕ
  pub case_count : ℕ
  pub exploration : Exploration
  pub rows : List Row

-- The counters of one function.
pub record Local : Type 0 where
  pub buckets : Buckets
  pub statuses : Statuses
  pub count : ℕ
  pub unspecified_inputs : List (String × ℕ)
  pub capped_inputs : List (String × ℕ)

abbrev pub no_cases : Local
no_cases = record {
  buckets = [];
  statuses = [];
  count = 0;
  unspecified_inputs = [];
  capped_inputs = [];
}

-- `per_input[observed][input_sha] += 1`, where the bucket has pins
unfoldable pub count_input : Compared → Local → Local
unfolding bump
count_input c here =
    if bucket_eq c.observed Bucket.unspecified
    then record here { unspecified_inputs = bump str_eq c.input_sha here.unspecified_inputs }
    else if bucket_eq c.observed Bucket.capped
    then record here { capped_inputs = bump str_eq c.input_sha here.capped_inputs }
    else here

unfoldable pub count_local : Compared → Local → Local
unfolding bump bucket_of count_input
count_local c here = count_input c (record here {
  buckets = bump bucket_eq (bucket_of c) here.buckets;
  statuses = bump status_eq c.status here.statuses;
  count = here.count + 1;
})

unfoldable pub row : String → String → ℕ → Compared → Row
unfolding bucket_of
row example function index c = record {
  example = example;
  function = function;
  input_index = index;
  case = c;
  bucket = bucket_of c;
}

-- The counters of the run, with the index of the case in its function.
unfoldable pub count_case : String → String → ℕ → Compared → State → State
unfolding bump bucket_of add_case row
count_case example function index c s = record s {
  totals = bump status_eq c.status s.totals;
  legacy_totals = bump bucket_eq (bucket_of c) s.legacy_totals;
  eligible = s.eligible + as_count (status_eq c.status Status.mismatch);
  case_count = s.case_count + 1;
  exploration =
      add_case
        (record {
          key = (example, function);
          input_index = index;
          status = c.status;
          search = c.search;
        })
        s.exploration;
  rows = s.rows ++ row example function index c ∷ [];
}
