-- ===== src/Diff/Run/Functions.antt =====
-- The loops of `compare_summary` in scripts/diff-report.py over the cases of a function, its pins,
-- the functions of an example and the examples.
use air2lean.Base.{
  ℕ, ◌+◌, String, Option, none, some, Bool, true, false, ◌&&◌, ◌||◌, not, List, [], ◌∷◌, ◌++◌, map,
  str_eq, ◌==◌, leb, ltb, if◌then◌else◌, as_count,
}
use air2lean.Base.Result.{Result, ok, err, ◌>>=◌, ◌>>◌, refuse_if}
use air2lean.Base.Text.{is_ident}
use air2lean.Json.{Json}
use air2lean.Closure.Names.{sorted_set}
use air2lean.Diff.{Status, status_eq, Policy, Failure, invalid, max_cases}
use air2lean.Diff.Exploration.Scopes.{scope_at}
use air2lean.Diff.Config.{Pin, FunctionPins, Pins, Allowances, get_or}
use air2lean.Diff.Run.{
  Lines, Setting, compare_case, counted, Statuses, Pinned, unspecified, capped, Violation, State,
  Local, no_cases, count_local, count_case,
}

-- The inputs and the results of one function: the lines of its five files.
pub record Function : Type 0 where
  pub name : String
  pub inputs : List String
  pub native_lines : List String
  pub model_lines : List String
  pub native_metas : List String
  pub model_metas : List String

-- The rows of the files; `none` where some of them have ended and others have not.
unfoldable pub zipped :
    List String → List String → List String → List String → List String → List (Option Lines)
zipped [] [] [] [] [] = []
zipped (a ∷ inputs) (b ∷ natives) (c ∷ models) (d ∷ native_metas) (e ∷ model_metas) =
    some (record { raw = a; native_line = b; model_line = c; native_meta = d; model_meta = e })
    ∷ zipped inputs natives models native_metas model_metas
zipped _ _ _ _ _ = none ∷ []

-- `specs.get(fn, {}).get(sha, (0, 0, None))`: an input without a pin expects no case.
unfoldable pub range_at : String → FunctionPins → Pin
unfolding get_or
range_at sha pinned = get_or (record { lo = 0; hi = 0; reason = "" }) sha pinned

-- `statuses[s]` for one of the statuses that leave the detection open
unfoldable pub is_open : Statuses → Bool
unfolding counted
is_open statuses =
    not (counted status_eq Status.search_cap statuses == 0)
    || not (counted status_eq Status.bounded_no_result statuses == 0)
    || not (counted status_eq Status.host statuses == 0)
    || not (counted status_eq Status.input_failure statuses == 0)
    || not (counted status_eq Status.native_harness_failure statuses == 0)

abbrev pub is_unspecified : Pinned → Bool
is_unspecified unspecified = true
is_unspecified capped = false

-- A violation that is a semantic change counts as a detection; `is_open` says that it may be none.
unfoldable pub violate : Bool → Violation → State → State
violate is_open v s = record s {
  violations = s.violations ++ v ∷ [];
  eligible = s.eligible + as_count (is_unspecified v.counter && not is_open);
}

unfoldable pub violation_of :
    String → String → Pinned → FunctionPins → List (String × ℕ) → String → Violation
unfolding range_at counted
violation_of example fn counter pinned actuals sha = record {
  example = example;
  function = fn;
  counter = counter;
  sha = sha;
  actual = counted str_eq sha actuals;
  lo = (range_at sha pinned).lo;
  hi = (range_at sha pinned).hi;
}

-- `lo <= actual <= hi`
unfoldable pub in_range : String → FunctionPins → List (String × ℕ) → Bool
unfolding range_at counted
in_range sha pinned actuals =
    leb (range_at sha pinned).lo (counted str_eq sha actuals)
    && leb (counted str_eq sha actuals) (range_at sha pinned).hi

-- The loop over `sorted(set(pinned) | set(per_input[bucket]))`.
unfoldable pub check_inputs :
    String → String → Pinned → FunctionPins → List (String × ℕ) → Bool → List String → State → State
unfolding in_range violation_of violate
check_inputs example fn counter pinned actuals is_open [] s = s
check_inputs example fn counter pinned actuals is_open (sha ∷ shas) s =
    let v = violation_of example fn counter pinned actuals sha in
    check_inputs example fn counter pinned actuals is_open shas
      (if in_range sha pinned actuals then s else violate is_open v s)

unfoldable pub inputs_of : FunctionPins → List (String × ℕ) → List String
unfolding sorted_set
inputs_of pinned actuals = sorted_set (map (λ p. p.0) pinned ++ map (λ p. p.0) actuals)

unfoldable pub check_bucket :
    String → String → Pinned → FunctionPins → List (String × ℕ) → Bool → State → State
unfolding check_inputs inputs_of
check_bucket example fn counter pinned actuals is_open s =
    check_inputs example fn counter pinned actuals is_open (inputs_of pinned actuals) s

-- `observed['capped'] or observed['bounded']` of the scope
unfoldable pub is_incomplete : String → String → State → Bool
unfolding scope_at
is_incomplete example fn s =
    let scope = scope_at (example, fn) s.exploration.scopes in
    not (scope.capped_cases == 0) || not (scope.bounded_cases == 0)

-- What an example configures.
pub record Config : Type 0 where
  pub allowed_host : Allowances
  pub unspecified_pins : Pins
  pub capped_pins : Pins
  pub exclude_ub : Bool
  pub is_fresh : Bool

-- The pins of a function; they do not apply to fresh inputs.
unfoldable pub check_pins : Config → String → String → Local → State → State
unfolding check_bucket is_incomplete is_open get_or
check_pins config example fn here s =
    let undecided = is_incomplete example fn s || is_open here.statuses in
    if config.is_fresh
    then s
    else check_bucket example fn capped (get_or [] fn config.capped_pins) here.capped_inputs
        undecided
        (check_bucket example fn unspecified (get_or [] fn config.unspecified_pins)
          here.unspecified_inputs undecided s)

-- What holds for the cases of a function.
unfoldable pub setting : Config → String → Setting
unfolding get_or
setting config fn = record {
  allowed = get_or [] fn config.allowed_host;
  excluded = get_or [] fn config.unspecified_pins;
  exclude_ub = config.exclude_ub;
  is_fresh = config.is_fresh;
}

module _ (decode : String → Option Json) (sha256 : String → String) (panics : Policy) where
  -- The loop over the rows of a function.
  unfoldable pub compare_cases :
      Setting
      → String
      → String
      → List (Option Lines)
      → Local
      → State
      → Result Failure (Local × State)
  unfolding compare_case count_local count_case
  compare_cases at example fn [] here s = ok (here, s)
  compare_cases at example fn (none ∷ cases) here s = err invalid
  compare_cases at example fn (some case ∷ cases) here s = do
    c ← compare_case decode sha256 panics at case
    refuse_if (ltb max_cases (s.case_count + 1)) invalid
    compare_cases at example fn cases (count_local c here)
        (count_case example fn (here.count + 1) c s)

  unfoldable pub compare_function : Config → String → Function → State → Result Failure State
  unfolding compare_cases setting check_pins zipped
  compare_function config example f s = do
    refuse_if (not (is_ident f.name)) invalid
    let cases = zipped f.inputs f.native_lines f.model_lines f.native_metas f.model_metas
    done ← compare_cases (setting config f.name) example f.name cases no_cases s
    refuse_if (done.0.count == 0) invalid
    ok (check_pins config example f.name done.0 done.1)

  unfoldable pub compare_functions : Config → String → List Function → State → Result Failure State
  unfolding compare_function
  compare_functions config example [] s = ok s
  compare_functions config example (f ∷ fs) s =
      compare_function config example f s >>= compare_functions config example fs
