-- ===== src/Diff/Driver.antt =====
-- `failure_observations` and `main` of scripts/diff-report.py: its actions, the summary that each
-- writes, and the exit code. Files are their lines; the removal of old files, the report lines on
-- the terminal and errors of the operating system are left out.
pub mod Eligible
use air2lean.Base.{
  ℕ, ◌+◌, String, Option, none, some, Bool, true, false, ◌&&◌, ◌||◌, not, List, [], ◌∷◌, ◌++◌,
  str_eq, ◌==◌, ltb, if◌then◌else◌, all, is_empty, length,
}
use air2lean.Base.Int.{ℤ, pos, int_eq}
use air2lean.Base.Result.{Result, ok, err, ◌>>=◌, ◌>>◌, refuse_if}
use air2lean.Base.Text.{is_ident}
use air2lean.Json.{Json, Fields, bool, int, str, obj, get, natural_of}
use air2lean.Diff.{Failure, invalid, unsupported, attribute_error, max_cases}
use air2lean.Diff.Run.Summary.{Summary, Outcome}

-- `Failure` of the source: why a run has no comparison.
pub data Category : Type 0 where
  setup_failure input_failure unsupported_input : Category

pub data Producer : Type 0 where
  zig lean : Producer

-- An input that a side of the run could not read.
pub record FailedInput : Type 0 where
  pub example : String
  pub producer : Producer
  pub function : String
  pub input_index : ℕ

-- The outcomes file of one function on one side.
pub record Outcomes : Type 0 where
  pub function : String
  pub lines : List String

abbrev pub is_number : ℕ → Option Json → Bool
is_number n (some (int m)) = int_eq m (pos n)
is_number n _ = false

abbrev is_text : String → Option Json → Bool
is_text s (some (str t)) = str_eq t s
is_text s _ = false

abbrev pub holds_true : Option Json → Bool
holds_true (some (bool b)) = b
holds_true _ = false

-- An accepted line counts when it is the observation of an input failure.
unfoldable failed_input : Json → Result Failure Bool
failed_input (obj fs) =
    ok (is_number 1 (get "schema" fs) && is_text "input_failure" (get "kind" fs))
failed_input _ = err invalid

-- The number of lines that were seen, and the observations so far.
abbrev Seen : Type 0
Seen = ℕ × List FailedInput

module _ (decode : String → Option Json) where
  unfoldable read_line : String → Result Failure Json
  read_line line = elim (decode line) [ none ↦ err invalid | some v ↦ ok v ]

  unfoldable observe_line : String → Producer → String → ℕ → String → Seen → Result Failure Seen
  unfolding read_line failed_input
  observe_line example producer function index line (seen, found) = do
    refuse_if (ltb max_cases (seen + 1)) invalid
    v ← read_line line
    b ← failed_input v
    let more =
        if b
        then found
          ++ record {
            example = example;
            producer = producer;
            function = function;
            input_index = index;
          }
            ∷ []
        else found
    refuse_if (ltb max_cases (length more)) invalid
    ok (seen + 1, more)

  unfoldable observe_lines :
      String → Producer → String → ℕ → List String → Seen → Result Failure Seen
  unfolding observe_line
  observe_lines example producer function index [] s = ok s
  observe_lines example producer function index (line ∷ lines) s =
      observe_line example producer function index line s
      >>= observe_lines example producer function (index + 1) lines

  unfoldable observe_files : String → Producer → List Outcomes → Seen → Result Failure Seen
  unfolding observe_lines
  observe_files example producer [] s = ok s
  observe_files example producer (f ∷ fs) s =
      observe_lines example producer f.function 1 f.lines s >>= observe_files example producer fs

  unfoldable observe_examples :
      (String → Producer → List Outcomes) → List String → Seen → Result Failure Seen
  unfolding observe_files
  observe_examples files [] s = ok s
  observe_examples files (example ∷ examples) s = do
    refuse_if (not (is_ident example)) invalid
    native ← observe_files example zig (files example zig) s
    model ← observe_files example lean (files example lean) native
    observe_examples files examples model

  unfoldable pub failure_observations :
      (String → Producer → List Outcomes) → List String → Result Failure (List FailedInput)
  unfolding observe_examples
  failure_observations files examples = do seen ← observe_examples files examples (0, []); ok seen.1

-- The action `eligible` on a read_line summary: the number that it prints.
unfoldable pub eligible : Json → Result Failure ℕ
eligible (obj result) = do
  refuse_if
      (not (is_number 1 (get "schema" result))
        || not (holds_true (get "complete" result))
        || not (is_number 0 (get "setup_failures" result)))
      invalid
  elim (natural_of (get "mutation_eligible" result)) [ none ↦ err invalid | some n ↦ ok n ]
eligible _ = err invalid

-- What a run leaves as its summary: of a comparison, of a failure (`summary_failure`, which is not
-- complete and has no eligible case), or what was there before.
pub data Left : Type 0 where
  compared : Summary → Left
  failed : Category → List FailedInput → Left
  kept : Left

pub record Ran : Type 0 where
  pub exit_code : ℕ
  pub left : Left
  pub printed : Option ℕ

pub data Action : Type 0 where
  init failure eligible_cases compare : Action

-- `result.get('complete') is True` of an existing summary, which must be an object
unfoldable is_complete : Option Json → Result Failure Bool
is_complete none = ok false
is_complete (some (obj fs)) = ok (holds_true (get "complete" fs))
is_complete (some _) = err invalid

unfoldable failure_summary : List FailedInput → Ran
failure_summary observed = record {
  exit_code = 0;
  left = failed (if is_empty observed then setup_failure else input_failure) observed;
  printed = none;
}

-- The `failure` action keeps the evidence of a complete comparison.
unfoldable fail_run : Option Json → Result Failure (List FailedInput) → Result Failure Ran
unfolding is_complete failure_summary
fail_run existing observed = do
  complete ← is_complete existing
  if complete
      then ok (record { exit_code = 0; left = kept; printed = none })
      else (observed >>= λ seen. ok (failure_summary seen))

unfoldable init_run : List String → Result Failure Ran
init_run examples = do
  refuse_if (not (all is_ident examples)) invalid
  ok (record { exit_code = 0; left = failed setup_failure []; printed = none })

unfoldable eligible_run : Option Json → Result Failure Ran
unfolding eligible
eligible_run none = err invalid
eligible_run (some v) = do
  n ← eligible v
  ok (record { exit_code = 0; left = kept; printed = some n })

unfoldable compare_run : Result Failure Outcome → Result Failure Ran
compare_run comparison = do
  o ← comparison
  ok (record { exit_code = o.exit_code; left = compared o.summary; printed = none })

-- The `try` of `main`: the existing summary, the observations of the outcome files and the comparison
-- are computed where the action asks for them.
unfoldable attempt :
    Action
    → List String
    → Option Json
    → Result Failure (List FailedInput)
    → Result Failure Outcome
    → Result Failure Ran
unfolding fail_run init_run eligible_run compare_run
attempt init examples existing observed comparison = init_run examples
attempt failure examples existing observed comparison = fail_run existing observed
attempt eligible_cases examples existing observed comparison = eligible_run existing
attempt compare examples existing observed comparison = compare_run comparison

unfoldable left_of : Action → Failure → Left
left_of eligible_cases f = kept
left_of _ unsupported = failed unsupported_input []
left_of _ invalid = failed setup_failure []
left_of _ attribute_error = kept

-- An AttributeError leaves `main` uncaught.
unfoldable end_run : Action → Result Failure Ran → Ran
unfolding left_of
end_run action (ok r) = r
end_run action (err attribute_error) = record { exit_code = 1; left = kept; printed = none }
end_run action (err f) = record { exit_code = 2; left = left_of action f; printed = none }

unfoldable pub main :
    Action
    → List String
    → Option Json
    → Result Failure (List FailedInput)
    → Result Failure Outcome
    → Ran
unfolding attempt end_run
main action examples existing observed comparison =
    end_run action (attempt action examples existing observed comparison)
