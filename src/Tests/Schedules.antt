-- ===== src/Tests/Schedules.antt =====
-- Runs of the check on answers of the schedule explorer, and the theorems at them.
use air2lean.Base.{ℕ, String, Option, some, Bool, true, false, [], ◌∷◌, ◌≡◌, refl, All, length}
use air2lean.Base.Int.{ℤ, pos}
use air2lean.Base.Result.{ok, err}
use air2lean.Json.{
  Json, Fields, null, bool, int, str, arr, obj, nil, cons, end, field, get, natural_of,
}
use air2lean.Diff.{Kind, Failure, invalid}
use air2lean.Schedules.{Execution, Flags}
use air2lean.Schedules.Validate.{Accepted, validate_response}
use air2lean.Schedules.Validate.Consistent.{
  IsConsistent, validate_response-IsConsistent, validate_response_complete,
}
use air2lean.Schedules.Replay.{prepare_replay, replay_request}
use air2lean.Schedules.Replay.Repeats.{SameRun, At, replay_repeats}

-- Every line is the same returned value, and no float is an integer.
abbrev line_value : String → Option Json
line_value s = some (obj (field "ok" (int (pos 7)) end))

abbrev never : Bool → ℕ → ℤ → Bool
never s n i = false

abbrev natural : ℕ → Json
natural n = int (pos n)

abbrev request_of : String → Fields
request_of mode =
    field "mode" (str mode)
      (field "fuel" (natural 5) (field "node_cap" (natural 1) (field "prefix_cap" (natural 3) end)))

abbrev observed_value : Fields
observed_value =
    field "schema" (natural 1) (field "kind" (str "value") (field "legacy_line" (str "{}") end))

abbrev response_of : String → ℕ → Json
response_of mode choice = obj (
    field "schema" (natural 1) (
      field "qualified" (bool false) (
        field "mode" (str mode) (
          field "fuel" (natural 5) (
            field "node_cap" (natural 1) (
              field "prefix_cap" (natural 3) (
                field "runs" (natural 1) (
                  field "truncated" (bool false) (
                    field "node_cap_reached" (bool false) (
                      field "prefix_cap_reached" (bool false) (
                        field "exploration_complete" (bool true) (
                          field "saw_no_result" (bool false) (
                            field "outcomes" (arr (cons (obj observed_value) nil)) (
                              field "executions"
                                (arr (
                                  cons
                                    (obj (
                                      field "prefix" (arr (cons (natural choice) nil)) (
                                        field "options" (arr (cons (natural 2) nil)) (
                                          field "choice_count" (natural 1) (
                                            field "trace_complete" (bool true)
                                              (field "observation" (obj observed_value) end))))))
                                    nil))
                                end))))))))))))))

abbrev one_execution : Execution
one_execution = record {
  steps = (1, 2) ∷ [];
  choice_count = 1;
  trace_complete = true;
  observation = observed_value;
  line = "{}";
  kind = Kind.value;
}

abbrev whole : Flags
whole = record {
  truncated = false;
  node_cap_reached = false;
  prefix_cap_reached = false;
  exploration_complete = true;
  saw_no_result = false;
}

abbrev answered : Accepted
answered = record { executions = one_execution ∷ []; flags = whole }

validate-enumerated :
    validate_response line_value never (response_of "enumerate" 1) (request_of "enumerate")
    ≡ ok answered
unfolding validate_response get natural_of air2lean.Json.json_equal air2lean.Diff.Wire.wire
    air2lean.Json.has air2lean.Json.keys_among air2lean.Diff.Observe.observation
    air2lean.Diff.Wire.wire_equal air2lean.Diff.Kinds.allowed air2lean.Diff.Kinds.fits
    air2lean.Json.keys_within
validate-enumerated = refl

-- A choice that is not below its number of options is refused.
validate-outside :
    validate_response line_value never (response_of "enumerate" 2) (request_of "enumerate")
    ≡ err invalid
unfolding validate_response get natural_of air2lean.Json.json_equal
validate-outside = refl

validate_response-IsConsistent_example :
    IsConsistent (response_of "enumerate" 1) (request_of "enumerate") answered
validate_response-IsConsistent_example =
    validate_response-IsConsistent line_value never (response_of "enumerate" 1)
      (request_of "enumerate") answered validate-enumerated

mode_enumerate : get "mode" (request_of "enumerate") ≡ some (str "enumerate")
unfolding get
mode_enumerate = refl

validate_response_complete_example :
    (answered.flags.node_cap_reached ≡ false)
    × All (λ e. e.choice_count ≡ length e.steps) answered.executions
validate_response_complete_example =
    validate_response_complete line_value never (response_of "enumerate" 1) (request_of "enumerate")
      answered validate-enumerated mode_enumerate refl

-- An answer with two executions, of which the second is replayed.
abbrev two_executions : Accepted
two_executions = record {
  executions = record one_execution { steps = (0, 2) ∷ [] } ∷ one_execution ∷ [];
  flags = whole;
}

prepared :
    prepare_replay (request_of "enumerate") two_executions (some (natural 1))
    ≡ ok (replay_request (request_of "enumerate") one_execution)
unfolding prepare_replay natural_of get
prepared = refl

validate-repeated :
    validate_response line_value never
      (response_of "replay" 1)
      (replay_request (request_of "enumerate") one_execution)
    ≡ ok answered
unfolding validate_response get natural_of replay_request air2lean.Json.json_equal
    air2lean.Diff.Wire.wire air2lean.Json.has air2lean.Json.keys_among
    air2lean.Diff.Observe.observation air2lean.Diff.Wire.wire_equal air2lean.Diff.Kinds.allowed
    air2lean.Diff.Kinds.fits air2lean.Json.keys_within
validate-repeated = refl

replay_repeats_example :
    (i : ℕ) × (e : Execution) × (d : Execution) × (natural_of (some (natural 1)) ≡ some i)
    × At i two_executions.executions e
    × (e.trace_complete ≡ true)
    × (answered.executions ≡ d ∷ [])
    × (d.trace_complete ≡ true)
    × SameRun d e
replay_repeats_example =
    replay_repeats line_value never (request_of "enumerate")
      (replay_request (request_of "enumerate") one_execution) two_executions answered
      (some (natural 1)) (response_of "replay" 1) prepared validate-repeated
