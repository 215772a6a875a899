-- ===== src/Schedules/Validate/Consistent.antt =====
-- What an accepted answer of the schedule explorer has: `validate_response` of scripts/schedules.py.
use air2lean.Base.{
  ℕ, ◌*◌, ◌≤◌, String, Option, some, Bool, true, false, ◌||◌, not, List, [], ◌∷◌, ◌≡◌, sym, ◌∙◌,
  sum_of, All-implies, length, any, All, arith,
}
use air2lean.Base.Int.{ℤ}
use air2lean.Base.Result.{ok}
use air2lean.Json.{Json, Fields, str, obj, get, json_equal, natural_of}
use air2lean.Diff.{Kind, kind_eq}
use air2lean.Schedules.Request.{Limits, enumerate, replay, echoes, or_null}
use air2lean.Schedules.{Execution}
use air2lean.Schedules.Validate.{Accepted, validate_response}
use air2lean.Schedules.Validate.Traces.{IsTrace}
use air2lean.Schedules.Validate.Caps.{IsLimits, limits-IsLimits, mode_text, mode_text-mode}
use air2lean.Schedules.Validate.Steps.{
  check_flags-agree, check_mode-agrees, validate_response-Passed,
}

-- The answer has the value of the request under the key.
abbrev Echoes : String → Fields → Fields → Type 0
Echoes k answer request = json_equal (or_null (get k answer)) (or_null (get k request)) ≡ true

pub record IsConsistent (response : Json) (request : Fields) (a : Accepted) : Type 0 where
  -- the numbers and the mode that the request has, within the fixed bounds
  pub limits_of : Limits
  pub limits_are : IsLimits request limits_of
  pub answer : Fields
  pub is_object : response ≡ obj answer
  pub echoed :
      Echoes "mode" answer request
      × Echoes "fuel" answer request
      × Echoes "node_cap" answer request
      × Echoes "prefix_cap" answer request
  pub runs : natural_of (get "runs" answer) ≡ some (length a.executions)
  pub few : length a.executions ≤ limits_of.node_cap
  pub traces : All (IsTrace limits_of) a.executions
  pub truncated : a.flags.truncated ≡ (a.flags.node_cap_reached || a.flags.prefix_cap_reached)
  pub prefix_cap_reached : any (λ e. not e.trace_complete) a.executions ≡ a.flags.prefix_cap_reached
  pub saw_no_result :
      a.flags.saw_no_result ≡ any (λ e. kind_eq e.kind Kind.bounded_no_result) a.executions
  -- an enumeration is complete when it is not truncated, and a replay is one whole execution
  pub enumerated :
      get "mode" request ≡ some (str "enumerate")
      → a.flags.exploration_complete ≡ not a.flags.truncated
  pub replayed :
      get "mode" request ≡ some (str "replay")
      → (a.flags.truncated ≡ false) × (length a.executions ≡ 1)

all_echoed :
    (answer request : Fields)
    → echoes ("mode" ∷ "fuel" ∷ "node_cap" ∷ "prefix_cap" ∷ []) answer request ≡ true
    → Echoes "mode" answer request
      × Echoes "fuel" answer request
      × Echoes "node_cap" answer request
      × Echoes "prefix_cap" answer request
unfolding echoes
all_echoed answer request h = (ground arith, ground arith, ground arith, ground arith)

-- An accepted answer is an object that repeats the mode and the caps of its request, and its `runs` is the
-- number of its executions. These caps are natural numbers within the fixed ones; the answer is within
-- them, in the number of executions and of choices; each choice is below its number of options or the only
-- one; the flags say what the executions show; if the request is to enumerate, the answer is complete exactly
-- when it is not truncated; and if it is to replay, the answer is one execution, not truncated.
pub validate_response-IsConsistent :
    (decode : String → Option Json) (float_is : Bool → ℕ → ℤ → Bool) (response : Json)
    (request : Fields) (a : Accepted)
    → validate_response decode float_is response request ≡ ok a
    → IsConsistent response request a
unfolding mode_text
validate_response-IsConsistent decode float_is response request a h =
    let (answer, is_object, p) = validate_response-Passed decode float_is response request a h in
    let (counted, few, traces, cut) = p.read in
    let limits_are = limits-IsLimits request p.limits_of p.limits_are in
    let (saw, capped) = check_flags-agree decode float_is a.flags a.executions tt p.flags_agree in
    let (enumerated, replayed) =
      check_mode-agrees decode float_is p.limits_of.mode request a.flags a.executions tt
        p.mode_agrees in
    record {
      limits_of = p.limits_of;
      limits_are = limits_are;
      answer = answer;
      is_object = is_object;
      echoed = all_echoed answer request p.echoed;
      runs = counted;
      few = few;
      traces = traces;
      truncated = cut;
      prefix_cap_reached = capped;
      saw_no_result = saw;
      enumerated =
          λ m. enumerated (mode_text-mode p.limits_of.mode enumerate (sym limits_are.mode ∙ m));
      replayed = λ m. replayed (mode_text-mode p.limits_of.mode replay (sym limits_are.mode ∙ m));
    }

-- In an accepted answer to a request to enumerate that calls itself complete, the cap on nodes was not
-- reached and every execution has its whole trace.
pub validate_response_complete :
    (decode : String → Option Json) (float_is : Bool → ℕ → ℤ → Bool) (response : Json)
    (request : Fields) (a : Accepted)
    → validate_response decode float_is response request ≡ ok a
    → get "mode" request ≡ some (str "enumerate")
    → a.flags.exploration_complete ≡ true
    → (a.flags.node_cap_reached ≡ false) × All (λ e. e.choice_count ≡ length e.steps) a.executions
validate_response_complete decode float_is response request a h m complete =
    let c = validate_response-IsConsistent decode float_is response request a h in
    let whole = c.enumerated m in
    (
      ground (arith, c.truncated),
      all_whole c.limits_of a.executions c.traces
          (ground (arith, c.truncated, c.prefix_cap_reached)),
    )
  where
    all_whole :
        (l : Limits) (es : List Execution)
        → All (IsTrace l) es
        → any (λ e. not e.trace_complete) es ≡ false
        → All (λ e. e.choice_count ≡ length e.steps) es
    all_whole l [] ts h = tt
    all_whole l (e ∷ es) (t, ts) h = (ground (arith, t.complete), all_whole l es ts (ground arith))

-- The choices of an accepted answer, of all executions together, are at most 2000 times 4096.
pub validate_response-steps_bound :
    (decode : String → Option Json) (float_is : Bool → ℕ → ℤ → Bool) (response : Json)
    (request : Fields) (a : Accepted)
    → validate_response decode float_is response request ≡ ok a
    → sum_of (λ e. length e.steps) a.executions ≤ 2000 * 4096
validate_response-steps_bound decode float_is response request a h =
    let c = validate_response-IsConsistent decode float_is response request a h in
    let (_, nodes, prefixes) = c.limits_are.bounds in
    let few : length a.executions ≤ 2000 = omega (arith, c.few) in
    omega (
      arith,
      total a.executions
          (All-implies (λ e t. shorter c.limits_of e t prefixes) a.executions c.traces),
      few,
    )
  where
    shorter :
        (l : Limits) (e : Execution) → IsTrace l e → l.prefix_cap ≤ 4096 → length e.steps ≤ 4096
    shorter l e t p = omega (arith, t.short)

    total :
        (es : List Execution)
        → All (λ e. length e.steps ≤ 4096) es
        → sum_of (λ e. length e.steps) es ≤ length es * 4096
    total [] ps = omega arith
    total (e ∷ es) (p, ps) = omega (arith, total es ps)
