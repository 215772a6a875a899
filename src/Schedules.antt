-- ===== src/Schedules.antt =====
-- `validate_response` of scripts/schedules.py, which checks the answer of the schedule explorer, and the
-- replay request that `prepare` makes of a receipt. A KeyError counts as invalid. Processes, files and
-- digests are not modelled. The arguments: `decode` of a text, and when a float is an integer.
pub mod Equality
pub mod Request
pub mod Validate
pub mod Replay
pub mod Prepare
use air2lean.Base.{
  ℕ, ◌*◌, ◌-◌, ◌^◌, String, Option, none, some, Bool, true, false, ◌&&◌, ◌||◌, not, List, [], ◌∷◌,
  ◌++◌, map, str_eq, same, ◌==◌, if◌then◌else◌, leb, ltb, length, any,
}
use air2lean.Base.Int.{ℤ, pos, int_eq}
use air2lean.Base.Result.{Result, ok, err, ◌>>=◌, ◌>>◌, refuse_if}
use air2lean.Json.{
  Json, Items, Fields, null, bool, int, float, str, arr, obj, nil, cons, end, field, get,
  json_equal, natural_of,
}
use air2lean.Diff.{Kind, kind_eq, Search, Failure, invalid}
use air2lean.Diff.Wire.{diverge, wire}
use air2lean.Diff.Kinds.{model}
use air2lean.Diff.Observe.{observation}
use air2lean.Schedules.Equality.{py_equal}
use air2lean.Schedules.Request.{
  Mode, enumerate, replay, Limits, limits, nat, or_null, echoes, is_plain, number_items,
}

pub record Execution : Type 0 where
  -- the choices of `prefix`, each with the number of its options
  pub steps : List (ℕ × ℕ)
  pub choice_count : ℕ
  pub trace_complete : Bool
  pub observation : Fields
  pub line : String
  pub kind : Kind

pub record Flags : Type 0 where
  pub truncated : Bool
  pub node_cap_reached : Bool
  pub prefix_cap_reached : Bool
  pub exploration_complete : Bool
  pub saw_no_result : Bool

unfoldable pub flag : Option Json → Result Failure Bool
flag (some (bool b)) = ok b
flag _ = err invalid

unfoldable pub flags : Fields → Result Failure Flags
unfolding flag
flags fs = do
  truncated ← flag (get "truncated" fs)
  node_cap_reached ← flag (get "node_cap_reached" fs)
  prefix_cap_reached ← flag (get "prefix_cap_reached" fs)
  exploration_complete ← flag (get "exploration_complete" fs)
  saw_no_result ← flag (get "saw_no_result" fs)
  ok (record {
    truncated = truncated;
    node_cap_reached = node_cap_reached;
    prefix_cap_reached = prefix_cap_reached;
    exploration_complete = exploration_complete;
    saw_no_result = saw_no_result;
  })

-- One choice: a choice point without options is one with one option.
unfoldable pub step : Json → Json → Result Failure (ℕ × ℕ)
unfolding nat
step choice count = do
  i ← nat (2 ^ 64 - 1) (some choice)
  n ← nat (2 ^ 64 - 1) (some count)
  refuse_if (leb n i && leb 1 i) invalid
  ok (i, n)

-- `zip(prefix, options)`, of lists of one length
unfoldable pub steps_of : Items → Items → Result Failure (List (ℕ × ℕ))
unfolding step
steps_of nil nil = ok []
steps_of (cons choice choices) (cons count counts) = do
  s ← step choice count
  rest ← steps_of choices counts
  ok (s ∷ rest)
steps_of _ _ = err invalid

unfoldable pub trace : ℕ → Option Json → Option Json → Result Failure (List (ℕ × ℕ))
unfolding steps_of
trace prefix_cap (some (arr choices)) (some (arr counts)) = do
  steps ← steps_of choices counts
  refuse_if (ltb prefix_cap (length steps)) invalid
  ok steps
trace _ _ _ = err invalid

module _ (decode : String → Option Json) where
  -- `REPORT.observation(json.dumps(observation), REPORT.decode(observation['legacy_line']), 'model')`
  unfoldable pub observed_kind : Fields → String → Result Failure Kind
  observed_kind fs line = elim (decode line) [
    | none ↦ err invalid
    | some v ↦ elim (wire v) [
      | ok w ↦ observation decode (obj fs) w model >>= λ found. ok found.0
      | err e ↦ observation decode (obj fs) diverge model >>= λ _. err invalid
    ]
  ]

  unfoldable pub observed : Option Json → Result Failure (Fields × String × Kind)
  unfolding observed_kind
  observed (some (obj fs)) = elim (get "legacy_line" fs) [
    | some (str line) ↦ observed_kind fs line >>= λ kind. ok (fs, line, kind)
    | _ ↦ err invalid
  ]
  observed _ = err invalid

  unfoldable pub execution : Limits → Json → Result Failure Execution
  unfolding trace nat flag observed
  execution l (obj fs) = do
    steps ← trace l.prefix_cap (get "prefix" fs) (get "options" fs)
    count ← nat (2 * l.fuel) (get "choice_count" fs)
    complete ← flag (get "trace_complete" fs)
    refuse_if (ltb count (length steps) || not (same complete (count == length steps))) invalid
    found ← observed (get "observation" fs)
    ok (record {
      steps = steps;
      choice_count = count;
      trace_complete = complete;
      observation = found.0;
      line = found.1;
      kind = found.2;
    })
  execution l _ = err invalid

  unfoldable pub executions : Limits → Items → Result Failure (List Execution)
  unfolding execution
  executions l nil = ok []
  executions l (cons x xs) = do e ← execution l x; es ← executions l xs; ok (e ∷ es)
