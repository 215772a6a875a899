-- ===== src/Schedules/Validate.antt =====
-- `validate_response` of scripts/schedules.py: the response as a whole. The source returns nothing of a
-- response that it accepts; here its executions and flags are returned, as the checks read them.
pub mod Traces
pub mod Caps
pub mod Steps
pub mod Consistent
use air2lean.Base.{
  ℕ, suc, ◌*◌, String, Option, none, some, Bool, true, false, ◌&&◌, ◌||◌, not, List, [], ◌∷◌, ◌++◌,
  map, str_eq, same, ◌==◌, if◌then◌else◌, leb, ltb, length, any,
}
use air2lean.Base.Int.{ℤ}
use air2lean.Base.Result.{Result, ok, err, ◌>>=◌, ◌>>◌, refuse_if}
use air2lean.Json.{
  Json, Items, Fields, null, bool, int, str, arr, obj, nil, cons, end, field, get, json_equal,
}
use air2lean.Diff.{Kind, kind_eq, Failure, invalid, attribute_error}
use air2lean.Schedules.Equality.{py_equal}
use air2lean.Schedules.Request.{
  Mode, enumerate, replay, Limits, limits, nat, or_null, echoes, is_plain, number_items,
}
use air2lean.Schedules.{Execution, Flags, flags, executions}

pub record Accepted : Type 0 where
  pub executions : List Execution
  pub flags : Flags

module _ (decode : String → Option Json) (float_is : Bool → ℕ → ℤ → Bool) where
  -- The observations, each where it occurs first, after those that were seen.
  unfoldable pub first_seen : List Fields → List Execution → List Fields
  unfolding py_equal
  first_seen seen [] = seen
  first_seen seen (e ∷ es) =
      let known = any (λ o. py_equal float_is (obj o) (obj e.observation)) seen in
      first_seen (if known then seen else seen ++ e.observation ∷ []) es

  unfoldable pub object_items : List Fields → Items
  object_items [] = nil
  object_items (o ∷ os) = cons (obj o) (object_items os)

  -- The agreement of the flags with the executions.
  unfoldable pub check_flags : Flags → List Execution → Result Failure (Unit {0})
  check_flags f es = do
    refuse_if (not (same f.saw_no_result (any (λ e. kind_eq e.kind Kind.bounded_no_result) es)))
        invalid
    refuse_if (not (same (any (λ e. not e.trace_complete) es) f.prefix_cap_reached)) invalid
    ok tt

  -- `actual[key]`
  unfoldable pub actual : Execution → String → Result Failure Json
  actual e key =
      if str_eq key "line"
      then ok (str e.line)
      else if str_eq key "kind"
      then ok (or_null (get "kind" e.observation))
      else if str_eq key "options"
      then ok (arr (number_items (map (λ s. s.1) e.steps)))
      else err invalid

  unfoldable pub as_expected : Fields → Execution → Result Failure (Unit {0})
  unfolding actual
  as_expected end e = ok tt
  as_expected (field key value rest) e = do
    v ← actual e key
    refuse_if (not (json_equal v value)) invalid
    as_expected rest e

  -- `request.get('expected', {})`, which has no `items` where it is not a dict
  unfoldable pub expected_of : Option Json → Result Failure Fields
  expected_of none = ok end
  expected_of (some (obj fs)) = ok fs
  expected_of (some _) = err attribute_error

  unfoldable pub check_replay : Fields → Flags → List Execution → Result Failure (Unit {0})
  unfolding expected_of as_expected
  check_replay request f (e ∷ []) = do
    refuse_if (not e.trace_complete) invalid
    refuse_if
        (not (
          py_equal float_is (arr (number_items (map (λ s. s.0) e.steps)))
            (or_null (get "prefix" request))))
        invalid
    refuse_if f.truncated invalid
    expected ← expected_of (get "expected" request)
    as_expected expected e
  check_replay request f _ = err invalid

  unfoldable pub check_mode : Mode → Fields → Flags → List Execution → Result Failure (Unit {0})
  unfolding check_replay
  check_mode replay request f es = check_replay request f es
  check_mode enumerate request f es =
      refuse_if (not (same f.exploration_complete (not f.truncated))) invalid

  unfoldable pub items_length : Items → ℕ
  items_length nil = 0
  items_length (cons x xs) = suc (items_length xs)

  -- The executions and the flags, as far as they do not depend on one another.
  unfoldable pub read_response : Limits → Fields → Result Failure (List Execution × Flags)
  unfolding executions flags nat items_length
  read_response l fs = elim (get "executions" fs) [
    | some (arr xs) ↦ do
      refuse_if (ltb l.node_cap (items_length xs)) invalid
      runs ← nat 2000 (get "runs" fs)
      refuse_if (not (runs == items_length xs)) invalid
      f ← flags fs
      refuse_if (not (same f.truncated (f.node_cap_reached || f.prefix_cap_reached))) invalid
      es ← executions decode l xs
      ok (es, f)
    | _ ↦ err invalid
  ]

  unfoldable pub check_response :
      Fields → Fields → Limits → List Execution × Flags → Result Failure Accepted
  unfolding first_seen object_items check_flags check_mode
  check_response fs request l (es, f) = do
    refuse_if
        (not (json_equal (or_null (get "outcomes" fs)) (arr (object_items (first_seen [] es)))))
        invalid
    check_flags f es
    check_mode l.mode request f es
    ok (record { executions = es; flags = f })

  unfoldable pub validate_response : Json → Fields → Result Failure Accepted
  unfolding is_plain limits echoes read_response check_response
  validate_response (obj fs) request = do
    refuse_if (not (is_plain fs)) invalid
    l ← limits request
    refuse_if (not (echoes ("mode" ∷ "fuel" ∷ "node_cap" ∷ "prefix_cap" ∷ []) fs request)) invalid
    read ← read_response l fs
    check_response fs request l read
  validate_response _ request = err invalid
