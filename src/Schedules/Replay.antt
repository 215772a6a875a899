-- ===== src/Schedules/Replay.antt =====
-- The replay request that `prepare` of scripts/schedules.py makes of one execution of an accepted
-- enumeration. Reading the receipt and its digests are not modelled.
pub mod Holds
pub mod Repeats
use air2lean.Base.{
  ℕ, zero, suc, String, Option, none, some, Bool, true, false, not, List, [], ◌∷◌, map, str_eq,
  if◌then◌else◌,
}
use air2lean.Base.Int.{pos}
use air2lean.Base.Result.{Result, ok, err, ◌>>=◌, ◌>>◌, refuse_if}
use air2lean.Json.{Json, Fields, int, str, arr, obj, end, field, get}
use air2lean.Diff.{Failure, invalid}
use air2lean.Schedules.Prepare.Current.{is_value}
use air2lean.Schedules.Request.{nat, or_null, number_items}
use air2lean.Schedules.{Execution}
use air2lean.Schedules.Validate.{Accepted}

-- `dict(fs, k=v)`: an existing key keeps its place.
unfoldable pub put : String → Json → Fields → Fields
put k v end = field k v end
put k v (field j w fs) =
    let rest = put k v fs in if str_eq j k then field j v fs else field j w rest

unfoldable pub expected : Execution → Fields
unfolding number_items
expected e = field "line" (str e.line) (
    field "kind" (or_null (get "kind" e.observation))
      (field "options" (arr (number_items (map (λ s. s.1) e.steps))) end))

unfoldable pub replay_request : Fields → Execution → Fields
unfolding put expected number_items
replay_request original e = put "expected" (obj (expected e)) (
    put "prefix" (arr (number_items (map (λ s. s.0) e.steps)))
      (put "node_cap" (int (pos 1)) (put "mode" (str "replay") original)))

-- `executions[i]`
unfoldable pub nth : ℕ → List Execution → Result Failure Execution
nth i [] = err invalid
nth zero (e ∷ es) = ok e
nth (suc i) (e ∷ es) = nth i es

-- `prepare` from a receipt whose answer was accepted.
unfoldable pub prepare_replay : Fields → Accepted → Option Json → Result Failure Fields
unfolding is_value nat nth replay_request
prepare_replay original accepted index = do
  refuse_if (not (is_value "enumerate" (get "mode" original))) invalid
  i ← nat 1999 index
  e ← nth i accepted.executions
  refuse_if (not e.trace_complete) invalid
  ok (replay_request original e)
