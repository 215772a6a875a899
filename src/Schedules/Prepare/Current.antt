-- ===== src/Schedules/Prepare/Current.antt =====
-- `row`, `current_input`, `bound_context` of scripts/schedules.py, and the request of `prepare` to
-- enumerate.
use air2lean.Base.{
  ℕ, zero, suc, String, Option, none, some, Bool, false, ◌||◌, not, List, [], ◌∷◌, str_eq, ◌==◌,
}
use air2lean.Base.Int.{pos}
use air2lean.Base.Result.{Result, ok, err, ◌>>=◌, ◌>>◌, refuse_if}
use air2lean.Base.Text.{is_ident}
use air2lean.Json.{Json, Fields, bool, int, str, obj, end, field, get, json_equal}
use air2lean.Diff.{Failure, invalid, max_cases}
use air2lean.Schedules.Request.{nat, or_null, is_plain}

-- The line of an index, which counts from 1.
unfoldable pub line_at : ℕ → List String → Result Failure String
line_at i [] = err invalid
line_at zero (line ∷ lines) = err invalid
line_at (suc zero) (line ∷ lines) = ok line
line_at (suc (suc i)) (line ∷ lines) = line_at (suc i) lines

unfoldable pub row : List String → Option Json → Result Failure String
unfolding nat line_at
row lines index = do n ← nat max_cases index; refuse_if (n == 0) invalid; line_at n lines

unfoldable pub is_value : String → Option Json → Bool
is_value s (some (str t)) = str_eq t s
is_value s _ = false

abbrev pub holds_true : Option Json → Bool
holds_true (some (bool b)) = b
holds_true _ = false

unfoldable pub bound_context : Json → Json → Result Failure Fields
unfolding is_plain
bound_context sources (obj receipt) = do
  refuse_if (not (is_plain receipt)) invalid
  refuse_if (not (json_equal (or_null (get "runner_runtime_sources" receipt)) sources)) invalid
  ok receipt
bound_context sources _ = err invalid

-- The case that a command names.
pub record Target : Type 0 where
  pub example : String
  pub function : String
  pub index : Json
  pub inputs : List String

module _ (decode : String → Option Json) (sha256 : String → String) where
  unfoldable pub decoded_line : String → Result Failure Json
  decoded_line line = elim (decode line) [ none ↦ err invalid | some v ↦ ok v ]

  unfoldable pub current_input : Target → Result Failure (Json × String)
  unfolding row decoded_line
  current_input t = do
    refuse_if (not (is_ident t.example) || not (is_ident t.function)) invalid
    raw ← row t.inputs (some t.index)
    v ← decoded_line raw
    ok (v, sha256 raw)

  -- The request of the command `enumerate`.
  unfoldable pub prepare_enumerate :
      Target → Option Json → Option Json → Option Json → Result Failure Fields
  unfolding current_input nat
  prepare_enumerate t fuel node_cap prefix_cap = do
    input ← current_input t
    fuel ← nat 100000 fuel
    node_cap ← nat 2000 node_cap
    prefix_cap ← nat 4096 prefix_cap
    ok (
        field "schema" (int (pos 1)) (
          field "mode" (str "enumerate") (
            field "example" (str t.example) (
              field "function" (str t.function) (
                field "input" input.0 (
                  field "fuel" (int (pos fuel)) (
                    field "node_cap" (int (pos node_cap))
                      (field "prefix_cap" (int (pos prefix_cap)) end))))))))
