-- ===== src/Schedules/Prepare.antt =====
-- `row`, `current_input`, `bound_context` and `prepare` of scripts/schedules.py: the request to
-- enumerate, and the replay request of the witness of a differential case. Files are their lines;
-- SHA-256, `json.loads`, `str.isspace`, and when a float is an integer, are arguments. A KeyError or
-- TypeError counts as invalid.
pub mod Current
pub mod Replays
use air2lean.Base.{
  ℕ, zero, suc, ◌+◌, ◌-◌, String, Option, none, some, Bool, true, false, ◌&&◌, ◌||◌, not, List, [],
  ◌∷◌, str_eq, ◌==◌, ltb, leb, if◌then◌else◌, length,
}
use air2lean.Base.Int.{ℤ, pos}
use air2lean.Base.Result.{Result, ok, err, ◌>>=◌, ◌>>◌, refuse_if}
use air2lean.Base.Text.{is_ident}
use air2lean.Json.{
  Json, Items, Fields, bool, int, str, arr, obj, nil, cons, end, field, get, listed, json_equal,
}
use air2lean.Diff.{Failure, invalid, max_cases}
use air2lean.Diff.Config.{left_stripped, right_stripped}
use air2lean.Schedules.Equality.{py_equal}
use air2lean.Schedules.Validate.{Accepted, validate_response}
use air2lean.Schedules.Request.{nat, or_null, is_plain}
use air2lean.Schedules.Prepare.Current.{
  line_at, row, is_value, holds_true, bound_context, Target, decoded_line, current_input,
  prepare_enumerate,
}

-- What the scan of the rows of a report has found.
pub record Scan : Type 0 where
  pub matches : List Fields
  pub skipped : List String
  pub cases : ℕ

unfoldable pub skip : List String → ℕ → Option Json → Scan → Result Failure Scan
skip available limit (some (str name)) s = do
  refuse_if (not (listed name available) || listed name s.skipped) invalid
  refuse_if (ltb limit (length s.skipped + 1)) invalid
  ok (record s { skipped = name ∷ s.skipped })
skip available limit _ s = err invalid

-- The row is of the case that the command names.
unfoldable pub is_target : (Bool → ℕ → ℤ → Bool) → Target → Fields → Bool
unfolding is_value
is_target float_is t case =
    is_value t.example (get "example" case)
    && is_value t.function (get "function" case)
    && py_equal float_is (or_null (get "input_index" case)) t.index

unfoldable pub scan_row :
    (Bool → ℕ → ℤ → Bool) → Target → List String → ℕ → Json → Scan → Result Failure Scan
unfolding is_value is_target skip
scan_row float_is t available limit (obj case) s =
    if is_value "skipped" (get "status" case)
    then skip available limit (get "example" case) s
    else (do
      refuse_if (ltb max_cases (s.cases + 1)) invalid
      let found = if is_target float_is t case then case ∷ s.matches else s.matches
      refuse_if (ltb 1 (length found)) invalid
      ok (record s { matches = found; cases = s.cases + 1 }))
scan_row float_is t available limit _ s = err invalid

unfoldable pub item_count : Items → ℕ
item_count nil = 0
item_count (cons x xs) = suc (item_count xs)

-- `sparse + [0] * n`
unfoldable pub zeros : ℕ → Items
zeros zero = nil
zeros (suc n) = cons (int (pos 0)) (zeros n)

unfoldable pub padded : Items → ℕ → Items
unfolding zeros
padded nil n = zeros n
padded (cons x xs) n = cons x (padded xs n)

-- `len(matches) != 1`
unfoldable pub only : List Fields → Result Failure Fields
only (case ∷ []) = ok case
only _ = err invalid

unfoldable pub items_of : Option Json → Result Failure Items
items_of (some (arr xs)) = ok xs
items_of _ = err invalid

unfoldable pub witness_of : Option Json → Result Failure Fields
unfolding is_value
witness_of (some (obj search)) = do
  refuse_if (not (is_value "witness" (get "status" search))) invalid
  ok search
witness_of _ = err invalid

unfoldable pub required : Option Json → Result Failure Json
required none = err invalid
required (some v) = ok v

-- The replay request of a witness.
unfoldable pub witness_request : Target → Json → ℕ → Items → Items → String → Json → Fields
unfolding padded item_count
witness_request t input fuel sparse options line kind = field "schema" (int (pos 1)) (
    field "mode" (str "replay") (
      field "example" (str t.example) (
        field "function" (str t.function) (
          field "input" input (
            field "fuel" (int (pos fuel)) (
              field "node_cap" (int (pos 1)) (
                field "prefix_cap" (int (pos 4096)) (
                  field "prefix" (arr (padded sparse (item_count options - item_count sparse))) (
                    field "expected"
                      (obj (
                        field "line" (str line)
                          (field "kind" kind (field "options" (arr options) end))))
                      end)))))))))

module _ (is_space : ℕ → Bool) (float_is : Bool → ℕ → ℤ → Bool) (decode : String → Option Json)
    (sha256 : String → String) where
  unfoldable pub scan_rows : Target → List String → ℕ → List String → Scan → Result Failure Scan
  unfolding scan_row decoded_line
  scan_rows t available limit [] s = ok s
  scan_rows t available limit (line ∷ lines) s = do
    v ← decoded_line decode sha256 line
    next ← scan_row float_is t available limit v s
    scan_rows t available limit lines next

  -- The request of the case that was found.
  unfoldable pub prepare_witness :
      Target → List String → Json × String → Fields → Result Failure Fields
  unfolding witness_of items_of row nat required witness_request is_value left_stripped
      right_stripped
  prepare_witness t model_lines input case = do
    search ← witness_of (get "schedule" case)
    options ← items_of (get "options" search)
    sparse ← items_of (get "prefix" search)
    refuse_if (ltb 4096 (item_count options) || ltb (item_count options) (item_count sparse))
        invalid
    model ← row model_lines (some t.index)
    refuse_if
        (not (is_value input.1 (get "input_sha256" case))
          || not (is_value (sha256 model) (get "model_sha256" case)))
        invalid
    fuel ← nat 100000 (get "fuel" search)
    kind ← required (get "model_kind" case)
    ok (
        witness_request t input.0 fuel sparse options
          (right_stripped is_space (left_stripped is_space model)) kind)

  -- `prepare` from a differential summary and the rows of its report.
  unfoldable pub prepare_summary :
      Target → Json → Json → List String → List String → List String → Result Failure Fields
  unfolding bound_context current_input nat scan_rows only prepare_witness
  prepare_summary t sources decoded available report model_lines = do
    summary ← bound_context sources decoded
    refuse_if (not (holds_true (get "complete" summary))) invalid
    input ← current_input decode sha256 t
    limit ← nat (length available) (get "skipped_examples" summary)
    expected ← nat max_cases (get "case_count" summary)
    found ← scan_rows t available limit report (record { matches = []; skipped = []; cases = 0 })
    refuse_if (not (found.cases == expected) || not (length found.skipped == limit)) invalid
    case ← only found.matches
    prepare_witness t model_lines input case

unfoldable required_text : Option Json → Result Failure String
required_text (some (str s)) = ok s
required_text _ = err invalid

unfoldable fields_of : Option Json → Result Failure Fields
fields_of (some (obj fs)) = ok fs
fields_of _ = err invalid

abbrev may_select : Option (List String) → String → Bool
may_select none example = true
may_select (some examples) example = listed example examples

-- A receipt that was accepted: its request and what the checks of its answer establish.
pub record LoadedReceipt : Type 0 where
  pub request : Fields
  pub accepted : Accepted

module _ (float_is : Bool → ℕ → ℤ → Bool) (decode : String → Option Json)
    (sha256 : String → String) where
  -- `load_receipt` of a decoded receipt; `examples` restricts it where it is given.
  unfoldable pub load_receipt :
      Json
      → Option (List String)
      → (String → String → List String)
      → Json
      → Result Failure LoadedReceipt
  unfolding bound_context fields_of required_text validate_response current_input is_value listed
  load_receipt sources examples inputs decoded = do
    receipt ← bound_context sources decoded
    request ← fields_of (get "request" receipt)
    example ← required_text (get "example" request)
    refuse_if (not (may_select examples example)) invalid
    accepted ← validate_response decode float_is (or_null (get "result" receipt)) request
    function ← required_text (get "function" request)
    input ← current_input decode sha256 (record {
      example = example;
      function = function;
      index = or_null (get "input_index" receipt);
      inputs = inputs example function;
    })
    refuse_if
        (not (is_value input.1 (get "input_sha256" receipt))
          || not (json_equal input.0 (or_null (get "input" request))))
        invalid
    ok (record { request = request; accepted = accepted })
