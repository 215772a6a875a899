-- ===== src/Tests/Comparison.antt =====
-- A comparison of scripts/diff-report.py at concrete files: one function with a match and a pinned
-- exclusion.
use air2lean.Base.{
  ℕ, ◌≡◌, refl, ◌↔◌, String, Option, none, some, Bool, true, false, List, [], ◌∷◌, str_eq, ◌==◌,
  if◌then◌else◌, All,
}
use air2lean.Base.Int.{pos}
use air2lean.Base.Result.{Result, ok, err}
use air2lean.Json.{get, Json, Fields, null, int, str, obj, end, field}
use air2lean.Accounting as Accounting
use air2lean.Accounting.Summary.{row_of}
use air2lean.Diff.{Failure, invalid}
use air2lean.Diff.Exploration.{unexplored}
use air2lean.Diff.Exploration.Scopes.{explore}
use air2lean.Diff.Config.{Pins, Pin, pins}
use air2lean.Diff.Config.Sound.{IsSound, pins-IsSound}
use air2lean.Diff.Run.{State}
use air2lean.Diff.Run.Functions.{Function, Config, compare_function}
use air2lean.Diff.Run.Selection.{Directory}
use air2lean.Diff.Run.Summary.{Call, Example, Loaded, Outcome, outcome, started, compare_summary}
use air2lean.Diff.Run.Report.{is_failing, compare_summary-exit_iff}
use air2lean.Diff.Run.Written.{written}
use air2lean.Diff.Run.Written.Accepted.{Reads, compare_summary-Reads}
use air2lean.Diff.Run.Explored.{events, compare_summary-explores}
use air2lean.Diff.Driver.{eligible}
use air2lean.Diff.Driver.Eligible.{Detected, eligible-Detected}
use air2lean.Diff.Run.Pins.{Pinnings, compare_function-Pinnings}

abbrev is_space : ℕ → Bool
is_space c = c == b' '

abbrev first_digest : String
first_digest = "bbbbbbbbbbbbbbbbbbbbbbbbbbbbbbbbbbbbbbbbbbbbbbbbbbbbbbbbbbbbbbbb"

abbrev second_digest : String
second_digest = "aaaaaaaaaaaaaaaaaaaaaaaaaaaaaaaaaaaaaaaaaaaaaaaaaaaaaaaaaaaaaaaa"

abbrev digest : String → String
digest s = if str_eq s "2" then second_digest else first_digest

abbrev returned_three : Json
returned_three = obj (field "ok" (int (pos 3)) end)

abbrev unspecified_line : Json
unspecified_line = obj (field "fail" (str "Zig.Error.unspecified") end)

abbrev observed : String → Json → Json
observed kind line =
    obj (field "schema" (int (pos 1)) (field "kind" (str kind) (field "legacy" line end)))

abbrev json : String → Option Json
json s =
    if str_eq s "three"
    then some returned_three
    else if str_eq s "lost"
    then some unspecified_line
    else if str_eq s "value"
    then some (observed "value" returned_three)
    else if str_eq s "unspecified"
    then some (observed "unspecified" unspecified_line)
    else some null

abbrev pin_lines : List String
pin_lines =
    "# reviewed"
    ∷ "add aaaaaaaaaaaaaaaaaaaaaaaaaaaaaaaaaaaaaaaaaaaaaaaaaaaaaaaaaaaaaaaa 1-2 reads memory" ∷ []

abbrev add_function : Function
add_function = record {
  name = "add";
  inputs = "1" ∷ "2" ∷ [];
  native_lines = "three" ∷ "three" ∷ [];
  model_lines = "three" ∷ "lost" ∷ [];
  native_metas = "value" ∷ "value" ∷ [];
  model_metas = "value" ∷ "unspecified" ∷ [];
}

abbrev files : String → Example
files name = record {
  functions = some (add_function ∷ []);
  host_file = none;
  own_unspecified = none;
  shared_unspecified = some pin_lines;
  own_capped = none;
  shared_capped = none;
}

abbrev call : Call
call = record {
  examples = "arith" ∷ [];
  version = "0.15.1";
  host = "Linux-x86_64";
  build = none;
  fresh_seed = none;
}

abbrev directories : List Directory
directories =
    record { name = "arith"; versions = none; functions = "add" ∷ [] }
    ∷ record { name = "asm"; versions = some ("0.14" ∷ []); functions = "cpu" ∷ "id" ∷ [] }
    ∷ []

abbrev result : Result Failure Outcome
result = compare_summary is_space json digest [] call directories files []

abbrev empty_run : Outcome
unfolding outcome
empty_run = outcome call [] (started unexplored)

abbrev outcome_of : Result Failure Outcome → Outcome
outcome_of (ok o) = o
outcome_of (err e) = empty_run

abbrev ran : Outcome
ran = outcome_of result

run_returns :
    (result ≡ ok ran)
    × (ran.exit_code ≡ 0)
    × (ran.summary.case_count ≡ 2)
    × (ran.summary.exact_matches ≡ 1)
    × (ran.summary.skipped_functions ≡ 2)
unfolding air2lean.Base.Text.is_hex air2lean.Base.Text.is_ident air2lean.Base.Text.decimal
    air2lean.Json.get air2lean.Json.has air2lean.Json.keys_among air2lean.Diff.matches
    air2lean.Diff.Wire.wire_equal air2lean.Diff.Wire.normalized air2lean.Diff.Kinds.allowed
    air2lean.Diff.Kinds.fits air2lean.Diff.Classify.capped_search
    air2lean.Diff.Classify.values_match_of air2lean.Diff.Classify.differing
    air2lean.Diff.Classify.classify_observed air2lean.Diff.Classify.model_bucket
    air2lean.Diff.Classify.legacy_bucket_of air2lean.Diff.Config.split_all
    air2lean.Diff.Config.config_rows air2lean.Diff.Run.Summary.outcome
    air2lean.Diff.Run.Summary.compare_summary air2lean.Json.fields_equal
run_returns = (refl, refl, refl, refl, refl)

compare_summary-exit_iff_example :
    (ran.exit_code ≡ 0)
    ↔ (All (λ r. is_failing r ≡ false) ran.rows × (ran.summary.pin_violations ≡ []))
compare_summary-exit_iff_example =
    compare_summary-exit_iff is_space json digest [] call directories files [] ran run_returns.0

compare_summary-Reads_example :
    (row : Accounting.Row) × (row_of "digest" (written (λ e. null) end ran.summary) ≡ ok row)
    × Reads call ran row
compare_summary-Reads_example =
    compare_summary-Reads is_space json digest [] call directories files [] ran (λ e. null) end
      "digest" run_returns.0 refl refl

compare_summary-explores_example : ran.summary.exploration ≡ explore (events [] ran.rows) unexplored
compare_summary-explores_example =
    compare_summary-explores is_space json digest [] call directories files [] ran run_returns.0

abbrev pins_of : Result Failure Pins → Pins
pins_of (ok d) = d
pins_of (err e) = []

abbrev read : Pins
read = pins_of (pins is_space (some pin_lines))

pins-IsSound_example : IsSound read
unfolding pins air2lean.Diff.Config.config_rows air2lean.Diff.Config.split_words
    air2lean.Base.Text.is_ident air2lean.Base.Text.is_hex air2lean.Base.Text.decimal
pins-IsSound_example = pins-IsSound is_space (some pin_lines) read refl

abbrev config : Config
config = record {
  allowed_host = [];
  unspecified_pins = read;
  capped_pins = [];
  exclude_ub = false;
  is_fresh = false;
}

abbrev state_of : Result Failure State → State
state_of (ok s) = s
state_of (err e) = started unexplored

abbrev after : State
after = state_of (compare_function json digest [] config "arith" add_function (started unexplored))

compare_function-Pinnings_example : Pinnings config "add" (started unexplored) after
unfolding compare_function air2lean.Base.Text.is_ident air2lean.Json.has air2lean.Json.get
    air2lean.Json.keys_among air2lean.Diff.Wire.wire_equal air2lean.Json.json_equal
    air2lean.Diff.Kinds.allowed air2lean.Diff.Kinds.fits air2lean.Diff.Classify.capped_search
    air2lean.Diff.Classify.legacy_bucket_of air2lean.Diff.Classify.values_match_of
    air2lean.Diff.Classify.model_bucket air2lean.Diff.Wire.normalized
compare_function-Pinnings_example =
    compare_function-Pinnings json digest [] config "arith" add_function (started unexplored) after
      refl refl

eligible-Detected_example : Detected ran (eligible (obj (written (λ e. null) end ran.summary)))
eligible-Detected_example =
    eligible-Detected is_space json digest [] call directories files [] ran (λ e. null) end
      run_returns.0

-- The seed of fresh inputs is written as it was given.
seed_written :
    get "fresh_input_seed"
      (written (λ e. null) end (record ran.summary { fresh_input_seed = some "0x5eed" }))
    ≡ some (str "0x5eed")
unfolding written get
seed_written = refl
