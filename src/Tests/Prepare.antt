-- ===== src/Tests/Prepare.antt =====
-- The replay request of a differential case of scripts/schedules.py at concrete files.
use air2lean.Base.{
  ℕ, ◌≡◌, refl, String, Option, some, Bool, true, false, [], ◌∷◌, ◌==◌, str_eq, if◌then◌else◌,
}
use air2lean.Base.Int.{ℤ, pos}
use air2lean.Base.Result.{Result, ok, err}
use air2lean.Json.{Json, Fields, null, bool, int, str, arr, obj, nil, cons, end, field}
use air2lean.Diff.{Failure}
use air2lean.Schedules.Prepare.Current.{Target}
use air2lean.Schedules.Prepare.{prepare_summary}
use air2lean.Schedules.Prepare.Replays.{Replays, prepare_summary-Replays}

abbrev is_space : ℕ → Bool
is_space c = c == b' '

abbrev never : Bool → ℕ → ℤ → Bool
never s n i = false

abbrev natural : ℕ → Json
natural n = int (pos n)

abbrev witness : Json
witness = obj (
    field "status" (str "witness") (
      field "options" (arr (cons (natural 2) (cons (natural 3) nil)))
        (field "prefix" (arr (cons (natural 1) nil)) (field "fuel" (natural 9) end))))

abbrev case : Json
case = obj (
    field "example" (str "atomics") (
      field "function" (str "load") (
        field "input_index" (natural 2) (
          field "status" (str "value_match") (
            field "input_sha256" (str "second") (
              field "model_sha256" (str " two")
                (field "model_kind" (str "value") (field "schedule" witness end))))))))

abbrev json : String → Option Json
json s = if str_eq s "case" then some case else some (natural 4)

abbrev summary : Json
summary = obj (
    field "schema" (natural 1) (
      field "qualified" (bool false) (
        field "complete" (bool true)
          (field "skipped_examples" (natural 0) (field "case_count" (natural 1) end)))))

abbrev target : Target
target = record {
  example = "atomics";
  function = "load";
  index = natural 2;
  inputs = "first" ∷ "second" ∷ [];
}

abbrev prepared : Result Failure Fields
prepared =
    prepare_summary is_space never json (λ s. s) target null summary ("atomics" ∷ []) ("case" ∷ [])
      ("one" ∷ " two" ∷ [])

abbrev request_of : Result Failure Fields → Fields
request_of (ok fs) = fs
request_of (err e) = end

prepare_summary-Replays_example : Replays (request_of prepared)
unfolding prepare_summary air2lean.Json.get air2lean.Json.json_equal air2lean.Base.Text.is_ident
    air2lean.Json.natural_of air2lean.Schedules.Equality.py_equal
prepare_summary-Replays_example =
    prepare_summary-Replays is_space never json (λ s. s) target null summary ("atomics" ∷ [])
      ("case" ∷ []) ("one" ∷ " two" ∷ []) (request_of prepared) refl
