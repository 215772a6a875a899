-- ===== src/Tests/Fingerprints.antt =====
-- A comparison of two indices, and the theorems at it.
use air2lean.Base.{
  ◌≤◌, ◌<◌, length, ℕ, String, if◌then◌else◌, if-both, str_eq, as_count, Option, none, some, Bool,
  true, false, List, [], ◌∷◌, ◌≡◌, refl, ◌↔◌,
}
use air2lean.Base.Result.{ok, err}
use air2lean.Json.{
  Json, Items, Fields, null, str, arr, obj, nil, cons, end, field, json_equal, listed,
}
use air2lean.Closure.{value_of}
use air2lean.Fingerprints.{Entry, Document, renamed, part, compare}
use air2lean.Diff.Config.{has_key}
use air2lean.Fingerprints.Calls.{
  call_edges, call_components, call_components_once, call_components-together_iff,
  call_components_callees_first,
}
use air2lean.Fingerprints.Components.Step.{placed}
use air2lean.Fingerprints.Components.Reach.{Reaches, together, rank}
use air2lean.Fingerprints.Compare.{IsChange, compare_iff}
use air2lean.Fingerprints.Sidecar.{duplicate_function, function_records}

abbrev entry_of : String → String → Entry
entry_of definition fingerprint = record {
  definition = str definition;
  proof_api = null;
  fingerprint = fingerprint;
}

abbrev document : List (String × Entry) → Document
document entries = record {
  namespace = str "M";
  translator = "t";
  runtime = "r";
  entries = entries;
}

abbrev old_index : Document
old_index =
    document (("a", entry_of "f" "1") ∷ ("b", entry_of "g" "2") ∷ ("c", entry_of "h" "3") ∷ [])

abbrev new_index : Document
new_index =
    document (("c", entry_of "h2" "3") ∷ ("a", entry_of "f" "1") ∷ ("d", entry_of "k" "4") ∷ [])

compare_indices : compare json_equal old_index new_index ≡ record {
  unaffected_sources = "a" ∷ [];
  invalidated_sources = [];
  renamed_sources = "c" ∷ [];
  added_sources = "d" ∷ [];
  removed_sources = "b" ∷ [];
  translator_changed = false;
  runtime_changed = false;
}
unfolding compare air2lean.Base.Sort.text_le json_equal
compare_indices = refl

compare_iff_example :
    (listed "c" (part renamed (compare json_equal old_index new_index)) ≡ true)
    ↔ IsChange json_equal old_index new_index renamed
        (value_of "c" old_index.entries)
        (value_of "c" new_index.entries)
compare_iff_example = compare_iff json_equal old_index new_index renamed "c"

abbrev function_of : String → Json
function_of name = obj (
    field "source" (str name) (
      field "air_name" null (
        field "air_file" null (
          field "definition" null (
            field "proof_api" null (
              field "callees" (arr (cons (str "a") nil))
                (field "canonical" null (field "lines" null end))))))))

records_twice :
    function_records [] (cons (function_of "a") (cons (function_of "a") nil))
    ≡ err duplicate_function
unfolding function_records air2lean.Json.keys_among air2lean.Json.has air2lean.Json.get
    air2lean.Json.strings_of
records_twice = refl

two_records :
    function_records [] (cons (function_of "a") (cons (function_of "b") nil))
    ≡ ok (("a", "a" ∷ []) ∷ ("b", "a" ∷ []) ∷ [])
unfolding function_records air2lean.Json.keys_among air2lean.Json.has air2lean.Json.get
    air2lean.Json.strings_of
two_records = refl

-- Two functions that call each other, one that both need, and a callee that has no record.
abbrev functions : List (String × List String)
functions = ("a", "c" ∷ "b" ∷ []) ∷ ("c", "d" ∷ []) ∷ ("b", "a" ∷ "c" ∷ []) ∷ []

abbrev found_order : List (List String)
found_order = ("c" ∷ []) ∷ ("a" ∷ "b" ∷ []) ∷ []

two_components : call_components functions ≡ some found_order
unfolding call_components air2lean.Base.Sort.text_le air2lean.Base.Sort.sorted
two_components = refl

call_components_once_example :
    (order : List (List String)) × (call_components functions ≡ some order)
    × ((x : String) → placed x order ≡ as_count (has_key x functions))
call_components_once_example = call_components_once functions

a_function : has_key "a" functions ≡ true
unfolding has_key
a_function = refl

b_function : has_key "b" functions ≡ true
unfolding has_key
b_function = refl

a_calls_c : listed "c" (call_edges functions "a") ≡ true
unfolding call_edges listed air2lean.Base.Sort.text_le air2lean.Base.Sort.sorted
a_calls_c = refl

call_components-together_iff_example :
    (together "a" "b" found_order ≡ true)
    ↔ (Reaches (call_edges functions) "a" "b" × Reaches (call_edges functions) "b" "a")
call_components-together_iff_example =
    call_components-together_iff functions found_order "a" "b" two_components a_function b_function

call_components_callees_first_example :
    (rank "c" found_order ≤ rank "a" found_order) × (rank "a" found_order < length found_order)
call_components_callees_first_example =
    call_components_callees_first functions found_order "a" "c" two_components a_function a_calls_c
