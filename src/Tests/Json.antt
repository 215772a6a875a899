-- ===== src/Tests/Json.antt =====
-- The JSON values of scripts/diff-report.py at concrete inputs.
use air2lean.Base.{◌≡◌, refl, true, false}
use air2lean.Base.Int.{pos}
use air2lean.Json.{Json, nil, cons, null, int, str, arr, obj, end, field, decoded, json_equal}

abbrev nested : Json
nested = obj (field "ok" (arr (cons (int (pos 3)) (cons null nil))) (field "live" (str "0") end))

nested_equal : json_equal nested nested ≡ true
unfolding json_equal air2lean.Json.keys_within air2lean.Json.has air2lean.Json.get
nested_equal = refl

twice_live : decoded (obj (field "live" null (field "live" (str "0") end))) ≡ false
unfolding decoded air2lean.Json.no_duplicates air2lean.Json.has
twice_live = refl
