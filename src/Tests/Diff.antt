-- ===== src/Tests/Diff.antt =====
-- The comparison of scripts/diff-report.py at concrete inputs.
use native.Mathlib.Omega.{arith}
use air2lean.Base.{
  ◌≡◌, ◌⊎◌, refl, ◌||◌, ◌^◌, ◌+◌, String, Option, none, some, Bool, true, false, List, [], ◌∷◌,
  if◌then◌else◌,
}
use air2lean.Base.Int.{pos, neg_ℕ}
use air2lean.Json.{Json, null, bool, int, str, arr, obj, end, field, nil, cons}
use air2lean.Diff.{Kind, kind_eq, Status, Policy, policy_get, matches, Search, SearchStatus, capped}
use air2lean.Diff.Wire.{Wire, returned, fail, diverge, same_value}
use air2lean.Diff.Kinds.{Side, fits, allowed}
use air2lean.Diff.Observe.{observation}
use air2lean.Diff.Observe.Consistent.{IsConsistent, observation-IsConsistent}
use air2lean.Diff.Floats.{format_of, decode_bits, libm_ulp}
use air2lean.Diff.Floats.Ulps.{format_of-CountsPattern}
use air2lean.Diff.Host.{host_difference}
use air2lean.Diff.Host.Explained.{DiffersByHost, host_difference-DiffersByHost}
use air2lean.Diff.Classify.{
  Flags, Bucket, agrees, classify, either, capped_search, saw_no_result, legacy_bucket,
}
use air2lean.Diff.Classify.Agreement.{
  EqualReturn, EqualFailure, classify-match, legacy_bucket-match,
}
use air2lean.Diff.Classify.Exclusion.{Licensed, classify-excluded}

abbrev policy : Policy
policy = ("integer overflow", "overflow") ∷ []

abbrev native_panic : Wire
native_panic = fail "integer overflow"

abbrev model_panic : Wire
model_panic = fail "Zig.Error.overflow"

abbrev plain : Flags
plain = record { host = false; exclude_ub = false; pinned = false }

abbrev seven : Wire
seven = returned (int (pos 7)) none none

abbrev eight : Wire
eight = returned (int (pos 8)) none none

model_panic-IsConsistent : IsConsistent Side.model model_panic Kind.model_panic none
unfolding allowed fits
model_panic-IsConsistent = record { by_side = refl; of_form = refl; searched = refl }

classify-match_example :
    (EqualReturn policy native_panic model_panic Kind.native_panic Kind.model_panic none plain
      ⊎ EqualFailure policy native_panic model_panic Kind.native_panic Kind.model_panic none plain)
    × (either Kind.input_failure Kind.native_panic Kind.model_panic ≡ false)
    × (either Kind.native_harness_failure Kind.native_panic Kind.model_panic ≡ false)
    × (capped_search none ≡ false)
unfolding classify same_value matches air2lean.Diff.Classify.classify_observed
    air2lean.Diff.Classify.values_match_of air2lean.Diff.Classify.differing
    air2lean.Diff.Classify.is_expected policy_get air2lean.Diff.Kinds.zig_error capped_search
classify-match_example =
    classify-match policy native_panic model_panic Kind.native_panic Kind.model_panic none plain
      model_panic-IsConsistent refl

legacy_bucket-match_example :
    agrees (
      legacy_bucket policy native_panic model_panic false
        (some (same_value native_panic model_panic))
        none
        false)
    ≡ true
unfolding classify same_value matches air2lean.Diff.Classify.classify_observed
    air2lean.Diff.Classify.values_match_of air2lean.Diff.Classify.differing
    air2lean.Diff.Classify.is_expected policy_get air2lean.Diff.Kinds.zig_error capped_search
legacy_bucket-match_example =
    legacy_bucket-match policy native_panic model_panic Kind.native_panic Kind.model_panic none
      plain model_panic-IsConsistent refl

-- An illegal run of the model on a pinned input.
abbrev pinned : Flags
pinned = record { host = false; exclude_ub = false; pinned = true }

abbrev illegal_run : Wire
illegal_run = fail "Zig.Error.illegal"

classify-excluded_example :
    Licensed policy seven illegal_run Kind.value Kind.illegal none pinned
    × ((kind_eq Kind.illegal Kind.illegal || kind_eq Kind.illegal Kind.unspecified) ≡ true)
unfolding classify matches air2lean.Diff.Classify.classify_observed
    air2lean.Diff.Classify.values_match_of air2lean.Diff.Classify.differing
classify-excluded_example =
    classify-excluded policy seven illegal_run Kind.value Kind.illegal none pinned (some false) refl

abbrev typed_host : Flags
typed_host = record { host = true; exclude_ub = false; pinned = false }

-- A line of the model with the metadata of a search that ran to its cap.
abbrev capped_line : Json
capped_line = obj (
    field "schema" (int (pos 1)) (
      field "kind" (str "value") (
        field "legacy" (obj (field "ok" (int (pos 7)) end)) (
          field "search"
            (obj (
              field "prefix" (arr (cons (int (pos 0)) nil)) (
                field "options" (arr (cons (int (pos 2)) nil)) (
                  field "runs" (int (pos 4)) (
                    field "fuel" (int (pos 10)) (
                      field "cap" (int (pos 4)) (
                        field "status" (str "capped")
                          (field "saw_no_result" (bool false) end))))))))
            end))))

abbrev capped_search_found : Search
capped_search_found = record {
  prefix = 0 ∷ [];
  options = 2 ∷ [];
  runs = 4;
  fuel = 10;
  cap = 4;
  status = capped;
  saw_no_result = false;
}

abbrev no_text : String → Option Json
no_text line = none

observation-IsConsistent_example :
    IsConsistent Side.model seven Kind.value (some capped_search_found)
unfolding observation air2lean.Json.get air2lean.Json.keys_among air2lean.Json.has
    air2lean.Diff.Wire.wire air2lean.Diff.Wire.wire_equal air2lean.Json.json_equal allowed fits
    air2lean.Json.naturals_of air2lean.Json.natural_of
observation-IsConsistent_example =
    observation-IsConsistent no_text capped_line seven Side.model refl

format_of-CountsPattern_example :
    ((decode_bits (record { exp_bits = 8; man_bits = 23; explicit = false }) 1065353216).1
      ≡ pos 1065353216)
    × ((decode_bits
          (record { exp_bits = 8; man_bits = 23; explicit = false })
          (2 ^ (23 + 8) + 1065353216)).1
        ≡ neg_ℕ 1065353216)
unfolding format_of
format_of-CountsPattern_example =
    format_of-CountsPattern 8 (record { exp_bits = 8; man_bits = 23; explicit = false }) refl refl
      1065353216 (omega arith)

-- Two f64 results of a libm function, one ulp apart.
abbrev native_sin : Wire
native_sin = returned (str "0x3fe0000000000001") none none

abbrev model_sin : Wire
model_sin = returned (str "0x3fe0000000000000") none none

host_difference-DiffersByHost_example :
    DiffersByHost (libm_ulp ∷ []) (libm_ulp ∷ []) native_sin model_sin
unfolding host_difference air2lean.Diff.Wire.same_extras air2lean.Diff.Host.differing_leaves
    air2lean.Json.json_equal air2lean.Diff.Wire.normalized air2lean.Base.Text.is_digit
    air2lean.Diff.Floats.leaf_host_kinds air2lean.Base.Text.is_hex air2lean.Base.Text.hexadecimal
host_difference-DiffersByHost_example =
    host_difference-DiffersByHost native_sin model_sin (libm_ulp ∷ []) (libm_ulp ∷ []) refl
