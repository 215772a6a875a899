-- ===== src/Diff/Classify.antt =====
-- `classify` and `legacy_bucket` of scripts/diff-report.py: the verdict on one case.
mod Failures
pub mod Agreement
pub mod Exclusion
use air2lean.Base.{
  ℕ, String, Option, none, some, Bool, true, false, ◌&&◌, ◌||◌, not, List, [], ◌∷◌, str_eq, ◌==◌,
  if◌then◌else◌,
}
use text.Mathlib.Text.{starts_with}
use air2lean.Diff.{
  Kind, kind_eq, Status, status_eq, matches, Search, is_status_capped, Policy, policy_get,
}
use air2lean.Diff.Wire.{Wire, returned, fail, diverge, same_value}
use air2lean.Diff.Kinds.{zig_error}

-- The flags of a case. `host`: a typed host difference was found; `exclude_ub`: the native build has
-- no safety checks; `pinned`: the input is a pinned exclusion of the function.
pub record Flags : Type 0 where
  pub host : Bool
  pub exclude_ub : Bool
  pub pinned : Bool

unfoldable pub capped_search : Option Search → Bool
capped_search none = false
capped_search (some s) = is_status_capped s.status

-- `search and search['saw_no_result']`
unfoldable pub saw_no_result : Option Search → Bool
saw_no_result none = false
saw_no_result (some s) = s.saw_no_result

abbrev pub either : Kind → Kind → Kind → Bool
either k a b = kind_eq a k || kind_eq b k

-- `model.get('fail') == 'Zig.Error.' + PANICS.get(native.get('fail'), '')`
unfoldable pub is_expected : Policy → Wire → Wire → Bool
is_expected panics (fail tag) (fail text) = elim (policy_get tag panics) [
  | none ↦ str_eq text (zig_error "")
  | some e ↦ str_eq text (zig_error e)
]
is_expected panics _ (fail text) = str_eq text (zig_error "")
is_expected panics _ _ = false

-- `values_match` is computed where the caller gives none.
unfoldable pub values_match_of : Option Bool → Wire → Wire → Bool
values_match_of none native model = same_value native model
values_match_of (some b) native model = b

module _ (panics : Policy) (native model : Wire) (nkind mkind : Kind) (found : Option Search)
    (flags : Flags) where
  -- Where the values do not match.
  unfoldable pub differing : Status
  differing =
      if kind_eq mkind Kind.illegal || kind_eq mkind Kind.unspecified
      then (if flags.pinned || (capped_search found || saw_no_result found)
          then (if kind_eq mkind Kind.illegal then Status.illegal else Status.unspecified)
          else Status.mismatch)
      else if kind_eq mkind Kind.unspecified_timer
      then Status.unspecified_timer
      else if kind_eq mkind Kind.stack_overflow
      then Status.stack_overflow
      else if kind_eq mkind Kind.search_cap
      then Status.search_cap
      else if flags.exclude_ub && kind_eq mkind Kind.model_panic
      then Status.ub_excluded
      else if kind_eq nkind Kind.native_panic
          && kind_eq mkind Kind.model_panic
          && is_expected panics native model
      then Status.panic_match
      else if kind_eq nkind Kind.native_signal
          && kind_eq mkind Kind.trap
          && is_expected panics native model
      then Status.trap_match
      else if kind_eq mkind Kind.bounded_no_result || saw_no_result found
      then Status.bounded_no_result
      else if flags.host && kind_eq nkind Kind.value && kind_eq mkind Kind.value
      then Status.host
      else Status.mismatch

  -- `_classify`
  unfoldable pub classify_observed : Option Bool → Status
  classify_observed values_match =
      if either Kind.input_failure nkind mkind
      then Status.input_failure
      else if flags.exclude_ub
          && kind_eq mkind Kind.model_panic
          && kind_eq nkind Kind.native_harness_failure
          && not (same_value native model)
      then Status.ub_excluded
      else if flags.exclude_ub
          && kind_eq mkind Kind.illegal
          && flags.pinned
          && kind_eq nkind Kind.native_harness_failure
      then Status.illegal
      else if either Kind.native_harness_failure nkind mkind
      then Status.native_harness_failure
      else if values_match_of values_match native model
      then (if not (kind_eq nkind mkind)
          then Status.mismatch
          else if kind_eq mkind Kind.error_return
          then Status.error_return_match
          else Status.value_match)
      else differing

  -- Truncated exploration is never demonstrated correspondence.
  unfoldable pub classify : Option Bool → Status
  classify values_match =
      let status = classify_observed values_match in
      if matches status && capped_search found then Status.search_cap else status

pub data Bucket : Type 0 where
  ok fail_match unspecified capped host mismatch ub_excluded : Bucket

-- A legacy agreement counter.
unfoldable pub agrees : Bucket → Bool
agrees Bucket.ok = true
agrees Bucket.fail_match = true
agrees _ = false

-- `LEGACY_UNSPECIFIED`
unfoldable pub legacy_unspecified : String → Bool
legacy_unspecified s =
    str_eq s "Zig.Error.illegal"
    || str_eq s "Zig.Error.unspecified"
    || str_eq s "Zig.Error.unsupportedTimer"
    || str_eq s "Zig.Error.stackOverflow"

-- `PANICS.get(native['fail']) is not None and model['fail'] == 'Zig.Error.' + PANICS[native['fail']]`
unfoldable pub is_fail_match : Policy → Wire → Wire → Bool
is_fail_match panics (fail tag) (fail text) = elim (policy_get tag panics) [
  | none ↦ false
  | some e ↦ str_eq text (zig_error e)
]
is_fail_match panics _ _ = false

unfoldable pub both_returned : Wire → Wire → Bool
both_returned (returned v b l) (returned w c m) = true
both_returned _ _ = false

-- The tests on the failure text of the model; it has none unless it failed.
unfoldable pub model_bucket : Wire → Bool → Option Bucket
unfolding legacy_unspecified
model_bucket (fail text) ub_model =
    if legacy_unspecified text
    then some Bucket.unspecified
    else if str_eq text "Zig.Error.capped"
    then some Bucket.capped
    else if ub_model
        && starts_with text "Zig.Error."
        && not (str_eq text "Zig.Error.deadlock")
        && not (str_eq text "Zig.Error.trap")
    then some Bucket.ub_excluded
    else none
model_bucket _ ub_model = none

module _ (panics : Policy) (native model : Wire) where
  -- `_legacy_bucket`
  unfoldable pub legacy_bucket_of : Bool → Option Bool → Bool → Bucket
  legacy_bucket_of is_host values_match ub_model =
      if values_match_of values_match native model
      then Bucket.ok
      else elim (model_bucket model ub_model) [
        | some b ↦ b
        | none ↦
            if is_fail_match panics native model
            then Bucket.fail_match
            else if is_host && both_returned native model
            then Bucket.host
            else Bucket.mismatch
      ]

  unfoldable pub legacy_bucket : Bool → Option Bool → Option Search → Bool → Bucket
  legacy_bucket is_host values_match found ub_kinds =
      let bucket = legacy_bucket_of is_host values_match ub_kinds in
      if capped_search found && agrees bucket then Bucket.capped else bucket
